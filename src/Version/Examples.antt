-- ===== src/Version/Examples.antt =====
-- Tests of src/types/mod.rs, and the theorems at concrete versions.
use samad_package_manager.Common.{
  lt, eq, gt, ◌≡◌, refl, codes, trim, arith, rsplit_char, split_char, str_eq, trim_end_matches,
  drop_while, trim_start, take_while, parse_unsigned,
}
use samad_package_manager.Version.Compare.{rpmvercmp}
use samad_package_manager.Version.Tokens.{tokens, compare_tokens}
use samad_package_manager.Version.Refinement.{rpmvercmp-tokens, rpmvercmp_loop-tokens, Agrees}
use samad_package_manager.Version.Display.{parse-to_string}
use samad_package_manager.Version.{Version, parse, to_string, compare}

abbrev tagged : Version
tagged = record { epoch = 2; version = codes "1.2.3"; release = codes "1.fc40" }

compare_test :
    (compare (codes "1.2.3-1") (codes "1.2.10-1") ≡ lt)
    × (compare (codes "2:1.0-1") (codes "1:2.0-1") ≡ gt)
    × (compare (codes "1.0~rc1-1") (codes "1.0-1") ≡ lt)
    × (compare (codes "1.0~rc2-1") (codes "1.0~rc1-1") ≡ gt)
    × (compare (codes "1.0-1.fc40") (codes "1.0-1.fc39") ≡ gt)
    × (rpmvercmp (codes "1.2") (codes "1.002") ≡ eq)
unfolding compare rpmvercmp rsplit_char split_char str_eq trim trim_end_matches drop_while
    trim_start take_while parse_unsigned
compare_test = (refl, refl, refl, refl, refl, refl)

rpmvercmp-tokens_example :
    rpmvercmp (codes "1.10~rc2") (codes "1.010")
    ≡ compare_tokens (tokens (trim (codes "1.10~rc2"))) (tokens (trim (codes "1.010")))
rpmvercmp-tokens_example = rpmvercmp-tokens (codes "1.10~rc2") (codes "1.010")

rpmvercmp_loop-tokens_example : Agrees 20 (codes "1.10~rc2") (codes "1.010")
rpmvercmp_loop-tokens_example =
    rpmvercmp_loop-tokens 20 (codes "1.10~rc2") (codes "1.010") (omega arith)

parse-to_string_example : parse (to_string tagged) ≡ tagged
parse-to_string_example = parse-to_string tagged (record {
  epoch_fits = omega arith;
  release_clean = refl;
  version_clean = λ e. absurd (omega arith);
  release_colon = λ e. absurd (omega arith);
  alone = λ e. absurd (omega arith);
})
