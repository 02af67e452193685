-- ===== src/Version/Order.antt =====
-- Versions are totally preordered, and the epoch decides first.
use samad_package_manager.Common.Order.{IsPreorder}
use samad_package_manager.Common.{lt, eq, ◌≡◌, ap, trim, arith, flip}
use samad_package_manager.Version.Compare.{rpmvercmp}
use samad_package_manager.Version.Tokens.{tokens, compare_tokens}
use samad_package_manager.Version.TokenOrder.{compare_tokens-IsLinear}
use samad_package_manager.Version.Refinement.{rpmvercmp-tokens}
use samad_package_manager.Version.{Version, cmp}

-- `rpmvercmp` is a total preorder: it is reflexive, swapping its arguments reverses the
-- result, texts that it calls equal compare alike with every other, and `lt` is transitive.
pub rpmvercmp-IsPreorder : IsPreorder rpmvercmp
rpmvercmp-IsPreorder = record {
  cmp_refl = λ a. rw rpmvercmp-tokens (compare_tokens-IsLinear.cmp_refl _);
  cmp_flip = λ a b. simp rpmvercmp-tokens (compare_tokens-IsLinear.cmp_flip _ _);
  cmp_congr = λ a b c h. simp rpmvercmp-tokens (
      ap (λ ts. compare_tokens ts (tokens (trim c)))
        (compare_tokens-IsLinear.eq_of_cmp _ _ (simp rpmvercmp-tokens at h)));
  lt_trans = λ a b c h k. simp rpmvercmp-tokens (
      compare_tokens-IsLinear.lt_trans _ (tokens (trim b)) _ (simp rpmvercmp-tokens at h)
        (simp rpmvercmp-tokens at k));
}

module _ (r : IsPreorder rpmvercmp) where
  cmp-flip : (v w : Version) → cmp w v ≡ flip (cmp v w)
  unfolding cmp
  cmp-flip v w = ground (arith, r.cmp_flip v.version w.version, r.cmp_flip v.release w.release)

  cmp-congr : (u v w : Version) → cmp u v ≡ eq → cmp u w ≡ cmp v w
  unfolding cmp
  cmp-congr u v w h =
      ground (
        arith,
        r.cmp_congr u.version v.version w.version,
        r.cmp_congr u.release v.release w.release,
      )

  version_cmp_trans : (u v w : Version) → cmp u v ≡ lt → cmp v w ≡ lt → cmp u w ≡ lt
  unfolding cmp
  version_cmp_trans u v w h k = ground (
    arith,
    r.cmp_congr u.version v.version w.version,
    r.lt_trans u.version v.version w.version,
    r.lt_trans u.release v.release w.release,
    r.cmp_congr u.release v.release w.release,
    r.cmp_flip u.version w.version,
    r.cmp_flip v.version w.version,
    r.cmp_congr w.version v.version u.version,
    r.cmp_flip u.version v.version,
    r.cmp_flip u.release v.release,
    r.cmp_flip v.release w.release,
  )

  version_cmp_refl : (v : Version) → cmp v v ≡ eq
  unfolding cmp
  version_cmp_refl v = ground (arith, r.cmp_refl v.version, r.cmp_refl v.release)

-- The order on versions, by epoch, version and release, is a total preorder.
pub cmp-IsPreorder : IsPreorder cmp
cmp-IsPreorder = record {
  cmp_refl = version_cmp_refl rpmvercmp-IsPreorder;
  cmp_flip = cmp-flip rpmvercmp-IsPreorder;
  cmp_congr = cmp-congr rpmvercmp-IsPreorder;
  lt_trans = version_cmp_trans rpmvercmp-IsPreorder;
}
