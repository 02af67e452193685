-- ===== src/Solver/Examples.antt =====
-- The theorems about the solver's input and output at concrete values.
use samad_package_manager.Common.{
  ◌≡◌, refl, Bool, true, not, trim, trim_end_matches, drop_while, trim_start, take_while,
  split_char, none, some, List, [], ◌∷◌, codes, str_eq,
}
use samad_package_manager.Package.{PackageId, RepoSource, deb, new}
use samad_package_manager.Version.{Version, parse, cmp, prefer_newest}
use samad_package_manager.Index.{SonameIndex, SonameProvider, find}
use samad_package_manager.Solver.Ranges.{Ranges, IsRanges, is_lt, is_gt, is_eq}
use samad_package_manager.Solver.Best.{SpmDepProvider, provided, best_version}
use samad_package_manager.Solver.Newest.{Newest, best_version-Newest}
use samad_package_manager.Solver.Packages.{resolve_with_solver, no_solution}

-- Ranges as their tests.
abbrev tests : Ranges (Version → Bool)
tests = record {
  full = λ w. true;
  higher_than = λ v w. not (is_lt (cmp w v));
  strictly_higher_than = λ v w. is_gt (cmp w v);
  lower_than = λ v w. not (is_gt (cmp w v));
  strictly_lower_than = λ v w. is_lt (cmp w v);
  singleton = λ v w. is_eq (cmp w v);
  contains = λ r w. r w;
}

tests-IsRanges : IsRanges tests
tests-IsRanges = record {
  full_law = λ w. refl;
  higher_law = λ v w. refl;
  strictly_higher_law = λ v w. refl;
  lower_law = λ v w. refl;
  strictly_lower_law = λ v w. refl;
  singleton_law = λ v w. refl;
}

abbrev zlib : SonameProvider
zlib = record {
  source = RepoSource.deb;
  repo = codes "main";
  pkg = codes "zlib1g";
  version = codes "1.3";
  priority = 10;
}

abbrev small : SonameIndex
small = record {
  version = 1;
  entries = (codes "libz", record { requires = codes "libc" ∷ []; providers = zlib ∷ [] }) ∷ [];
}

abbrev provider : SpmDepProvider
provider = record { index = small; strategy = prefer_newest; preferred_source = none }

chosen : best_version provider (codes "libz") ≡ some (parse (codes "1.3"))
unfolding best_version provided find str_eq
chosen = refl

best_version-Newest_example : Newest (parse (codes "1.3")) (provided provider (codes "libz"))
best_version-Newest_example =
    best_version-Newest provider (codes "libz") (parse (codes "1.3")) refl chosen

abbrev fallback : List PackageId
fallback = new (codes "libz") deb ∷ new (codes "libc") deb ∷ []

fallen_back : resolve_with_solver small (codes "libz") deb no_solution ≡ some fallback
unfolding resolve_with_solver find str_eq trim trim_end_matches drop_while trim_start take_while
    split_char
fallen_back = refl
