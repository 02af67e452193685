-- ===== src/Solver/Packages.antt =====
-- solution_to_packages and fallback_to_native_resolver of src/package/solver.rs: the packages that
-- are installed for a solution, and those that are taken when there is none.
use samad_package_manager.Common.Members.{unique, unique-append_last}
use mathlib.Core.List.{map-append}
use samad_package_manager.Package.{PackageFormat, PackageId, new, new_v}
use samad_package_manager.Version.{Version, to_string}
use samad_package_manager.Index.{SonameIndex, SonameProvider, get_providers, get_requires}
use samad_package_manager.Solver.Names.{extract_dep_name}
use samad_package_manager.Solver.Best.{first_by_priority, unwrap_or_default}
use samad_package_manager.Common.{
  ◌≡◌, refl, inl, inr, Bool, true, false, ◌||◌, Option, none, some, List, [], ◌∷◌, ◌++◌, map, Str,
  codes, mem, starts_with, contains, if◌then◌else◌, arith, Bool-cases,
}

unfoldable pub is_internal : Str → Bool
unfolding starts_with
is_internal name = starts_with name (codes "__or_") || starts_with name (codes "rpmlib(")

unfoldable pub is_capability : Str → Bool
unfolding contains starts_with
is_capability name = contains name (codes ".so") || starts_with name (codes "/")

-- The package for an entry of the solution: `seen` is the list of the names that have one already.
abbrev pub name_list : List PackageId → List Str
name_list = map (λ p. p.name)

abbrev pub add_unseen : PackageId → List PackageId → List PackageId
add_unseen p pkgs = if mem p.name (name_list pkgs) then pkgs else pkgs ++ p ∷ []

abbrev pub add_best : PackageFormat → List PackageId → Option SonameProvider → List PackageId
add_best format pkgs none = pkgs
add_best format pkgs (some p) = add_unseen (new_v p.pkg format p.version) pkgs

-- min_by_key(|p| p.priority): the first of the least ones. Since every name that is seen has its
-- package, the set of the names is that of the packages.
unfoldable pub solution_loop :
    SonameIndex → PackageFormat → List PackageId → List (Str × Version) → List PackageId
unfolding is_internal is_capability get_providers first_by_priority to_string mem
solution_loop index format pkgs [] = pkgs
solution_loop index format pkgs ((name, ver) ∷ rest) =
    solution_loop index format
      (if is_internal name
        then pkgs
        else if is_capability name
        then add_best format pkgs (first_by_priority (unwrap_or_default (get_providers index name)))
        else add_unseen (new_v name format (to_string ver)) pkgs)
      rest

unfoldable pub solution_to_packages :
    List (Str × Version) → SonameIndex → PackageFormat → List PackageId
unfolding solution_loop
solution_to_packages solution index format = solution_loop index format [] solution

abbrev is_empty : Str → Bool
is_empty [] = true
is_empty (c ∷ s) = false

unfoldable pub fallback_loop : PackageFormat → List PackageId → List Str → List PackageId
unfolding extract_dep_name mem
fallback_loop format pkgs [] = pkgs
fallback_loop format pkgs (req ∷ reqs) =
    let name = extract_dep_name req in
    fallback_loop format (if is_empty name then pkgs else add_unseen (new name format) pkgs) reqs

unfoldable pub fallback_to_native_resolver : SonameIndex → Str → PackageFormat → List PackageId
unfolding fallback_loop get_requires
fallback_to_native_resolver index root format =
    fallback_loop format (new root format ∷ []) (unwrap_or_default (get_requires index root))

-- What pubgrub says: a solution, that there is none, or an error.
pub data Solved : Type 0 where
  solution : List (Str × Version) → Solved
  no_solution solver_error : Solved

unfoldable pub resolve_with_solver :
    SonameIndex → Str → PackageFormat → Solved → Option (List PackageId)
unfolding solution_to_packages fallback_to_native_resolver
resolve_with_solver index root format (solution s) = some (solution_to_packages s index format)
resolve_with_solver index root format no_solution =
    some (fallback_to_native_resolver index root format)
resolve_with_solver index root format solver_error = none

abbrev pub IsUnique : List PackageId → Type 0
IsUnique pkgs = unique (name_list pkgs) ≡ true

add_unseen-IsUnique :
    (p : PackageId) (pkgs : List PackageId) → IsUnique pkgs → IsUnique (add_unseen p pkgs)
add_unseen-IsUnique p pkgs u = elim (Bool-cases (mem p.name (name_list pkgs))) [
  | inl e ↦ rw e u
  | inr e ↦ rw e (
      rw (map-append (λ (q : PackageId). q.name) pkgs (p ∷ []))
        (unique-append_last (name_list pkgs) p.name u e))
]

add_best-IsUnique :
    (format : PackageFormat) (pkgs : List PackageId) (o : Option SonameProvider)
    → IsUnique pkgs
    → IsUnique (add_best format pkgs o)
add_best-IsUnique format pkgs none u = u
add_best-IsUnique format pkgs (some p) u = add_unseen-IsUnique (new_v p.pkg format p.version) pkgs u

solution_loop-IsUnique :
    (index : SonameIndex) (format : PackageFormat) (pkgs : List PackageId)
    (s : List (Str × Version))
    → IsUnique pkgs
    → IsUnique (solution_loop index format pkgs s)
unfolding solution_loop
solution_loop-IsUnique index format pkgs [] u = u
solution_loop-IsUnique index format pkgs ((name, ver) ∷ rest) u =
    elim (Bool-cases (is_internal name)) [
      | inl e ↦ rw e (solution_loop-IsUnique index format pkgs rest u)
      | inr e ↦ elim (Bool-cases (is_capability name)) [
        | inl c ↦
            rw (e, c)
              (solution_loop-IsUnique index format
                (add_best format pkgs
                  (first_by_priority (unwrap_or_default (get_providers index name))))
                rest
                (add_best-IsUnique format pkgs
                  (first_by_priority (unwrap_or_default (get_providers index name))) u))
        | inr c ↦
            rw (e, c)
              (solution_loop-IsUnique index format
                (add_unseen (new_v name format (to_string ver)) pkgs) rest
                (add_unseen-IsUnique (new_v name format (to_string ver)) pkgs u))
      ]
    ]

fallback_loop-IsUnique :
    (format : PackageFormat) (pkgs : List PackageId) (reqs : List Str)
    → IsUnique pkgs
    → IsUnique (fallback_loop format pkgs reqs)
unfolding fallback_loop
fallback_loop-IsUnique format pkgs [] u = u
fallback_loop-IsUnique format pkgs (req ∷ reqs) u =
    elim (Bool-cases (is_empty (extract_dep_name req))) [
      | inl e ↦ rw e (fallback_loop-IsUnique format pkgs reqs u)
      | inr e ↦ rw e (
          fallback_loop-IsUnique format (add_unseen (new (extract_dep_name req) format) pkgs) reqs
            (add_unseen-IsUnique (new (extract_dep_name req) format) pkgs u))
    ]

-- Whatever the solver says, the packages that are resolved for a root have distinct names.
pub resolve_with_solver-IsUnique :
    (index : SonameIndex) (root : Str) (format : PackageFormat) (answer : Solved)
    (pkgs : List PackageId)
    → resolve_with_solver index root format answer ≡ some pkgs
    → IsUnique pkgs
unfolding resolve_with_solver solution_to_packages fallback_to_native_resolver unique mem
resolve_with_solver-IsUnique index root format (solution s) pkgs h =
    ground (arith, h, solution_loop-IsUnique index format [] s refl)
resolve_with_solver-IsUnique index root format no_solution pkgs h = ground (
  arith,
  h,
  fallback_loop-IsUnique format (new root format ∷ []) (unwrap_or_default (get_requires index root))
      refl,
)
resolve_with_solver-IsUnique index root format solver_error pkgs h = cc
