-- ===== src/Daemon/Dispatch/Roots.antt =====
-- Which handlers of src/daemon/mod.rs a user reaches.
use samad_package_manager.Common.{
  ℕ, ◌≡◌, ◌≢◌, refl, inl, inr, Bool, true, false, List, [], ◌∷◌, Str, codes, str_eq, ◌==◌, ==_iff,
  if◌then◌else◌, arith, Bool-cases,
}
use samad_package_manager.Daemon.Dispatch.{
  Handler, system_install, user_install, system_remove, user_remove, list, upgrade, update,
  dist_upgrade, purge, autoremove, cleanup, repo, snapshot, convert, install_local, install_sandbox,
  build, search, search_file, info, files, depends, rdepends, config_show, config_set,
  index_rebuild, history, init, group, fsck, sync, repo_list, repo_create, repo_publish,
  repo_gen_key, repo_sign, sandbox_list, sandbox_run, detect, analyze, ps, self_update, Arm, anyone,
  split, only_root, arms, run, route_arm, find_route, route,
}

-- The handlers that the daemon runs for root alone.
unfoldable pub for_root : Handler → Bool
for_root system_install = true
for_root system_remove = true
for_root upgrade = true
for_root dist_upgrade = true
for_root purge = true
for_root autoremove = true
for_root cleanup = true
for_root repo = true
for_root snapshot = true
for_root config_set = true
for_root index_rebuild = true
for_root init = true
for_root group = true
for_root fsck = true
for_root sync = true
for_root repo_create = true
for_root repo_publish = true
for_root repo_gen_key = true
for_root repo_sign = true
for_root self_update = true
for_root _ = false

-- An arm lets nobody but root reach a handler that is for root.
unfoldable pub guarded : List (Str × Arm) → Bool
unfolding for_root
guarded [] = true
guarded ((name, anyone h) ∷ rest) = if for_root h then false else guarded rest
guarded ((name, split h g) ∷ rest) = if for_root g then false else guarded rest
guarded ((name, only_root h msg) ∷ rest) = guarded rest

arm-guarded :
    (arm : Arm) (name : Str) (rest : List (Str × Arm)) (uid : ℕ) (h : Handler)
    → guarded ((name, arm) ∷ rest) ≡ true
    → uid ≢ 0
    → route_arm arm uid ≡ run h
    → for_root h ≡ false
unfolding guarded
arm-guarded (anyone g) name rest uid h k n e = ground arith
arm-guarded (split g g2) name rest uid h k n e = ground (arith, ==_iff uid 0)
arm-guarded (only_root g msg) name rest uid h k n e = ground (arith, ==_iff uid 0)

guarded-rest :
    (arm : Arm) (name : Str) (rest : List (Str × Arm))
    → guarded ((name, arm) ∷ rest) ≡ true
    → guarded rest ≡ true
unfolding guarded
guarded-rest (anyone g) name rest k = ground arith
guarded-rest (split g g2) name rest k = ground arith
guarded-rest (only_root g msg) name rest k = k

find_route-guarded :
    (rows : List (Str × Arm)) (action : Str) (uid : ℕ) (h : Handler)
    → guarded rows ≡ true
    → uid ≢ 0
    → find_route rows action uid ≡ run h
    → for_root h ≡ false
unfolding find_route
find_route-guarded [] action uid h k n e = cc
find_route-guarded ((name, arm) ∷ rest) action uid h k n e =
    elim (Bool-cases (str_eq action name)) [
      | inl q ↦ arm-guarded arm name rest uid h k n (rw q at e)
      | inr q ↦ find_route-guarded rest action uid h (guarded-rest arm name rest k) n (rw q at e)
    ]

arms-guarded : guarded arms ≡ true
unfolding guarded for_root
arms-guarded = refl

-- An action of each handler that is not for root.
action_of : Handler → Str
action_of user_install = codes "install"
action_of user_remove = codes "remove"
action_of list = codes "list"
action_of update = codes "update"
action_of convert = codes "convert"
action_of install_local = codes "install-local"
action_of install_sandbox = codes "install-sandbox"
action_of build = codes "build"
action_of search = codes "search"
action_of search_file = codes "search-file"
action_of info = codes "info"
action_of files = codes "files"
action_of depends = codes "depends"
action_of rdepends = codes "rdepends"
action_of config_show = codes "config-show"
action_of history = codes "history"
action_of repo_list = codes "repo-list"
action_of sandbox_list = codes "sandbox-list"
action_of sandbox_run = codes "sandbox-run"
action_of detect = codes "detect"
action_of analyze = codes "analyze"
action_of ps = codes "ps"
action_of _ = []

reached :
    (h : Handler) (uid : ℕ)
    → (uid == 0) ≡ false
    → for_root h ≡ false
    → route (action_of h) uid ≡ run h
unfolding route find_route str_eq for_root action_of
reached system_install uid n e = cc
reached user_install uid n e = rw n refl
reached system_remove uid n e = cc
reached user_remove uid n e = rw n refl
reached list uid n e = refl
reached upgrade uid n e = cc
reached update uid n e = refl
reached dist_upgrade uid n e = cc
reached purge uid n e = cc
reached autoremove uid n e = cc
reached cleanup uid n e = cc
reached repo uid n e = cc
reached snapshot uid n e = cc
reached convert uid n e = refl
reached install_local uid n e = refl
reached install_sandbox uid n e = refl
reached build uid n e = refl
reached search uid n e = refl
reached search_file uid n e = refl
reached info uid n e = refl
reached files uid n e = refl
reached depends uid n e = refl
reached rdepends uid n e = refl
reached config_show uid n e = refl
reached config_set uid n e = cc
reached index_rebuild uid n e = cc
reached history uid n e = refl
reached init uid n e = cc
reached group uid n e = cc
reached fsck uid n e = cc
reached sync uid n e = cc
reached repo_list uid n e = refl
reached repo_create uid n e = cc
reached repo_publish uid n e = cc
reached repo_gen_key uid n e = cc
reached repo_sign uid n e = cc
reached sandbox_list uid n e = refl
reached sandbox_run uid n e = refl
reached detect uid n e = refl
reached analyze uid n e = refl
reached ps uid n e = refl
reached self_update uid n e = cc

-- A user other than root reaches exactly the handlers that are not for root, and the installation of
-- a local file or in a sandbox, the conversion, the build and the run in a sandbox are among those
-- that are reached.
pub route-reaches :
    (uid : ℕ)
    → uid ≢ 0
    → ((action : Str) (h : Handler) → route action uid ≡ run h → for_root h ≡ false)
      × ((h : Handler) → for_root h ≡ false → (action : Str) × (route action uid ≡ run h))
      × (for_root install_local ≡ false)
      × (for_root install_sandbox ≡ false)
      × (for_root convert ≡ false)
      × (for_root build ≡ false)
      × (for_root sandbox_run ≡ false)
unfolding route for_root
route-reaches uid n = (
  λ action h e. find_route-guarded arms action uid h arms-guarded n e,
  λ h e. (action_of h, reached h uid (ground (arith, n, ==_iff uid 0)) e),
  refl,
  refl,
  refl,
  refl,
  refl,
)
