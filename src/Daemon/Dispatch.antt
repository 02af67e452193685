-- ===== src/Daemon/Dispatch.antt =====
-- handle_connection and handle_inner of src/daemon/mod.rs, with the registry of progress channels of
-- src/output.rs. The handlers behind the actions are parameters, and so is the JSON reader; the
-- socket is the list of the responses written to it, and a second handle to it can always be had. A lock whose holder panicked is left aside.
pub mod Roots
pub mod Replies
mod Examples
use samad_package_manager.Common.{
  ℕ, Bool, true, false, not, Option, none, some, List, [], ◌∷◌, ◌++◌, Str, codes, str_eq, keep,
  ◌==◌, if◌then◌else◌,
}

pub data Handler : Type 0 where
  system_install user_install system_remove user_remove list upgrade update dist_upgrade : Handler
  purge autoremove cleanup repo snapshot convert install_local install_sandbox build : Handler
  search search_file info files depends rdepends config_show config_set index_rebuild : Handler
  history init group fsck sync repo_list repo_create repo_publish repo_gen_key : Handler
  repo_sign sandbox_list sandbox_run detect analyze ps self_update : Handler

-- An arm of the `match`: one handler for everybody, one for root and one for the others, or one for
-- root and a refusal for the others.
pub data Arm : Type 0 where
  anyone : Handler → Arm
  split : Handler → Handler → Arm
  only_root : Handler → Str → Arm

abbrev pub arms : List (Str × Arm)
arms =
    (codes "install", split system_install user_install)
    ∷ (codes "remove", split system_remove user_remove)
    ∷ (codes "list", anyone list)
    ∷ (codes "upgrade", only_root upgrade (codes "Only root can upgrade system packages"))
    ∷ (codes "update", anyone update)
    ∷ (codes "dist-upgrade", only_root dist_upgrade (codes "Only root can run dist-upgrade"))
    ∷ (codes "purge", split purge user_remove)
    ∷ (codes "autoremove", only_root autoremove (codes "Only root can autoremove packages"))
    ∷ (codes "cleanup", only_root cleanup (codes "Only root can run cleanup"))
    ∷ (codes "repo", only_root repo (codes "Only root can manage repositories"))
    ∷ (codes "snapshot", only_root snapshot (codes "Only root can manage snapshots"))
    ∷ (codes "convert", anyone convert)
    ∷ (codes "install-local", anyone install_local)
    ∷ (codes "install-sandbox", anyone install_sandbox)
    ∷ (codes "build", anyone build)
    ∷ (codes "search", anyone search)
    ∷ (codes "search-file", anyone search_file)
    ∷ (codes "info", anyone info)
    ∷ (codes "files", anyone files)
    ∷ (codes "depends", anyone depends)
    ∷ (codes "rdepends", anyone rdepends)
    ∷ (codes "config-show", anyone config_show)
    ∷ (codes "config-set", only_root config_set (codes "Only root can set config"))
    ∷ (codes "index-rebuild", only_root index_rebuild (codes "Only root can rebuild index"))
    ∷ (codes "history", anyone history)
    ∷ (codes "init", only_root init (codes "Only root can initialize system"))
    ∷ (codes "group", only_root group (codes "Only root can manage groups"))
    ∷ (codes "fsck", only_root fsck (codes "Only root can run fsck"))
    ∷ (codes "sync", only_root sync (codes "Only root can sync system"))
    ∷ (codes "repo-list", anyone repo_list)
    ∷ (codes "repo-create", only_root repo_create (codes "Only root can create repos"))
    ∷ (codes "repo-publish", only_root repo_publish (codes "Only root can publish packages"))
    ∷ (codes "repo-gen-key", only_root repo_gen_key (codes "Only root can generate keys"))
    ∷ (codes "repo-sign", only_root repo_sign (codes "Only root can sign repos"))
    ∷ (codes "sandbox-list", anyone sandbox_list)
    ∷ (codes "sandbox-run", anyone sandbox_run)
    ∷ (codes "detect", anyone detect)
    ∷ (codes "analyze", anyone analyze)
    ∷ (codes "ps", anyone ps)
    ∷ (codes "self-update", only_root self_update (codes "Only root can self-update"))
    ∷ []

pub data Route : Type 0 where
  run : Handler → Route
  denied : Str → Route
  unknown : Str → Route

abbrev pub route_arm : Arm → ℕ → Route
route_arm (anyone h) uid = run h
route_arm (split h g) uid = if uid == 0 then run h else run g
route_arm (only_root h msg) uid = if uid == 0 then run h else denied msg

unfoldable pub find_route : List (Str × Arm) → Str → ℕ → Route
find_route [] action uid = unknown action
find_route ((name, arm) ∷ rest) action uid =
    if str_eq action name then route_arm arm uid else find_route rest action uid

unfoldable pub route : Str → ℕ → Route
unfolding find_route
route = find_route arms

pub record DaemonRequest : Type 0 where
  pub action : Str
  pub user_id : ℕ
  pub body : Str

pub data Reply : Type 0 where
  ok : Str → Option Str → Reply
  error : Str → Reply

-- What the process keeps beside the database: the users with a progress channel, and the user of
-- the thread.
pub record Output : Type 0 where
  pub progress : List ℕ
  pub current_uid : Option ℕ

unfoldable pub set_progress_tx : ℕ → Output → Output
set_progress_tx uid o = record o { progress = uid ∷ keep (λ v. not (v == uid)) o.progress }

unfoldable pub clear_progress_tx : ℕ → Output → Output
clear_progress_tx uid o = record o { progress = keep (λ v. not (v == uid)) o.progress }

unfoldable pub set_current_uid : ℕ → Output → Output
set_current_uid uid o = record o { current_uid = some uid }

unfoldable pub clear_current_uid : Output → Output
clear_current_uid o = record o { current_uid = none }

-- The handlers and the reader of requests. A handler answers with a message and data, or fails; it
-- may change the state `S` of the rest of the system.
pub record Services (S : Type 0) : Type 0 where
  pub from_str : Str → Option DaemonRequest
  pub handle : Handler → DaemonRequest → ℕ → S → Reply × S
  pub count_names : Str → Reply

pub data Finished : Type 0 where
  done failed : Finished

pub record Served (S : Type 0) : Type 0 where
  pub written : List Reply
  pub finished : Finished
  pub output : Output
  pub rest : S

-- The result of the `match`: an answer, or the return of the function by `?`, which only the arm
-- of "list" has.
pub data Answer : Type 0 where
  answer : Reply → Answer
  returns : Str → Answer

abbrev pub list_answer : {S : Type 0} → Services S → Reply → Answer
list_answer s (ok json extra) = answer (s.count_names json)
list_answer s (error e) = returns e

unfoldable pub is_list : Handler → Bool
is_list list = true
is_list h = false

unfoldable pub answer_of : {S : Type 0} → Services S → Handler → Reply → Answer
unfolding is_list
answer_of s h r = if is_list h then list_answer s r else answer r

unfoldable pub respond : {S : Type 0} → Services S → Route → DaemonRequest → ℕ → S → Answer × S
unfolding answer_of
respond s (run h) req uid st = let r = s.handle h req uid st in (answer_of s h (r.0), r.1)
respond s (denied msg) req uid st = (answer (error msg), st)
respond s (unknown a) req uid st = (answer (error (codes "Unknown action: " ++ a)), st)

unfoldable pub conclude : {S : Type 0} → ℕ → Output → Answer × S → Served S
unfolding clear_progress_tx clear_current_uid
conclude uid o (answer r, st) = record {
  written = r ∷ [];
  finished = done;
  output = clear_current_uid (clear_progress_tx uid o);
  rest = st;
}
conclude uid o (returns e, st) = record { written = []; finished = failed; output = o; rest = st }

abbrev pub mismatch : Str
mismatch = codes "user_id mismatch: cannot impersonate another user"

abbrev pub reject : {S : Type 0} → Str → Output → S → Served S
reject msg o st = record { written = error msg ∷ []; finished = failed; output = o; rest = st }

unfoldable pub handle_request :
    {S : Type 0} → Services S → DaemonRequest → ℕ → Output → S → Served S
unfolding route respond conclude set_progress_tx set_current_uid
handle_request s req uid o st =
    if req.user_id == uid
    then conclude uid (set_current_uid uid (set_progress_tx uid o))
        (respond s (route req.action uid) req uid st)
    else reject mismatch o st

unfoldable pub handle_inner : {S : Type 0} → Services S → Str → ℕ → Output → S → Served S
unfolding handle_request
handle_inner s line uid o st = elim (s.from_str line) [
  | none ↦ reject (codes "Invalid JSON") o st
  | some req ↦ handle_request s req uid o st
]
