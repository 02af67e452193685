-- ===== src/Daemon/Dispatch/Examples.antt =====
-- The theorems about the dispatch of requests at concrete ones.
use samad_package_manager.Daemon.Dispatch.{
  Handler, Route, route, Services, DaemonRequest, Reply, Output, handle_request,
}
use samad_package_manager.Daemon.Dispatch.Roots.{for_root, route-reaches}
use samad_package_manager.Daemon.Dispatch.Replies.{Replied, Lost, Listing, handle_request-replies}
use samad_package_manager.Common.{
  ℕ, suc, ◌≡◌, ◌≢◌, ◌⊎◌, refl, false, none, some, [], Str, codes, arith,
}

abbrev seven : ℕ
seven = 7

user_seven : seven ≢ 0
user_seven = ground arith

route-reaches_example :
    ((action : Str) (h : Handler) → route action 7 ≡ Route.run h → for_root h ≡ false)
    × ((h : Handler) → for_root h ≡ false → (action : Str) × (route action 7 ≡ Route.run h))
    × (for_root Handler.install_local ≡ false)
    × (for_root Handler.install_sandbox ≡ false)
    × (for_root Handler.convert ≡ false)
    × (for_root Handler.build ≡ false)
    × (for_root Handler.sandbox_run ≡ false)
route-reaches_example = route-reaches 7 user_seven

-- Handlers that count their calls.
abbrev services : Services ℕ
services = record {
  from_str = λ s. none;
  handle = λ h req uid n. (Reply.ok (codes "done") none, suc n);
  count_names = λ json. Reply.ok (codes "1 package(s) installed") (some json);
}

abbrev quiet : Output
quiet = record { progress = []; current_uid = none }

abbrev request : DaemonRequest
request = record { action = codes "list"; user_id = 7; body = [] }

other_user : seven ≢ 8
other_user = ground arith

handle_request-replies_example :
    Replied 7 (handle_request services request 7 quiet 0)
    ⊎ (Listing request 7 × Lost 7 (handle_request services request 7 quiet 0))
handle_request-replies_example = handle_request-replies services request 7 quiet 0 refl
