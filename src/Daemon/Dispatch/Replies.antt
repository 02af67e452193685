-- ===== src/Daemon/Dispatch/Replies.antt =====
-- What handle_inner of src/daemon/mod.rs writes and leaves behind.
use samad_package_manager.Common.{
  ℕ, ◌≡◌, ◌≢◌, refl, ◌⊎◌, inl, inr, Bool, true, false, not, none, some, List, [], ◌∷◌, Str, length,
  keep, any, ◌==◌, ==_iff, ==_refl, arith, Bool-cases,
}
use samad_package_manager.Daemon.Dispatch.{
  Handler, Route, run, denied, unknown, route, DaemonRequest, Reply, Output, set_progress_tx,
  clear_progress_tx, set_current_uid, clear_current_uid, Services, done, failed, Served, Answer,
  answer, returns, is_list, answer_of, respond, conclude, mismatch, reject, handle_request,
}

equal_uid : (a b : ℕ) → a ≡ b → (a == b) ≡ true
equal_uid a b h = ground arith

abbrev pub has_progress : ℕ → Output → Bool
has_progress uid o = any (λ v. v == uid) o.progress

-- One response, and nothing of the user is left in the registry.
abbrev pub Replied : {S : Type 0} → ℕ → Served S → Type 0
Replied uid r =
    (length r.written ≡ 1)
    × (r.finished ≡ done)
    × (has_progress uid r.output ≡ false)
    × (r.output.current_uid ≡ none)

-- Nothing is written, and the registry keeps the channel of the user.
abbrev pub Lost : {S : Type 0} → ℕ → Served S → Type 0
Lost uid r =
    (r.written ≡ [])
    × (r.finished ≡ failed)
    × (has_progress uid r.output ≡ true)
    × (r.output.current_uid ≡ some uid)

-- Only the handler of "list" makes the function return early.
abbrev pub Listing : DaemonRequest → ℕ → Type 0
Listing req uid = (h : Handler) × (route req.action uid ≡ run h) × (is_list h ≡ true)

module _ {S : Type 0} (s : Services S) where
  -- A request that claims another user is answered with an error and runs nothing.
  pub handle_request-no_impersonation :
      (req : DaemonRequest) (uid : ℕ) (o : Output) (st : S)
      → req.user_id ≢ uid
      → handle_request s req uid o st ≡ reject mismatch o st
  unfolding handle_request
  handle_request-no_impersonation req uid o st n = elim (Bool-cases (req.user_id == uid)) [
    | inl e ↦ ground (arith, ==_iff req.user_id uid)
    | inr e ↦ rw e
  ]

  cleared : (uid : ℕ) (vs : List ℕ) → any (λ v. v == uid) (keep (λ v. not (v == uid)) vs) ≡ false
  cleared uid [] = refl
  cleared uid (v ∷ vs) = ground (arith, cleared uid vs)

  conclude-cases :
      (uid : ℕ) (o : Output) (a : Answer × S)
      → has_progress uid o ≡ true
      → o.current_uid ≡ some uid
      → Replied uid (conclude uid o a)
        ⊎ (((e : Str) × (a.0 ≡ returns e)) × Lost uid (conclude uid o a))
  unfolding conclude clear_progress_tx clear_current_uid
  conclude-cases uid o (answer r, st) h k = inl (refl, refl, cleared uid o.progress, refl)
  conclude-cases uid o (returns e, st) h k = inr ((e, refl), (refl, refl, h, k))

  abbrev set_up : ℕ → Output → Output
  set_up uid o = set_current_uid uid (set_progress_tx uid o)

  answer_returns :
      (h : Handler) (r : Reply) (e : Str) → answer_of s h r ≡ returns e → is_list h ≡ true
  unfolding answer_of
  answer_returns h r e k = ground arith

  respond_returns :
      (r : Route) (req : DaemonRequest) (uid : ℕ) (st : S) (e : Str)
      → (respond s r req uid st).0 ≡ returns e
      → (h : Handler) × (r ≡ run h) × (is_list h ≡ true)
  unfolding respond
  respond_returns (run h) req uid st e k = (h, refl, answer_returns h _ e k)
  respond_returns (denied m) req uid st e k = cc
  respond_returns (unknown a) req uid st e k = cc

  -- A request of the user itself gets exactly one response, and the channel and the user are taken
  -- back; or it is a listing that failed, and then nothing is written and both stay.
  pub handle_request-replies :
      (req : DaemonRequest) (uid : ℕ) (o : Output) (st : S)
      → req.user_id ≡ uid
      → Replied uid (handle_request s req uid o st)
        ⊎ (Listing req uid × Lost uid (handle_request s req uid o st))
  unfolding handle_request
  handle_request-replies req uid o st h =
      let a = respond s (route req.action uid) req uid st in
      let cases =
        conclude-cases uid (set_up uid o) a
          (unfold set_progress_tx set_current_uid in ground (arith, ==_refl uid))
          (unfold set_current_uid in refl) in
      rw (equal_uid req.user_id uid h) (elim cases [
        | inl r ↦ inl r
        | inr ((e, q), l) ↦ inr (respond_returns (route req.action uid) req uid st e q, l)
      ])
