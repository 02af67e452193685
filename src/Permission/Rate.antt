-- ===== src/Permission/Rate.antt =====
-- `check_rate_limit` of src/daemon/permission.rs: a fixed window of one second for each user.
pub mod Second
use samad_package_manager.Common.{
  ℕ, suc, ◌+◌, ◌-◌, ◌≤◌, ◌≡◌, refl, ◌≢◌, Bool, true, false, Option, none, some, List, [], ◌∷◌, ltb,
  leb, ◌==◌, ==_iff, ==_refl, ◌<◌, ◌∙◌, Bool-cases, if◌then◌else◌, All, arith, Option-cases, inl,
  inr,
}

-- Milliseconds.
abbrev pub rate_limit_window : ℕ
rate_limit_window = 1000

abbrev pub rate_limit_max : ℕ
rate_limit_max = 10

-- For each user the start of the window and the requests in it.
abbrev pub Rates : Type 0
Rates = ℕ → Option (ℕ × ℕ)

abbrev pub put {ℓ} : {V : Type ℓ} → (ℕ → Option V) → ℕ → V → ℕ → Option V
put rates uid entry v = if uid == v then some entry else rates v

-- limits.entry(uid).or_insert((now, 0))
abbrev pub entry_or_insert : Option (ℕ × ℕ) → ℕ → ℕ × ℕ
entry_or_insert none now = (now, 0)
entry_or_insert (some e) now = e

-- The new entry of the user, and the answer.
unfoldable pub count_request : ℕ × ℕ → ℕ → (ℕ × ℕ) × Bool
count_request (start, count) now =
    if ltb rate_limit_window (now - start)
    then ((now, 1), true)
    else if leb rate_limit_max count
    then ((start, count), false)
    else ((start, count + 1), true)

unfoldable pub check_rate_limit : Rates → ℕ → ℕ → Rates × Bool
unfolding count_request
check_rate_limit rates uid now =
    let (entry, answer) = count_request (entry_or_insert (rates uid) now) now in
    (put rates uid entry, answer)

-- The requests of one user that a run over (user, time) lets pass.
unfoldable pub accepted : ℕ → Rates → List (ℕ × ℕ) → ℕ
accepted uid rates [] = 0
accepted uid rates ((v, now) ∷ rest) =
    let (rates', answer) = check_rate_limit rates v now in
    let later = accepted uid rates' rest in
    if answer then (if v == uid then suc later else later) else later

abbrev pub Within : ℕ → ℕ → List (ℕ × ℕ) → Type 0
Within from until = All (λ (r : ℕ × ℕ). (from ≤ r.1) × (r.1 ≤ until))

-- A request of one user leaves what is known of the others.
pub check_rate_limit_others :
    (rates : Rates) (uid v now : ℕ) → uid ≢ v → (check_rate_limit rates uid now).0 v ≡ rates v
unfolding check_rate_limit
check_rate_limit_others rates uid v now h = ground (arith, ==_iff uid v)

module _ (rates : Rates) (uid start count now : ℕ) (e : rates uid ≡ some (start, count))
    (w : now ≤ start + rate_limit_window) where
  -- Below the limit the request passes and is counted.
  pub check_rate_limit-below :
      count < rate_limit_max
      → ((check_rate_limit rates uid now).1 ≡ true)
        × ((check_rate_limit rates uid now).0 uid ≡ some (start, count + 1))
  unfolding check_rate_limit
  check_rate_limit-below h = ground (arith, ==_refl uid)

  -- At the limit it does not.
  pub check_rate_limit-full :
      rate_limit_max ≤ count
      → ((check_rate_limit rates uid now).1 ≡ false)
        × ((check_rate_limit rates uid now).0 uid ≡ some (start, count))
  unfolding check_rate_limit
  check_rate_limit-full h = ground (arith, ==_refl uid)

pub accepted-cons_self :
    (uid now : ℕ) (rates : Rates) (reqs : List (ℕ × ℕ))
    → accepted uid rates ((uid, now) ∷ reqs)
      ≡ (if (check_rate_limit rates uid now).1 then 1 else 0)
        + accepted uid (check_rate_limit rates uid now).0 reqs
unfolding accepted
accepted-cons_self uid now rates reqs = ground (arith, ==_refl uid)

pub accepted-cons_other :
    (uid v now : ℕ) (rates : Rates) (reqs : List (ℕ × ℕ))
    → (v == uid) ≡ false
    → accepted uid rates ((v, now) ∷ reqs) ≡ accepted uid (check_rate_limit rates v now).0 reqs
unfolding accepted
accepted-cons_other uid v now rates reqs h = ground arith

pub accepted-nil : (uid : ℕ) (rates : Rates) → accepted uid rates [] ≡ 0
unfolding accepted
accepted-nil uid rates = refl

-- A request of the user itself, where the bound holds for what follows.
accepted_self :
    (uid start count now : ℕ) (reqs : List (ℕ × ℕ)) (rates : Rates)
    → rates uid ≡ some (start, count)
    → count ≤ rate_limit_max
    → now ≤ start + rate_limit_window
    → ((n : ℕ)
        → (check_rate_limit rates uid now).0 uid ≡ some (start, n)
        → n ≤ rate_limit_max
        → accepted uid (check_rate_limit rates uid now).0 reqs + n ≤ rate_limit_max)
    → accepted uid rates ((uid, now) ∷ reqs) + count ≤ rate_limit_max
accepted_self uid start count now reqs rates e c w later =
    rw (accepted-cons_self uid now rates reqs) (elim (Bool-cases (leb rate_limit_max count)) [
      | inl full ↦
          let step = check_rate_limit-full rates uid start count now e w (ground arith) in
          rw (step.0) (omega (arith, later count step.1 c))
      | inr below ↦
          let step = check_rate_limit-below rates uid start count now e w (ground arith) in
          rw (step.0) (omega (arith, later (count + 1) step.1 (ground arith)))
    ])

-- Inside a window that began at `start` with `count` requests, what is left of the limit passes.
pub accepted-open :
    (uid start count : ℕ) (reqs : List (ℕ × ℕ)) (rates : Rates)
    → rates uid ≡ some (start, count)
    → count ≤ rate_limit_max
    → All (λ (r : ℕ × ℕ). r.1 ≤ start + rate_limit_window) reqs
    → accepted uid rates reqs + count ≤ rate_limit_max
accepted-open uid start count [] rates e c w = rw (accepted-nil uid rates) (omega arith)
accepted-open uid start count ((v, now) ∷ reqs) rates e c w = elim (Bool-cases (v == uid)) [
  | inr other ↦ rw (accepted-cons_other uid v now rates reqs other) (
      accepted-open uid start count reqs _
        (check_rate_limit_others rates v uid now (λ q. ground (arith, other)) ∙ e) c w.1)
  | inl self ↦ rw ((==_iff v uid).0 self) (
      accepted_self uid start count now reqs rates e c w.0
        λ n h k. accepted-open uid start n reqs (check_rate_limit rates uid now).0 h k w.1)
]
