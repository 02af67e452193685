-- ===== src/Permission/Rate/Second.antt =====
-- How many requests of a user pass in a second.
use samad_package_manager.Common.{
  ℕ, zero, suc, ◌+◌, ◌≤◌, ◌<◌, ◌≡◌, ◌∙◌, true, none, some, List, [], ◌∷◌, leb, ltb, ◌==◌, ==_iff,
  ==_refl, All, arith, Bool-cases, inl, inr,
}
use samad_package_manager.Permission.Rate.{
  Rates, rate_limit_window, rate_limit_max, Within, check_rate_limit, check_rate_limit_others,
  check_rate_limit-below, check_rate_limit-full, accepted, accepted-nil, accepted-cons_self,
  accepted-cons_other, accepted-open,
}

module _ (rates : Rates) (uid now : ℕ) where
  -- The first request of a user opens a window.
  check_rate_limit-first :
      rates uid ≡ none
      → ((check_rate_limit rates uid now).1 ≡ true)
        × ((check_rate_limit rates uid now).0 uid ≡ some (now, 1))
  unfolding check_rate_limit
  check_rate_limit-first e = ground (arith, ==_refl uid)

  -- After the window a request opens the next one.
  check_rate_limit-late :
      (start count : ℕ)
      → rates uid ≡ some (start, count)
      → start + rate_limit_window < now
      → ((check_rate_limit rates uid now).1 ≡ true)
        × ((check_rate_limit rates uid now).0 uid ≡ some (now, 1))
  unfolding check_rate_limit
  check_rate_limit-late start count e h = ground (arith, ==_refl uid)

until_from :
    (now from : ℕ) (reqs : List (ℕ × ℕ))
    → from ≤ now
    → Within from (from + rate_limit_window) reqs
    → All (λ (r : ℕ × ℕ). r.1 ≤ now + rate_limit_window) reqs
until_from now from [] h w = tt
until_from now from (r ∷ reqs) h w = (omega arith, until_from now from reqs h w.1)

-- What passes behind a request that opens a window.
accepted-opened :
    (uid now from : ℕ) (reqs : List (ℕ × ℕ)) (rates : Rates)
    → ((check_rate_limit rates uid now).1 ≡ true)
      × ((check_rate_limit rates uid now).0 uid ≡ some (now, 1))
    → from ≤ now
    → Within from (from + rate_limit_window) reqs
    → accepted uid rates ((uid, now) ∷ reqs) ≤ rate_limit_max
accepted-opened uid now from reqs rates step h w =
    rw (accepted-cons_self uid now rates reqs, step.0)
      (omega (
        arith,
        accepted-open uid now 1 reqs (check_rate_limit rates uid now).0 step.1 (omega arith)
            (until_from now from reqs h w),
      ))

-- Of a user who has no window yet, at most ten requests pass in the second after `from`.
pub accepted-fresh :
    (uid from : ℕ) (reqs : List (ℕ × ℕ)) (rates : Rates)
    → rates uid ≡ none
    → Within from (from + rate_limit_window) reqs
    → accepted uid rates reqs ≤ rate_limit_max
accepted-fresh uid from [] rates e w = rw (accepted-nil uid rates) (omega arith)
accepted-fresh uid from ((v, now) ∷ reqs) rates e w = elim (Bool-cases (v == uid)) [
  | inr other ↦ rw (accepted-cons_other uid v now rates reqs other) (
      accepted-fresh uid from reqs _
        (check_rate_limit_others rates v uid now (λ q. ground (arith, other)) ∙ e) w.1)
  | inl self ↦
      rw ((==_iff v uid).0 self)
        (accepted-opened uid now from reqs rates (check_rate_limit-first rates uid now e) w.0.0 w.1)
]

second_self :
    (uid from start count now : ℕ) (reqs : List (ℕ × ℕ)) (rates : Rates)
    → rates uid ≡ some (start, count)
    → count ≤ rate_limit_max
    → from ≤ now
    → Within from (from + rate_limit_window) reqs
    → ((n : ℕ)
        → (check_rate_limit rates uid now).0 uid ≡ some (start, n)
        → n ≤ rate_limit_max
        → accepted uid (check_rate_limit rates uid now).0 reqs + n
          ≤ rate_limit_max + rate_limit_max)
    → accepted uid rates ((uid, now) ∷ reqs) + count ≤ rate_limit_max + rate_limit_max
second_self uid from start count now reqs rates e c h w later =
    elim (Bool-cases (ltb (start + rate_limit_window) now)) [
      | inl late ↦ omega (
        arith,
        accepted-opened uid now from reqs rates
            (check_rate_limit-late rates uid now start count e (ground arith)) h w,
      )
      | inr early ↦
          rw (accepted-cons_self uid now rates reqs) (elim (Bool-cases (leb rate_limit_max count)) [
            | inl full ↦
                let step =
                  check_rate_limit-full rates uid start count now e (ground arith) (ground arith) in
                rw (step.0) (omega (arith, later count step.1 c))
            | inr below ↦
                let step =
                  check_rate_limit-below rates uid start count now e (ground arith)
                    (ground arith) in
                rw (step.0) (omega (arith, later (count + 1) step.1 (ground arith)))
          ])
    ]

-- Whatever the window of a user, what passes in a second and what the window has counted before
-- make at most twenty.
pub accepted-second :
    (uid from start count : ℕ) (reqs : List (ℕ × ℕ)) (rates : Rates)
    → rates uid ≡ some (start, count)
    → count ≤ rate_limit_max
    → Within from (from + rate_limit_window) reqs
    → accepted uid rates reqs + count ≤ rate_limit_max + rate_limit_max
accepted-second uid from start count [] rates e c w = rw (accepted-nil uid rates) (omega arith)
accepted-second uid from start count ((v, now) ∷ reqs) rates e c w = elim (Bool-cases (v == uid)) [
  | inr other ↦ rw (accepted-cons_other uid v now rates reqs other) (
      accepted-second uid from start count reqs _
        (check_rate_limit_others rates v uid now (λ q. ground (arith, other)) ∙ e) c w.1)
  | inl self ↦ rw ((==_iff v uid).0 self) (
      second_self uid from start count now reqs rates e c w.0.0 w.1
        λ n h k. accepted-second uid from start n reqs (check_rate_limit rates uid now).0 h k w.1)
]

-- `n` requests of a user at one time.
abbrev pub at_once : ℕ → ℕ → ℕ → List (ℕ × ℕ) → List (ℕ × ℕ)
at_once uid zero now rest = rest
at_once uid (suc n) now rest = (uid, now) ∷ at_once uid n now rest

abbrev Passes : ℕ → ℕ → ℕ → ℕ → Rates → List (ℕ × ℕ) → List (ℕ × ℕ) → Type 0
Passes uid start total n rates reqs rest =
    (rates' : Rates) × (rates' uid ≡ some (start, total))
    × (accepted uid rates reqs ≡ n + accepted uid rates' rest)

-- While the window has room, requests at one time pass.
at_once-Passes :
    (n uid start count now : ℕ) (rates : Rates) (rest : List (ℕ × ℕ))
    → rates uid ≡ some (start, count)
    → now ≤ start + rate_limit_window
    → count + n ≤ rate_limit_max
    → Passes uid start (count + n) n rates (at_once uid n now rest) rest
at_once-Passes zero uid start count now rates rest e h k = (rates, ground (arith), omega arith)
at_once-Passes (suc n) uid start count now rates rest e h k =
    let step = check_rate_limit-below rates uid start count now e h (omega arith) in
    let later =
      at_once-Passes n uid start (count + 1) now (check_rate_limit rates uid now).0 rest step.1 h
        (omega arith) in
    (
      later.0,
      ground (arith, later.1),
      accepted-cons_self uid now rates (at_once uid n now rest)
          ∙ rw (step.0) (omega (arith, later.2)),
    )

-- A request that opens a window, and nine more at a time within it.
opening_ten :
    (uid now later : ℕ) (rates : Rates) (rest : List (ℕ × ℕ))
    → ((check_rate_limit rates uid now).1 ≡ true)
      × ((check_rate_limit rates uid now).0 uid ≡ some (now, 1))
    → later ≤ now + rate_limit_window
    → Passes uid now 10 10 rates ((uid, now) ∷ at_once uid 9 later rest) rest
opening_ten uid now later rates rest step h =
    let nine =
      at_once-Passes 9 uid now 1 later (check_rate_limit rates uid now).0 rest step.1 h
        (omega arith) in
    (
      nine.0,
      nine.1,
      accepted-cons_self uid now rates (at_once uid 9 later rest)
          ∙ rw (step.0) (omega (arith, nine.2)),
    )

-- One request opens a window; nine at its last millisecond and ten in the next one pass as well:
-- of twenty requests, nineteen of them within a millisecond, none is refused.
pub accepted-burst :
    (uid t : ℕ) (rates : Rates)
    → rates uid ≡ none
    → accepted uid rates
        ((uid, t) ∷ at_once uid 9 (t + 1000) ((uid, t + 1001) ∷ at_once uid 9 (t + 1001) []))
      ≡ 20
accepted-burst uid t rates e =
    let more : List (ℕ × ℕ) = (uid, t + 1001) ∷ at_once uid 9 (t + 1001) [] in
    let first =
      opening_ten uid t (t + 1000) rates more (check_rate_limit-first rates uid t e)
        (omega arith) in
    let second =
      opening_ten uid (t + 1001) (t + 1001) (first.0) []
        (check_rate_limit-late (first.0) uid (t + 1001) t 10 first.1 (omega arith)) (omega arith) in
    omega (arith, first.2, second.2, accepted-nil uid (second.0))
