-- ===== src/Daemon/Deploy/Runs.antt =====
-- Programs of statements against what they mean without faults: whatever a program of
-- src/daemon/transaction.rs does between BEGIN and COMMIT is one statement that takes effect as a
-- whole, or an error.
use samad_package_manager.Common.{
  ◌≡◌, ◌⊎◌, refl, ap, sym, ◌∙◌, inl, inr, Option, none, some, [], arith, Bool-cases, Option-cases,
}
use samad_package_manager.Db.{Db}
use samad_package_manager.Daemon.Deploy.{
  Conn, Outcome, ok, err, Sql, Statement, next_fault, next_undoes, restored, failed, exec, resume,
  and_then, pure,
}

-- The meaning of a sequence.
abbrev pub then_on : {A B : Type 0} → (A → Statement B) → Option (A × Db) → Option (B × Db)
then_on k none = none
then_on k (some (a, d)) = k a d

abbrev pub bind : {A B : Type 0} → Statement A → (A → Statement B) → Statement B
bind s k d = then_on k (s d)

pub failed-restored : (c : Conn) → restored (failed c) ≡ restored c
unfolding failed
failed-restored c = elim (Bool-cases (next_undoes c.faults)) [
  | inl e ↦ rw e refl
  | inr e ↦ rw e refl
]

-- One run of a program on a connection, against the meaning `s`: a result leaves the transaction
-- open and is the one of the meaning, a rollback of the transaction leads where it did before, and
-- without faults there is a result.
pub record RunsOn {A : Type 0} (s : Statement A) (c : Conn) (r : Outcome A × Conn) : Type 0 where
  pub saved_kept : (a : A) → r.0 ≡ ok a → r.1.saved ≡ c.saved
  pub restores : (d : Db) → c.saved ≡ some d → restored (r.1) ≡ d
  pub sound : (a : A) → r.0 ≡ ok a → s c.db ≡ some (a, r.1.db)
  pub healthy :
      (a : A) (d : Db)
      → c.faults ≡ []
      → s c.db ≡ some (a, d)
      → (r.0 ≡ ok a) × (r.1.faults ≡ []) × (r.1.db ≡ d)

abbrev pub Runs : {A : Type 0} → Sql A → Statement A → Type 0
Runs m s = (c : Conn) → RunsOn s c (m c)

module _ {A : Type 0} where
  pub Runs-exec : (s : Statement A) → Runs (exec s) s
  unfolding exec
  Runs-exec s c = elim (Bool-cases (next_fault c.faults)) [
    | inl e ↦ rw e (record {
      saved_kept = λ a h. cc;
      restores = λ d h. failed-restored c ∙ rw h refl;
      sound = λ a h. cc;
      healthy = λ a d f h. ground (arith, e, f);
    })
    | inr e ↦ rw e (elim (Option-cases (s c.db)) [
      | inl n ↦ rw n (record {
        saved_kept = λ a h. cc;
        restores = λ d h. rw h refl;
        sound = λ a h. cc;
        healthy = λ a d f h. cc;
      })
      | inr (r, n) ↦ rw n (record {
        saved_kept = λ a h. refl;
        restores = λ d h. rw h refl;
        sound = λ a h. ground arith;
        healthy = λ a d f h. ground (arith, f);
      })
    ])
  ]

  pub Runs-pure : (a : A) → Runs (pure a) (λ d. some (a, d))
  unfolding pure
  Runs-pure a c = record {
    saved_kept = λ b h. refl;
    restores = λ d h. rw h refl;
    sound = λ b h. ground arith;
    healthy = λ b d f h. ground arith;
  }

pub Outcome-cases : {A : Type 0} (r : Outcome A) → (r ≡ err) ⊎ ((a : A) × (r ≡ ok a))
Outcome-cases (ok a) = inr (a, refl)
Outcome-cases err = inl refl

module _ {A B : Type 0} where
  resume-RunsOn :
      (s : Statement A) (k : A → Sql B) (t : A → Statement B) (c : Conn) (r : Outcome A × Conn)
      → RunsOn s c r
      → ((a : A) → Runs (k a) (t a))
      → RunsOn (bind s t) c (resume k r)
  resume-RunsOn s k t c (err, d) v w = record {
    saved_kept = λ b h. cc;
    restores = v.restores;
    sound = λ b h. cc;
    healthy = λ b e f h. elim (Option-cases (s c.db)) [
      | inl n ↦ ground (arith, n)
      | inr ((a, d2), n) ↦ let g = v.healthy a d2 f n in ground (arith, g.0)
    ];
  }
  resume-RunsOn s k t c (ok a, d) v w = record {
    saved_kept = λ b h. (w a d).saved_kept b h ∙ v.saved_kept a refl;
    restores = λ x h. (w a d).restores x (v.saved_kept a refl ∙ h);
    sound = λ b h. ap (then_on t) (v.sound a refl) ∙ (w a d).sound b h;
    healthy = λ b e f h. elim (Option-cases (s c.db)) [
      | inl n ↦ ground (arith, n)
      | inr ((a2, d2), n) ↦
          let g = v.healthy a2 d2 f n in
          (w a d).healthy b e (g.1) (sym (ap (then_on t) (v.sound a refl)) ∙ h)
    ];
  }

  -- A sequence means the sequence of the meanings.
  pub Runs-and_then :
      {m : Sql A} {s : Statement A} {k : A → Sql B} {t : A → Statement B}
      → Runs m s
      → ((a : A) → Runs (k a) (t a))
      → Runs (and_then m k) (bind s t)
  unfolding and_then
  Runs-and_then {m} {s} {k} {t} v w c = resume-RunsOn s k t c (m c) (v c) w
