-- ===== src/Daemon/Deploy/Stays.antt =====
-- Programs of statements that keep the transaction of their connection, also where they fail: those
-- of src/package/transaction.rs without a ROLLBACK.
use samad_package_manager.Common.{
  ◌≡◌, refl, ◌∙◌, inl, inr, Bool, true, false, List, [], ◌∷◌, any, arith, Bool-cases, Option-cases,
}
use samad_package_manager.Daemon.Deploy.{
  Conn, Fault, passes, fails, undoes, failed, Outcome, ok, err, Sql, Statement, next_fault,
  next_undoes, later_faults, exec, resume, and_then, pure,
}

abbrev pub undoing : Fault → Bool
undoing passes = false
undoing fails = false
undoing undoes = true

-- No statement to come makes SQLite roll back by itself.
abbrev pub Calm : Conn → Type 0
Calm c = any undoing c.faults ≡ false

pub calm-next : (fs : List Fault) → any undoing fs ≡ false → next_undoes fs ≡ false
calm-next [] h = refl
calm-next (passes ∷ fs) h = refl
calm-next (fails ∷ fs) h = refl
calm-next (undoes ∷ fs) h = ground (arith, h)

pub calm-later : (fs : List Fault) → any undoing fs ≡ false → any undoing (later_faults fs) ≡ false
calm-later [] h = h
calm-later (f ∷ fs) h = ground (arith, h)

-- The run left the transaction of the connection as it was.
pub record Stays {A : Type 0} (c : Conn) (r : Outcome A × Conn) : Type 0 where
  pub same : r.1.saved ≡ c.saved
  pub calm : Calm (r.1)

pub failed-saved : (c : Conn) → Calm c → (failed c).saved ≡ c.saved
unfolding failed
failed-saved c h = rw (calm-next c.faults h) refl

abbrev pub Keeps : {A : Type 0} → Sql A → Type 0
Keeps m = (c : Conn) → Calm c → Stays c (m c)

module _ {A : Type 0} where
  failed-Stays : (c : Conn) → Calm c → Stays {A = A} c (err, failed c)
  unfolding failed
  failed-Stays c h =
      rw (calm-next c.faults h) (record { same = refl; calm = calm-later c.faults h })

  pub exec-Keeps : (s : Statement A) → Keeps (exec s)
  unfolding exec
  exec-Keeps s c h = elim (Bool-cases (next_fault c.faults)) [
    | inl e ↦ rw e (failed-Stays c h)
    | inr e ↦ rw e (elim (Option-cases (s c.db)) [
      | inl n ↦ rw n (record { same = refl; calm = calm-later c.faults h })
      | inr (r, n) ↦ rw n (record { same = refl; calm = calm-later c.faults h })
    ])
  ]

  pub pure-Keeps : (a : A) → Keeps (pure a)
  unfolding pure
  pure-Keeps a c h = record { same = refl; calm = h }

module _ {A B : Type 0} where
  resume-Stays :
      (k : A → Sql B) (c : Conn) (r : Outcome A × Conn)
      → Stays c r
      → ((a : A) → Keeps (k a))
      → Stays c (resume k r)
  resume-Stays k c (err, d) v w = record { same = v.same; calm = v.calm }
  resume-Stays k c (ok a, d) v w = record {
    same = (w a d v.calm).same ∙ v.same;
    calm = (w a d v.calm).calm;
  }

  pub and_then-Keeps :
      {m : Sql A} {k : A → Sql B} → Keeps m → ((a : A) → Keeps (k a)) → Keeps (and_then m k)
  unfolding and_then
  and_then-Keeps {m} {k} v w c h = resume-Stays k c (m c) (v c h) w
