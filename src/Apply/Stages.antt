-- ===== src/Apply/Stages.antt =====
-- The states that the stages of `updateRollbackStage` stand for.
use mathlib.Core.Path.{subst}
use cnftctl.Base.{
  ℕ, zero, suc, true, some, Text, eqb, eqb_iff, ◌≡◌, ◌↔◌, inl, inr, arith, Bool-cases,
}
use cnftctl.Apply.Model.{Ownership, ownership_marker}
use cnftctl.Apply.Rollback.{is_state, stage_live}

-- The states that an update rollback passes through, as selector, owner and live generation.
abbrev pub IsStage : Text → Text → ℕ → Text → Text → Text → Type 0
IsStage new old zero a o l = (a ≡ new) × (o ≡ new) × (l ≡ new)
IsStage new old (suc zero) a o l = (a ≡ old) × (o ≡ new) × (l ≡ new)
IsStage new old (suc (suc zero)) a o l = (a ≡ old) × (o ≡ new) × (l ≡ old)
IsStage new old (suc (suc (suc zero))) a o l = (a ≡ old) × (o ≡ old) × (l ≡ old)
IsStage new old _ a o l = ⊥

is_state_iff :
    (active owner live a o l : Text)
    → (is_state active owner live a o l ≡ true) ↔ ((active ≡ a) × (owner ≡ o) × (live ≡ l))
unfolding is_state
is_state_iff active owner live a o l =
    ground (arith, eqb_iff active a, eqb_iff owner o, eqb_iff live l)

module _ (a : Text) (own : Ownership) (l new old : Text) where
  abbrev Found : ℕ → Type 0
  Found n = (own.marker ≡ ownership_marker) × IsStage new old n a own.generation l

  Found-at : (m n : ℕ) → Found m → some m ≡ some n → Found n
  Found-at m n f h = subst Found (cc h) f

  -- A stage of `stage_live` is the state that it stands for, with the program's marker in the
  -- ownership record.
  pub stage_live-IsStage :
      (n : ℕ)
      → stage_live a own l new old ≡ some n
      → (own.marker ≡ ownership_marker) × IsStage new old n a own.generation l
  unfolding stage_live
  stage_live-IsStage n h = elim (Bool-cases (eqb own.marker ownership_marker)) [
    | inr bad ↦ absurd (cc (rw bad at h))
    | inl good ↦
        let marked = (eqb_iff own.marker ownership_marker).0 good in
        let o = own.generation in
        elim (Bool-cases (is_state a o l new new new)) [
          | inl s0 ↦
              Found-at 0 n (marked, (is_state_iff a o l new new new).0 s0) (rw (good, s0) at h)
          | inr n0 ↦ elim (Bool-cases (is_state a o l old new new)) [
            | inl s1 ↦
                Found-at 1 n (marked, (is_state_iff a o l old new new).0 s1)
                  (rw (good, n0, s1) at h)
            | inr n1 ↦ elim (Bool-cases (is_state a o l old new old)) [
              | inl s2 ↦
                  Found-at 2 n (marked, (is_state_iff a o l old new old).0 s2)
                    (rw (good, n0, n1, s2) at h)
              | inr n2 ↦ elim (Bool-cases (is_state a o l old old old)) [
                | inl s3 ↦
                    Found-at 3 n (marked, (is_state_iff a o l old old old).0 s3)
                      (rw (good, n0, n1, n2, s3) at h)
                | inr n3 ↦ absurd (cc (rw (good, n0, n1, n2, n3) at h))
              ]
            ]
          ]
        ]
  ]
