-- ===== src/Docker/Named.antt =====
-- The backup of daemon.json gets a name that was free.
use cnftctl.Base.{
  ℕ, zero, suc, ◌+◌, ◌≤◌, ◌<◌, Text, Result, ok, err, ◌≡◌, ◌⊎◌, inl, inr, refl, arith, Bool-cases,
  ◌==◌,
}
use cnftctl.Host.{Env, Trace, Error, exist, open_exclusive, perform, is_exist}
use cnftctl.Docker.Write.{backup_name, opened_or, create_backup}

-- Each name is free or taken, whenever it is tried, and the name of number `j` is free.
pub record IsFree (e : Env) (base : Text) (mode j : ℕ) : Type 0 where
  pub known :
      (t : Trace) (k : ℕ)
      → (e.answer t (open_exclusive (backup_name base k) mode) ≡ ok tt)
        ⊎ (e.answer t (open_exclusive (backup_name base k) mode) ≡ err exist)
  pub free : (t : Trace) → e.answer t (open_exclusive (backup_name base j) mode) ≡ ok tt

-- A name from the `n`-th to the `j`-th.
-- The result is the name of a number from `n` to `j`.
abbrev pub IsNamed : Text → ℕ → ℕ → Result Error Text → Type 0
IsNamed base n j r = (k : ℕ) × (n ≤ k) × (k ≤ j) × (r ≡ ok (backup_name base k))

weaken :
    {base : Text} {n j : ℕ} {r : Result Error Text} → IsNamed base (suc n) j r → IsNamed base n j r
weaken (k, low, high, h) = (k, omega arith, high, h)

module _ (e : Env) (base : Text) (mode : ℕ) where
  later :
      {n j : ℕ} (t : Trace)
      → IsFree e base mode j
      → n ≤ j
      → e.answer t (open_exclusive (backup_name base n) mode) ≡ err exist
      → suc n ≤ j
  later {n} {j} t free low taken = elim (Bool-cases (n == j)) [
    | inl same ↦
        let equal : n ≡ j = ground arith in
        let open_there = free.free t in absurd (cc (rw equal at taken))
    | inr other ↦ ground arith
  ]

  -- `createBackup` tries the names in turn. If each of them is free or taken and the one of number
  -- `j` is free, then with enough attempts left to come to that one it ends with success, whatever
  -- else the machine answers, and gives back one of the names from the first one up to that.
  pub create_backup-IsNamed :
      (left n j : ℕ) (t : Trace)
      → IsFree e base mode j
      → n ≤ j
      → j < n + left
      → IsNamed base n j (create_backup e left n base mode t).0
  unfolding create_backup perform is_exist opened_or
  create_backup-IsNamed zero n j t free low high = absurd (omega arith)
  create_backup-IsNamed (suc left) n j t free low high = elim (free.known t n) [
    | inl open_there ↦ (n, omega arith, low, rw open_there refl)
    | inr taken ↦ rw taken (
        weaken (create_backup-IsNamed left (suc n) j _ free (later t free low taken) (omega arith)))
  ]
