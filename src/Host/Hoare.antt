-- ===== src/Host/Hoare.antt =====
-- Conditions on the trace before and after a program: `Run P m R X` says that from a trace with
-- `P` a success leaves one with `R`, and an error one with `X`.
use mathlib.Core.Path.{subst}
use cnftctl.Base.{ok-injective, Result, ok, err, Bool, true, false, if◌then◌else◌, ◌≡◌}
use cnftctl.Host.{Call, Trace, Error, M, continue, ◌>>=◌, return}
use cnftctl.Host.Trace.{Ext, Only}

abbrev pub Post {ℓ} :
    {A : Type ℓ} → (A → Trace → Type 0) → (Trace → Type 0) → Result Error A × Trace → Type 0
Post R X (ok a, u) = R a u
Post R X (err x, u) = X u

pub record Run {ℓ} (P : Trace → Type 0) {A : Type ℓ} (m : M A) (R : A → Trace → Type 0)
    (X : Trace → Type 0) : Type 0 where
  pub holds : (t : Trace) → P t → Post R X (m t)

Post-continue {ℓ κ} :
    {A : Type ℓ} {B : Type κ} (R : A → Trace → Type 0) (S : B → Trace → Type 0) (X : Trace → Type 0)
    (p : Result Error A × Trace) (f : A → M B)
    → Post R X p
    → ((a : A) → Run (R a) (f a) S X)
    → Post S X (continue p f)
Post-continue R S X (ok a, u) f h q = (q a).holds u h
Post-continue R S X (err x, u) f h q = h

pub Run-bind {ℓ κ} :
    {A : Type ℓ} {B : Type κ} {P : Trace → Type 0} {R : A → Trace → Type 0} {S : B → Trace → Type 0}
    {X : Trace → Type 0} {m : M A} {f : A → M B}
    → Run P m R X
    → ((a : A) → Run (R a) (f a) S X)
    → Run P (m >>= f) S X
Run-bind {R} {S} {X} {m} {f} p q = record {
  holds = λ t h. Post-continue R S X (m t) f (p.holds t h) q;
}

-- What survives every call that satisfies `Q` survives a program that makes no others.
Post-Ext {ℓ} :
    {A : Type ℓ} (Q : Call → Type 0) (P X : Trace → Type 0) (t : Trace) (p : Result Error A × Trace)
    → ((u v : Trace) → Ext Q u v → P u → P v)
    → ((u : Trace) → P u → X u)
    → Ext Q t p.1
    → P t
    → Post (λ _. P) X p
Post-Ext Q P X t (ok a, u) stable weak e h = stable t u e h
Post-Ext Q P X t (err x, u) stable weak e h = weak u (stable t u e h)

pub Run-Only {ℓ} :
    {A : Type ℓ} (Q : Call → Type 0) (P X : Trace → Type 0) {m : M A}
    → ((u v : Trace) → Ext Q u v → P u → P v)
    → ((u : Trace) → P u → X u)
    → Only Q m
    → Run P m (λ _. P) X
Run-Only Q P X {m} stable weak o = record {
  holds = λ t h. Post-Ext Q P X t (m t) stable weak (o.added t) h;
}

pub Post-mono {ℓ} :
    {A : Type ℓ} (R S : A → Trace → Type 0) (X Y : Trace → Type 0) (p : Result Error A × Trace)
    → ((a : A) (u : Trace) → R a u → S a u)
    → ((u : Trace) → X u → Y u)
    → Post R X p
    → Post S Y p
Post-mono R S X Y (ok a, u) f g h = f a u h
Post-mono R S X Y (err x, u) f g h = g u h

pub Run-mono {ℓ} :
    {A : Type ℓ} {P P' : Trace → Type 0} {R S : A → Trace → Type 0} {X Y : Trace → Type 0} {m : M A}
    → ((u : Trace) → P' u → P u)
    → ((a : A) (u : Trace) → R a u → S a u)
    → ((u : Trace) → X u → Y u)
    → Run P m R X
    → Run P' m S Y
Run-mono {R} {S} {X} {Y} {m} pre f g r = record {
  holds = λ t h. Post-mono R S X Y (m t) f g (r.holds t (pre t h));
}

pub Run-return {ℓ} :
    {A : Type ℓ} {R : A → Trace → Type 0} {X : Trace → Type 0} {a : A} → Run (R a) (return a) R X
Run-return = record { holds = λ t h. h }

pub Run-if {ℓ} :
    {A : Type ℓ} {P : Trace → Type 0} {R : A → Trace → Type 0} {X : Trace → Type 0} (b : Bool)
    {m n : M A}
    → Run P m R X
    → Run P n R X
    → Run P (if b then m else n) R X
Run-if true p q = p
Run-if false p q = q

pub Post-same {ℓ} :
    {A : Type ℓ} (X : Trace → Type 0) (p : Result Error A × Trace) → Post (λ _. X) X p → X p.1
Post-same X (ok a, u) h = h
Post-same X (err x, u) h = h

pub Post-ok {ℓ} :
    {A : Type ℓ} (R : A → Trace → Type 0) (X : Trace → Type 0) (p : Result Error A × Trace) {a : A}
    → Post R X p
    → p.0 ≡ ok a
    → R a p.1
Post-ok R X (ok b, u) h e = subst (λ c. R c u) (ok-injective e) h
Post-ok R X (err x, u) h e = absurd (cc)
