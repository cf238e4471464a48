-- ===== src/Host/Guard.antt =====
-- Traces in which every call was prepared by the calls before it, and what a success tells of the
-- trace.
use Prim.Native.String.{String}
use cnftctl.Base.{if◌then◌else◌, [], ◌∷◌, Bool, true, false, Result, ok, err, ◌≡◌, refl, inl}
use cnftctl.Host.{
  OsError, Call, Trace, Env, Error, M, caught, give, try, logged, deferring, cleaned, on_failure,
  refuse_if, perform,
}
use cnftctl.Host.Trace.{Ext, here, next, Only, Seen}
use cnftctl.Host.Hoare.{Post, Post-same, Run, Run-bind, Run-Only}

-- `Need` held of each call when it was made.
abbrev pub IsGuarded : (Call → Trace → Type 0) → Trace → Type 0
IsGuarded Need [] = Unit
IsGuarded Need (v ∷ t) = IsGuarded Need t × Need v.call t

module _ (Need : Call → Trace → Type 0) where
  pub IsGuarded-Ext :
      (Q : Call → Type 0)
      → ((c : Call) (t : Trace) → Q c → Need c t)
      → (t u : Trace) → Ext Q t u
      → IsGuarded Need t
      → IsGuarded Need u
  IsGuarded-Ext Q ready t u here g = g
  IsGuarded-Ext Q ready t v (next {u} q x) g = (IsGuarded-Ext Q ready t u x g, ready _ _ q)

  pub IsGuarded-map :
      (Other : Call → Trace → Type 0)
      → ((c : Call) (t : Trace) → Need c t → Other c t)
      → (t : Trace) → IsGuarded Need t
      → IsGuarded Other t
  IsGuarded-map Other f [] g = tt
  IsGuarded-map Other f (v ∷ t) g = (IsGuarded-map Other f t g.0, f v.call t g.1)

  -- A program whose calls all need nothing.
  pub Run-quiet {ℓ} :
      {A : Type ℓ} (Q : Call → Type 0) {m : M A}
      → ((c : Call) (t : Trace) → Q c → Need c t)
      → Only Q m
      → Run (IsGuarded Need) m (λ _. IsGuarded Need) (IsGuarded Need)
  Run-quiet Q ready o =
      Run-Only Q (IsGuarded Need) (IsGuarded Need) (IsGuarded-Ext Q ready) (λ u h. h) o

-- A fact that survives every call held of each call that was made since.
IsGuarded-and :
    (Need Other : Call → Trace → Type 0) (R : Trace → Type 0)
    → ((u v : Trace) → Ext (λ _. Unit) u v → R u → R v)
    → ((c : Call) (v : Trace) → Need c v → R v → Other c v)
    → (t u : Trace) → Ext (λ _. Unit) t u
    → R t
    → IsGuarded Other t
    → IsGuarded Need u
    → IsGuarded Other u
IsGuarded-and Need Other R stable both t u here r g h = g
IsGuarded-and Need Other R stable both t v (next {u} q x) r g h =
    (IsGuarded-and Need Other R stable both t u x r g h.0, both _ u h.1 (stable t u x r))

abbrev pub Any : Call → Type 0
Any c = Unit

abbrev pub Always : Trace → Type 0
Always t = Unit

Post-any {ℓ} : {A : Type ℓ} (p : Result Error A × Trace) → Post (λ _. Always) Always p
Post-any (ok a, u) = tt
Post-any (err x, u) = tt

pub Run-any {ℓ} : {A : Type ℓ} (m : M A) → Run Always m (λ _. Always) Always
Run-any m = record { holds = λ t _. Post-any (m t) }

Post-also {ℓ} :
    {A : Type ℓ} (R S : A → Trace → Type 0) (X : Trace → Type 0) (p : Result Error A × Trace)
    → Post R X p
    → Post S Always p
    → Post (λ a t. R a t × S a t) X p
Post-also R S X (ok a, u) h k = (h, k)
Post-also R S X (err x, u) h k = h

-- A condition, and what the success tells besides.
pub Run-also {ℓ} :
    {A : Type ℓ} {P X : Trace → Type 0} {R S : A → Trace → Type 0} {m : M A}
    → Run P m R X
    → Run Always m S Always
    → Run P m (λ a t. R a t × S a t) X
Run-also {X} {R} {S} {m} p q = record {
  holds = λ t h. Post-also R S X (m t) (p.holds t h) (q.holds t tt);
}

-- What a caught result says.
abbrev pub Caught {ℓ} :
    {A : Type ℓ} → (A → Trace → Type 0) → (Trace → Type 0) → Result Error A → Trace → Type 0
Caught R X (ok a) t = R a t
Caught R X (err x) t = X t

Post-caught {ℓ} :
    {A : Type ℓ} (R : A → Trace → Type 0) (X Y : Trace → Type 0) (p : Result Error A × Trace)
    → Post R X p
    → Post (Caught R X) Y (caught p)
Post-caught R X Y (ok a, u) h = h
Post-caught R X Y (err x, u) h = h

pub Run-try {ℓ} :
    {A : Type ℓ} {P X Y : Trace → Type 0} {R : A → Trace → Type 0} {m : M A}
    → Run P m R X
    → Run P (try m) (Caught R X) Y
Run-try {X} {Y} {R} {m} p = record { holds = λ t h. Post-caught R X Y (m t) (p.holds t h) }

pub Run-give {ℓ} :
    {A : Type ℓ} {R : A → Trace → Type 0} {X : Trace → Type 0} (r : Result Error A)
    → Run (Caught R X r) (give r) R X
Run-give (ok a) = record { holds = λ t h. h }
Run-give (err x) = record { holds = λ t h. h }

-- A step whose error is dropped keeps what survives its calls.
pub Run-try_Only {ℓ} :
    {A : Type ℓ} (Q : Call → Type 0) (P X : Trace → Type 0) {m : M A}
    → ((u v : Trace) → Ext Q u v → P u → P v)
    → Only Q m
    → Run P (try m) (λ _. P) X
Run-try_Only Q P X {m} stable o = record { holds = λ t h. stable t (m t).1 (o.added t) h }

Caught-stable {ℓ} :
    {A : Type ℓ} (Q : Call → Type 0) (R : A → Trace → Type 0) (X : Trace → Type 0)
    → ((a : A) (u v : Trace) → Ext Q u v → R a u → R a v)
    → ((u v : Trace) → Ext Q u v → X u → X v)
    → (r : Result Error A) (u v : Trace) → Ext Q u v
    → Caught R X r u
    → Caught R X r v
Caught-stable Q R X keep_r keep_x (ok a) = keep_r a
Caught-stable Q R X keep_r keep_x (err x) = keep_x

pub Run-deferring {ℓ} :
    {A : Type ℓ} {P X : Trace → Type 0} {R : A → Trace → Type 0} {m : M A} {cleanup : M (Unit {0})}
    (Q : Call → Type 0)
    → ((a : A) (u v : Trace) → Ext Q u v → R a u → R a v)
    → ((u v : Trace) → Ext Q u v → X u → X v)
    → Only Q cleanup
    → Run P m R X
    → Run P (deferring m cleanup) R X
Run-deferring {X} {R} Q keep_r keep_x o p = Run-bind (Run-try {Y = X} p) λ r.
    Run-bind (Run-try_Only Q (Caught R X r) X (Caught-stable Q R X keep_r keep_x r) o)
      λ _. Run-give r

-- A call that succeeded was seen to.
Seen-logged :
    (c : Call) (r : Result OsError (Unit {0})) (t : Trace)
    → Post (λ _ u. Seen c u) Always (logged c r t)
Seen-logged c (ok a) t = inl (refl, refl)
Seen-logged c (err x) t = tt

pub Run-perform : (e : Env) (c : Call) → Run Always (perform e c) (λ _ u. Seen c u) Always
unfolding perform
Run-perform e c = record { holds = λ t _. Seen-logged c (e.answer t c) t }

Post-IsGuarded :
    (Need : Call → Trace → Type 0) (c : Call) (r : Result OsError (Unit {0})) (t : Trace)
    → IsGuarded Need t
    → Need c t
    → Post (λ _. IsGuarded Need) (IsGuarded Need) (logged c r t)
Post-IsGuarded Need c (ok a) t g n = (g, n)
Post-IsGuarded Need c (err x) t g n = (g, n)

pub Run-IsGuarded :
    (Need : Call → Trace → Type 0) (e : Env) (c : Call)
    → Run (λ t. IsGuarded Need t × Need c t) (perform e c) (λ _. IsGuarded Need) (IsGuarded Need)
unfolding perform
Run-IsGuarded Need e c = record { holds = λ t h. Post-IsGuarded Need c (e.answer t c) t h.0 h.1 }

-- A fact that does not speak of the trace.
pub Run-given {ℓ} :
    {A : Type ℓ} {F : Type 0} {X : Trace → Type 0} {R : A → Trace → Type 0} {m : M A}
    → (F → Run Always m R X)
    → Run (λ _. F) m R X
Run-given q = record { holds = λ t f. (q f).holds t tt }

-- A check that was passed.
pub Run-refuse_if : (b : Bool) (s : String) → Run Always (refuse_if b s) (λ _ _. b ≡ false) Always
Run-refuse_if true s = record { holds = λ t _. tt }
Run-refuse_if false s = record { holds = λ t _. refl }

pub Run-else {ℓ} :
    {A : Type ℓ} {P X : Trace → Type 0} {R : A → Trace → Type 0} (b : Bool) (m : M A) {n : M A}
    → b ≡ false
    → Run P n R X
    → Run P (if b then m else n) R X
Run-else false m h q = q
Run-else true m h q = absurd (cc)

Post-cleaned {ℓ} :
    {A : Type ℓ} (Q : Call → Type 0) (R : A → Trace → Type 0) (X : Trace → Type 0)
    {cleanup : M (Unit {0})}
    → ((u v : Trace) → Ext Q u v → X u → X v)
    → Only Q cleanup
    → (r : Result Error A) (t : Trace) → Caught R X r t
    → Post R X (cleaned cleanup r t)
Post-cleaned Q R X keep o (ok a) t h = h
Post-cleaned Q R X {cleanup} keep o (err x) t h = keep t (cleanup t).1 (o.added t) h

pub Run-on_failure {ℓ} :
    {A : Type ℓ} {P X : Trace → Type 0} {R : A → Trace → Type 0} {m : M A} {cleanup : M (Unit {0})}
    (Q : Call → Type 0)
    → ((u v : Trace) → Ext Q u v → X u → X v)
    → Only Q cleanup
    → Run P m R X
    → Run P (on_failure m cleanup) R X
Run-on_failure {X} {R} {m} Q keep o p =
    Run-bind (Run-try {Y = X} p) λ r. record { holds = λ t h. Post-cleaned Q R X keep o r t h }

Post-end {ℓ} :
    {A : Type ℓ} (X : Trace → Type 0) (p : Result Error A × Trace) → X p.1 → Post (λ _. X) X p
Post-end X (ok a, u) h = h
Post-end X (err x, u) h = h

-- A guarded program that starts with a lasting fact is guarded by that fact too.
pub Run-and {ℓ} :
    {A : Type ℓ} (Need Other : Call → Trace → Type 0) (R : Trace → Type 0) {m : M A}
    → ((u v : Trace) → Ext Any u v → R u → R v)
    → ((c : Call) (v : Trace) → Need c v → R v → Other c v)
    → Only Any m
    → Run (IsGuarded Need) m (λ _. IsGuarded Need) (IsGuarded Need)
    → Run
        (λ t. IsGuarded Need t × IsGuarded Other t × R t)
        m
        (λ _. IsGuarded Other)
        (IsGuarded Other)
Run-and Need Other R {m} stable both o r = record {
  holds = λ t h. Post-end (IsGuarded Other) (m t) (
      IsGuarded-and Need Other R stable both t (m t).1 (o.added t) h.2 h.1
        (Post-same (IsGuarded Need) (m t) (r.holds t h.0)));
}
