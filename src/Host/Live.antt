-- ===== src/Host/Live.antt =====
-- Programs that end with a given result from any trace.
use Prim.Native.String.{String}
use cnftctl.Base.{Bool, true, false, Text, Result, ok, err, ok-injective, ◌≡◌, refl, ap, ◌∙◌}
use cnftctl.Host.{
  Call, Trace, Env, Error, M, continue, caught, ◌>>=◌, return, give, try, deferring, refuse_if,
  perform, ask_text,
}

pub record Gives {ℓ} {A : Type ℓ} (m : M A) (a : A) : Type ℓ where
  pub gives : (t : Trace) → (m t).0 ≡ ok a

pub continue-ok {ℓ κ} :
    {A : Type ℓ} {B : Type κ} (p : Result Error A × Trace) (f : A → M B) {a : A} {b : B}
    → p.0 ≡ ok a
    → Gives (f a) b
    → (continue p f).0 ≡ ok b
continue-ok (ok x, u) f {a} h g = ap (λ z. (f z u).0) (ok-injective h) ∙ g.gives u
continue-ok (err x, u) f h g = absurd cc

pub Gives-bind {ℓ κ} :
    {A : Type ℓ} {B : Type κ} (m : M A) (f : A → M B) {a : A} {b : B}
    → Gives m a
    → Gives (f a) b
    → Gives (m >>= f) b
Gives-bind m f p q = record { gives = λ t. continue-ok (m t) f (p.gives t) q }

pub Gives-return {ℓ} : {A : Type ℓ} {a : A} → Gives (return a) a
Gives-return = record { gives = λ t. refl }

pub Gives-give {ℓ} : {A : Type ℓ} {r : Result Error A} {a : A} → r ≡ ok a → Gives (give r) a
Gives-give h = record { gives = λ t. h }

caught-ok {ℓ} :
    {A : Type ℓ} (p : Result Error A × Trace) {a : A} → p.0 ≡ ok a → (caught p).0 ≡ ok (ok a)
caught-ok (r, u) h = ap ok h

pub Gives-try {ℓ} : {A : Type ℓ} (m : M A) {a : A} → Gives m a → Gives (try m) (ok a)
Gives-try m p = record { gives = λ t. caught-ok (m t) (p.gives t) }

-- Whatever the step gives, the rest ends with the result.
pub Gives-any {ℓ κ} :
    {A : Type ℓ} {B : Type κ} (m : M A) (f : Result Error A → M B) {b : B}
    → ((r : Result Error A) → Gives (f r) b)
    → Gives (try m >>= f) b
Gives-any m f q = record { gives = λ t. (q (m t).0).gives (m t).1 }

-- The cleanup has no say in the result.
pub Gives-deferring {ℓ} :
    {A : Type ℓ} (m : M A) (cleanup : M (Unit {0})) {a : A}
    → Gives m a
    → Gives (deferring m cleanup) a
Gives-deferring m cleanup {a} p =
    Gives-bind (try m) (λ r. try cleanup >>= λ _. give r) (Gives-try m p)
      (Gives-any cleanup (λ _. give (ok a)) λ r. Gives-give refl)

passed : (b : Bool) (s : String) → b ≡ false → (t : Trace) → (refuse_if b s t).0 ≡ ok tt
passed true s p t = absurd cc
passed false s p t = refl

pub Gives-refuse_if : (b : Bool) (s : String) → b ≡ false → Gives (refuse_if b s) tt
Gives-refuse_if b s h = record { gives = passed b s h }

-- A machine on which every call that changes something succeeds, and each temporary file is made.
pub record IsWorking (e : Env) : Type 0 where
  pub calls : (t : Trace) (c : Call) → e.answer t c ≡ ok tt
  pub temp : Text
  pub temps : (t : Trace) (d p : Text) → e.content t (Call.create_temp d p) ≡ ok temp

pub Gives-perform : (e : Env) → IsWorking e → (c : Call) → Gives (perform e c) tt
unfolding perform
Gives-perform e w c = record { gives = λ t. rw (w.calls t c) refl }

pub Gives-ask_text :
    (e : Env) (c : Call) (text : Text)
    → ((t : Trace) → e.content t c ≡ ok text)
    → Gives (ask_text e c) text
unfolding ask_text
Gives-ask_text e c text h = record { gives = λ t. rw (h t) refl }
