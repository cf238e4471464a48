-- ===== src/Host/Inversion.antt =====
-- What the success of a program says of its steps.
use Prim.Native.String.{String}
use cnftctl.Base.{Result, ok, err, Bool, true, false, ◌≡◌, refl, ap}
use cnftctl.Host.{Trace, Error, M, continue, caught, ◌>>=◌, try, refuse_if}

-- The first step succeeded, and the rest did from there.
abbrev pub Bound {ℓ κ} :
    {A : Type ℓ} {B : Type κ} → M A → (A → M B) → Trace → B → Trace → Type (ℓ ⊔ κ)
Bound {A} m f t b v = (a : A) × (u : Trace) × (m t ≡ (ok a, u)) × (f a u ≡ (ok b, v))

bound {ℓ κ} :
    {A : Type ℓ} {B : Type κ} (m : M A) (f : A → M B) (t : Trace) (p : Result Error A × Trace)
    {b : B} {v : Trace}
    → m t ≡ p
    → continue p f ≡ (ok b, v)
    → Bound m f t b v
bound m f t (ok a, u) same h = (a, u, same, h)
bound m f t (err x, u) same h = absurd (cc)

pub bind-eq-ok {ℓ κ} :
    {A : Type ℓ} {B : Type κ} (m : M A) (f : A → M B) (t : Trace) {b : B} {v : Trace}
    → (m >>= f) t ≡ (ok b, v)
    → Bound m f t b v
bind-eq-ok m f t h = bound m f t (m t) refl h

pub refuse_if-eq-ok :
    (b : Bool) (s : String) (t : Trace) {v : Trace}
    → refuse_if b s t ≡ (ok tt, v)
    → (b ≡ false) × (t ≡ v)
refuse_if-eq-ok true s t h = absurd (cc)
refuse_if-eq-ok false s t h = (refl, ap (λ p. p.1) h)

caught-eq-ok :
    {A : Type 0} (p : Result Error A × Trace) {r : Result Error A} {v : Trace}
    → caught p ≡ (ok r, v)
    → p ≡ (r, v)
caught-eq-ok (r, u) h = cc

pub try-eq-ok :
    {A : Type 0} (m : M A) (t : Trace) {r : Result Error A} {v : Trace}
    → try m t ≡ (ok r, v)
    → m t ≡ (r, v)
try-eq-ok m t h = caught-eq-ok (m t) h

-- Name what was found, so that the proof does not carry how.
pub into {ℓ κ} : {A : Type ℓ} {B : Type κ} → A → (A → B) → B
into a f = f a

pub ended {ℓ} :
    {A : Type ℓ} {a b : A} {t u : Trace}
    → a ≡ b
    → t ≡ u
    → Path (Result Error A × Trace) (ok a, t) (ok b, u)
ended p q = rw (p, q) refl
