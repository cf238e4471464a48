-- ===== src/Host/Trace.antt =====
-- What a program can have added to the trace, and rules that follow a program step by step.
use Prim.Native.String.{String}
use cnftctl.Base.{
  List, [], ◌∷◌, Bool, true, false, Text, Result, ok, err, ◌≡◌, ◌⊎◌, inr, if◌then◌else◌,
}
use cnftctl.Host.{
  Event, Trace, Call, Error, Env, M, continue, ◌>>=◌, return, fail, give, try, deferring, cleaned,
  on_failure, refuse_if, perform, ask_info, ask_text, ask_entries, run_command, read_dir, run,
}

-- `Ext Q t u`: the trace `u` is `t` with calls added of which each satisfies `Q`.
pub data Ext (Q : Call → Type 0) (t : Trace) : Trace → Type 0 where
  here : Ext Q t t
  next : {u : Trace} {v : Event} → Q v.call → Ext Q t u → Ext Q t (v ∷ u)

pub Ext-trans : {Q : Call → Type 0} {t u v : Trace} → Ext Q t u → Ext Q u v → Ext Q t v
Ext-trans p here = p
Ext-trans p (next q r) = next q (Ext-trans p r)

-- The program adds only calls that satisfy `Q`.
pub record Only {ℓ} (Q : Call → Type 0) {A : Type ℓ} (m : M A) : Type 0 where
  pub added : (t : Trace) → Ext Q t (m t).1

Ext-continue {ℓ κ} :
    {A : Type ℓ} {B : Type κ} (Q : Call → Type 0) (t : Trace) (r : Result Error A × Trace)
    (f : A → M B)
    → Ext Q t r.1
    → ((a : A) → Only Q (f a))
    → Ext Q t (continue r f).1
Ext-continue Q t (ok a, u) f p q = Ext-trans p ((q a).added u)
Ext-continue Q t (err x, u) f p q = p

module _ {Q : Call → Type 0} where
  pub Only-bind {ℓ κ} :
      {A : Type ℓ} {B : Type κ} {m : M A} {f : A → M B}
      → Only Q m
      → ((a : A) → Only Q (f a))
      → Only Q (m >>= f)
  Only-bind {m} {f} p q = record { added = λ t. Ext-continue Q t (m t) f (p.added t) q }

  pub Only-return {ℓ} : {A : Type ℓ} {a : A} → Only Q (return a)
  Only-return = record { added = λ t. here }

  pub Only-fail {ℓ} : {A : Type ℓ} {x : Error} → Only Q (fail {A = A} x)
  Only-fail = record { added = λ t. here }

  pub Only-give {ℓ} : {A : Type ℓ} {r : Result Error A} → Only Q (give r)
  Only-give = record { added = λ t. here }

  pub Only-try {ℓ} : {A : Type ℓ} {m : M A} → Only Q m → Only Q (try m)
  Only-try p = record { added = λ t. p.added t }

  pub Only-refuse_if : (b : Bool) (s : String) → Only Q (refuse_if b s)
  Only-refuse_if true s = Only-fail
  Only-refuse_if false s = Only-return

  pub Only-if {ℓ} :
      {A : Type ℓ} (b : Bool) {m n : M A} → Only Q m → Only Q n → Only Q (if b then m else n)
  Only-if true p q = p
  Only-if false p q = q

  pub Only-deferring {ℓ} :
      {A : Type ℓ} {m : M A} {cleanup : M (Unit {0})}
      → Only Q m
      → Only Q cleanup
      → Only Q (deferring m cleanup)
  Only-deferring p q = Only-bind (Only-try p) (λ r. Only-bind (Only-try q) (λ _. Only-give {r = r}))

  Only-cleaned {ℓ} :
      {A : Type ℓ} {cleanup : M (Unit {0})} (r : Result Error A)
      → Only Q cleanup
      → Only Q (cleaned cleanup r)
  Only-cleaned (ok a) q = Only-return
  Only-cleaned (err x) q = Only-bind (Only-try q) (λ _. Only-fail {x = x})

  pub Only-on_failure {ℓ} :
      {A : Type ℓ} {m : M A} {cleanup : M (Unit {0})}
      → Only Q m
      → Only Q cleanup
      → Only Q (on_failure m cleanup)
  Only-on_failure p q = Only-bind (Only-try p) (λ r. Only-cleaned r q)

  module _ (e : Env) where
    pub Only-perform : (c : Call) → Q c → Only Q (perform e c)
    unfolding perform
    Only-perform c q = record { added = λ t. next q here }

    pub Only-ask_info : (c : Call) → Q c → Only Q (ask_info e c)
    unfolding ask_info
    Only-ask_info c q = record { added = λ t. next q here }

    pub Only-ask_text : (c : Call) → Q c → Only Q (ask_text e c)
    unfolding ask_text
    Only-ask_text c q = record { added = λ t. next q here }

    pub Only-ask_entries : (d : Text) → Q (read_dir d) → Only Q (ask_entries e d)
    unfolding ask_entries
    Only-ask_entries d q = record { added = λ t. next q here }

    pub Only-run_command :
        (name : Text) (args : List Text) → Q (run name args) → Only Q (run_command e name args)
    unfolding run_command
    Only-run_command name args q = record { added = λ t. next q here }

-- The call was made, and it succeeded.
abbrev pub Seen : Call → Trace → Type 0
Seen c [] = ⊥
Seen c (v ∷ t) = ((v.call ≡ c) × (v.done ≡ true)) ⊎ Seen c t

pub Seen-Ext : {Q : Call → Type 0} (c : Call) {t u : Trace} → Ext Q t u → Seen c t → Seen c u
Seen-Ext c here s = s
Seen-Ext c (next q p) s = inr (Seen-Ext c p s)

pub ruleset only = (
  Only-on_failure, Only-deferring, Only-bind, Only-return, Only-fail, Only-give, Only-try,
  Only-refuse_if, Only-if, Only-perform, Only-ask_info, Only-ask_text, Only-ask_entries,
  Only-run_command,
)
