-- ===== src/App/Reported.antt =====
-- The state of a report is that of its worst check.
use cnftctl.Base.{
  Bool, false, Text, Result, err, eqb, eqb_iff, is_empty, ◌≤◌, List, [], ◌∷◌, true, All, codes, ok,
  ◌≡◌, ◌⊎◌, ◌↔◌, refl, inl, inr, arith, ltb, Bool-cases,
}
use cnftctl.App.Request.{Request, flag, bool_flag}
use cnftctl.App.Report.{
  State, Check, rank, worse, overall_from, overall_state, new_report, is_healthy, Encoder, Report,
  ReportError, encoded, write_report, judged, finish_report,
}

-- The state stands in the list, or is the one given.
abbrev pub IsFound : State → List Check → State → Type 0
IsFound s [] now = s ≡ now
IsFound s (c ∷ checks) now = (s ≡ c.state) ⊎ IsFound s checks now

abbrev pub Below : State → Check → Type 0
Below s c = rank c.state ≤ rank s

rank-worse : (now s : State) → (rank now ≤ rank (worse now s)) × (rank s ≤ rank (worse now s))
unfolding worse
rank-worse now s = elim (Bool-cases (ltb (rank now) (rank s))) [
  | inl h ↦ rw h (ground arith, ground arith)
  | inr h ↦ rw h (ground arith, ground arith)
]

rank-overall : (now : State) (checks : List Check) → rank now ≤ rank (overall_from now checks)
unfolding overall_from
rank-overall now [] = omega arith
rank-overall now (c ∷ checks) =
    omega (arith, (rank-worse now c.state).0, rank-overall (worse now c.state) checks)

overall_from-All :
    (now : State) (checks : List Check) → All (Below (overall_from now checks)) checks
unfolding overall_from
overall_from-All now [] = tt
overall_from-All now (c ∷ checks) = (
  omega (arith, (rank-worse now c.state).1, rank-overall (worse now c.state) checks),
  overall_from-All (worse now c.state) checks,
)

carry :
    (s now : State) (x : State) (checks : List Check)
    → IsFound s checks (worse now x)
    → (s ≡ x) ⊎ IsFound s checks now
unfolding worse
carry s now x [] h = elim (Bool-cases (ltb (rank now) (rank x))) [
  | inl b ↦ inl (rw b at h)
  | inr b ↦ inr (rw b at h)
]
carry s now x (c ∷ checks) (inl h) = inr (inl h)
carry s now x (c ∷ checks) (inr h) = elim (carry s now x checks h) [
  | inl p ↦ inl p
  | inr q ↦ inr (inr q)
]

overall_from-IsFound :
    (now : State) (checks : List Check) → IsFound (overall_from now checks) checks now
unfolding overall_from
overall_from-IsFound now [] = refl
overall_from-IsFound now (c ∷ checks) =
    carry (overall_from (worse now c.state) checks) now c.state checks
      (overall_from-IsFound (worse now c.state) checks)

-- No check of a report ranks above the report's state, and that state is the one of a check, or
-- `ok`.
pub overall_state-worst :
    (checks : List Check)
    → All (Below (overall_state checks)) checks × IsFound (overall_state checks) checks State.fine
unfolding overall_state
overall_state-worst checks =
    (overall_from-All State.fine checks, overall_from-IsFound State.fine checks)

abbrev pub IsHarmless : Check → Type 0
IsHarmless c = (c.state ≡ State.fine) ⊎ (c.state ≡ State.not_applicable)

harmless : (c : Check) (s : State) → Below s c → is_healthy s ≡ true → IsHarmless c
unfolding rank is_healthy
harmless c s b h = in_state c.state s b h
  where
    in_state :
        (x s : State)
        → rank x ≤ rank s
        → is_healthy s ≡ true
        → (x ≡ State.fine) ⊎ (x ≡ State.not_applicable)
    in_state State.fine s b h = inl refl
    in_state State.not_applicable s b h = inr refl
    in_state State.absent s b h = ground arith
    in_state State.pending s b h = ground arith
    in_state State.degraded s b h = ground arith
    in_state State.failed s b h = ground arith
    in_state State.unknown s b h = ground arith
    in_state State.unsupported s b h = ground arith

All-IsHarmless :
    (s : State) (checks : List Check)
    → All (Below s) checks
    → is_healthy s ≡ true
    → All IsHarmless checks
All-IsHarmless s [] b h = tt
All-IsHarmless s (c ∷ checks) (b, bs) h = (harmless c s b h, All-IsHarmless s checks bs h)

healthy :
    (s now : State) (checks : List Check)
    → All IsHarmless checks
    → is_healthy now ≡ true
    → IsFound s checks now
    → is_healthy s ≡ true
unfolding is_healthy
healthy s now [] a h f = rw f h
healthy s now (c ∷ checks) (inl p, as_) h (inl f) = rw (f, p) refl
healthy s now (c ∷ checks) (inr p, as_) h (inl f) = rw (f, p) refl
healthy s now (c ∷ checks) (a, as_) h (inr f) = healthy s now checks as_ h f

healthy_fine : is_healthy State.fine ≡ true
unfolding is_healthy
healthy_fine = refl

-- The report is asked for as a text, which is the default, or as JSON that can be encoded and
-- written.
abbrev pub IsShown : Encoder → Text → Bool → Report → Type 0
IsShown encode output detail r =
    (output ≡ []) ⊎ (output ≡ codes "text") ⊎ ((output ≡ codes "json") × (encode detail r ≡ true))

encoded_iff : (b : Bool) → (encoded b ≡ ok tt) ↔ (b ≡ true)
encoded_iff true = (λ h. refl, λ h. refl)
encoded_iff false = (λ h. cc, λ h. cc)

empty_text : (s : Text) → (is_empty s ≡ true) ↔ (s ≡ [])
empty_text [] = (λ h. refl, λ h. refl)
empty_text (c ∷ s) = (λ h. cc, λ h. cc)

write_report_iff :
    (encode : Encoder) (output : Text) (detail : Bool) (r : Report)
    → (write_report encode output detail r ≡ ok tt) ↔ IsShown encode output detail r
unfolding write_report eqb
write_report_iff encode output detail r = (forth, back)
  where
    forth : write_report encode output detail r ≡ ok tt → IsShown encode output detail r
    forth h = elim (Bool-cases (eqb output (codes "json"))) [
      | inl j ↦
          inr (
            inr
              ((eqb_iff output (codes "json")).0 j, (encoded_iff (encode detail r)).0 (rw j at h)))
      | inr n ↦ elim (Bool-cases (is_empty output)) [
        | inl blank ↦ inl ((empty_text output).0 blank)
        | inr full ↦ elim (Bool-cases (eqb output (codes "text"))) [
          | inl t ↦ inr (inl ((eqb_iff output (codes "text")).0 t))
          | inr other ↦ absurd (cc (rw (n, full, other) at h))
        ]
      ]
    ]

    back : IsShown encode output detail r → write_report encode output detail r ≡ ok tt
    back (inl blank) = rw blank refl
    back (inr (inl t)) = rw t refl
    back (inr (inr (j, good))) =
        let same = (eqb_iff output (codes "json")).1 j in
        rw same ((encoded_iff (encode detail r)).1 good)

judged_iff :
    (checks : List Check) (w : Result ReportError (Unit {0}))
    → (judged (overall_state checks) w ≡ ok tt) ↔ ((w ≡ ok tt) × All IsHarmless checks)
judged_iff checks (err x) = (λ h. absurd (cc), λ h. absurd (cc (h.0)))
judged_iff checks (ok _) = elim (Bool-cases (is_healthy (overall_state checks))) [
  | inl g ↦ (
    λ h. (refl, All-IsHarmless (overall_state checks) checks (overall_state-worst checks).0 g),
    λ h. rw g refl,
  )
  | inr u ↦ (
    λ h. absurd (cc (rw u at h)),
    λ h. absurd (
        cc (
          u,
          healthy (overall_state checks) State.fine checks h.1 healthy_fine
              (overall_state-worst checks).1,
        )),
  )
]

-- A command that reports ends without an error exactly when its report is a text, or JSON that is
-- encoded and written with success, and every check is `ok` or not applicable.
pub finish_report_iff :
    (encode : Encoder) (req : Request) (checks : List Check)
    → (finish_report encode req (new_report req.command checks) ≡ ok tt) ↔ (
        IsShown encode
          (flag req (codes "output"))
          (bool_flag req (codes "detail"))
          (new_report req.command checks)
        × All IsHarmless checks)
unfolding finish_report
finish_report_iff encode req checks =
    let shown =
      write_report_iff encode (flag req (codes "output")) (bool_flag req (codes "detail"))
        (new_report req.command checks) in
    let good = judged_iff checks _ in
    (λ h. let (w, a) = good.0 h in (shown.0 w, a), λ (w, a). good.1 (shown.1 w, a))
