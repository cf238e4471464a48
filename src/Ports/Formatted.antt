-- ===== src/Ports/Formatted.antt =====
-- `ParseEntry` at the text that `FormatPort` gives.
use cnftctl.Base.{
  ℕ, ◌≤◌, ◌<◌, ◌^◌, [], ◌∷◌, ◌++◌, Bool, true, false, ◌&&◌, ◌||◌, not, ◌⊎◌, some, Text, All, codes,
  eqb, any, is_control, ltb, ◌==◌, is_empty, decimal, atoi, split, trim_space, trim_left, is_space,
  to_lower, lower_rune, Result, ok, err, ◌≡◌, refl, sym, ap, ◌∙◌, inl, inr, arith, Bool-cases,
  if◌then◌else◌, ◌>>=◌,
}
use cnftctl.Base.Numeral.{
  AllSolid, AllDigits-AllSolid, IsSolid, decimal-AllDigits, decimal-is_full, atoi-decimal,
  trim_space-AllSolid, split-AllDigits, split-dash,
}
use cnftctl.Ports.{
  Entry, port_of, parse_port, parse_parts, parse_port_spec, format_port, parse_entry,
}
use cnftctl.Ports.Valid.{IsPort}

parse_port-decimal : (n : ℕ) → 1 ≤ n → n ≤ 65535 → parse_port (decimal n) ≡ ok n
unfolding parse_port port_of
parse_port-decimal n low high =
    let above : ltb n 1 ≡ false = ground arith in
    let below : ltb 65535 n ≡ false = ground arith in
    ap (λ z. port_of (atoi z))
      (trim_space-AllSolid (decimal n) (AllDigits-AllSolid (decimal n) (decimal-AllDigits n)))
    ∙ ap port_of (atoi-decimal n (omega arith))
    ∙ rw (above, below) refl

is_empty-append : (s t : Text) → is_empty s ≡ false → is_empty (s ++ t) ≡ false
is_empty-append [] t h = absurd cc
is_empty-append (c ∷ s) t h = refl

-- A text of digits and dashes is split as it is.
parse_port_spec-AllSolid :
    (s : Text) → AllSolid s → is_empty s ≡ false → parse_port_spec s ≡ parse_parts (split b'-' s)
unfolding parse_port_spec
parse_port_spec-AllSolid s h full = let same = trim_space-AllSolid s h in rw same (rw full refl)

one_port : (n : ℕ) → 1 ≤ n → n ≤ 65535 → parse_port_spec (decimal n) ≡ ok (n, n)
unfolding parse_parts
one_port n low high =
    parse_port_spec-AllSolid (decimal n) (AllDigits-AllSolid (decimal n) (decimal-AllDigits n))
      (decimal-is_full n)
    ∙ ap parse_parts (split-AllDigits (decimal n) (decimal-AllDigits n))
    ∙ rw (parse_port-decimal n low high) refl

two_ports :
    (a b : ℕ)
    → 1 ≤ a
    → a ≤ b
    → b ≤ 65535
    → parse_port_spec (decimal a ++ (b'-' ∷ decimal b)) ≡ ok (a, b)
unfolding parse_parts
two_ports a b low ordered high =
    let solid : AllSolid (decimal a ++ (b'-' ∷ decimal b)) =
      cnftctl.Base.All-append IsSolid (decimal a) (b'-' ∷ decimal b)
        (AllDigits-AllSolid (decimal a) (decimal-AllDigits a))
        (
          record { low = omega arith; high = omega arith },
          AllDigits-AllSolid (decimal b) (decimal-AllDigits b),
        ) in
    let start : parse_port (decimal a) ≡ ok a = parse_port-decimal a low (omega arith) in
    let last : parse_port (decimal b) ≡ ok b = parse_port-decimal b (omega arith) high in
    let fine : ltb b a ≡ false = ground arith in
    parse_port_spec-AllSolid _ solid (is_empty-append (decimal a) _ (decimal-is_full a))
    ∙ ap parse_parts
        (split-dash (decimal a) (decimal b) (decimal-AllDigits a) (decimal-AllDigits b))
    ∙ rw (start, last, fine) refl

parse_port_spec-format_port :
    (e : Entry) → IsPort e → parse_port_spec (format_port e) ≡ ok (e.start, e.last)
unfolding format_port
parse_port_spec-format_port e p = elim (Bool-cases (e.start == e.last)) [
  | inl same ↦
      let equal : e.start ≡ e.last = ground arith in
      let low : 1 ≤ e.start = p.low in
      let high : e.last ≤ 65535 = p.high in
      rw same (one_port e.start low (omega arith) ∙ ap (λ n. ok (e.start, n)) equal)
  | inr other ↦ rw other (two_ports e.start e.last p.low p.ordered p.high)
]

known-is_read :
    (lower : ℕ → ℕ) (protocol : Text)
    → (protocol ≡ codes "tcp") ⊎ (protocol ≡ codes "udp")
    → (to_lower lower (trim_space protocol) ≡ protocol)
      × ((not (eqb protocol (codes "tcp")) && not (eqb protocol (codes "udp"))) ≡ false)
unfolding to_lower lower_rune trim_space trim_left is_space eqb
known-is_read lower protocol (inl h) = rw h (refl, refl)
known-is_read lower protocol (inr h) = rw h (refl, refl)

-- An entry that `ParseEntry` can give, its comment without white space around it, is read back
-- from its protocol, the text that `FormatPort` gives for its ports, and its comment.
pub parse_entry-format_port :
    (lower : ℕ → ℕ) (e : Entry)
    → IsPort e
    → trim_space e.comment ≡ e.comment
    → parse_entry lower e.protocol (format_port e) e.comment ≡ ok e
unfolding parse_entry
parse_entry-format_port lower e p trimmed =
    let (same, known) = known-is_read lower e.protocol p.protocol in
    let ports = parse_port_spec-format_port e p in
    let fine = p.comment in rw same (rw (known, trimmed) (rw ports (rw fine refl)))
