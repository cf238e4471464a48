-- ===== src/App/Refined.antt =====
-- `open` and `close` on a configuration as operations on the collection of its ports, order aside.
use mathlib.Core.Path.{subst}
use mathlib.Core.List.{Perm}
use mathlib.Core.List.Perm
use cnftctl.Base
use cnftctl.Base.{
  ℕ, ◌≤◌, ◌%◌, List, [], ◌∷◌, ◌++◌, Bool, true, false, Option, none, some, Text, codes, map, All,
  All-append, sort-perm, sort-All, Result, ok, err, >>=-eq-ok, ok-injective, ◌≡◌, ◌⊎◌, refl, sym,
  ap, ◌∙◌, inl, inr, arith, Bool-cases, if◌then◌else◌, ◌==◌,
}
use cnftctl.Base.Int.{ℤ, pos}
use cnftctl.Config
use cnftctl.Config.{end_of, is_zero}
use cnftctl.Config.Accepted.{IsOpenPort}
use cnftctl.Ports
use cnftctl.Ports.{
  Entry, find_same, take_out, same_port, port_leq, open_entry, open_port, close_entry, close_port,
}
use cnftctl.Ports.Same.{
  IsSame, IsListed, same_port-IsSame, find_same-IsListed, find_same-none, take_out_iff,
}
use cnftctl.Ports.Valid.{parse_entry-IsPort}
use cnftctl.App.Convert.{
  uint16, port_entry, port_entries, ports_config, open_port_of, set_ports_config,
}
use cnftctl.App.Change.{ChangeError, wrapped, open_change, close_change}

-- A port number and one that is not before it.
abbrev IsRange : Entry → Type 0
IsRange p = (1 ≤ p.start) × (p.start ≤ p.last) × (p.last ≤ 65535)

port_entry-open_port_of : (p : Entry) → IsRange p → port_entry (open_port_of p) ≡ p
unfolding port_entry open_port_of uint16
port_entry-open_port_of p (low, ordered, high) = ground arith

port_entries-open_port_of :
    (ps : List Entry) → All IsRange ps → port_entries (map open_port_of ps) ≡ ps
port_entries-open_port_of [] a = refl
port_entries-open_port_of (p ∷ ps) a =
    rw (port_entry-open_port_of p a.0, port_entries-open_port_of ps a.1) refl

uint16-bounds :
    (x y : ℤ) (a b : ℕ)
    → x ≡ pos a
    → y ≡ pos b
    → 1 ≤ a
    → a ≤ b
    → b ≤ 65535
    → (1 ≤ uint16 x) × (uint16 x ≤ uint16 y) × (uint16 y ≤ 65535)
unfolding uint16
uint16-bounds x y a b p q low ordered high = rw (p, q) (omega arith)

port_entry-IsRange : (p : Config.OpenPort) → IsOpenPort p → IsRange (port_entry p)
unfolding port_entry is_zero
port_entry-IsRange p o =
    let (a, b, x, y, low, ordered, high) = o.range in
    uint16-bounds p.port (end_of p) a b x y low ordered high

port_entries-IsRange :
    (ps : List Config.OpenPort) → All IsOpenPort ps → All IsRange (port_entries ps)
port_entries-IsRange [] a = tt
port_entries-IsRange (p ∷ ps) a = (port_entry-IsRange p a.0, port_entries-IsRange ps a.1)

-- The ports of a configuration, as entries.
abbrev pub ports_of : Config.Config → List Entry
ports_of cfg = port_entries cfg.open_ports

set_ports_config-perm :
    (cfg : Config.Config) (pc : Ports.Config)
    → All IsRange pc.open_ports
    → Perm (ports_of (set_ports_config cfg pc)) pc.open_ports
unfolding set_ports_config Ports.list
set_ports_config-perm cfg pc a =
    rw
      (port_entries-open_port_of (Base.sort port_leq pc.open_ports)
        (sort-All port_leq IsRange pc.open_ports a))
      (sort-perm port_leq pc.open_ports)

wrapped-ok {ℓ κ} :
    {E : Type ℓ} {A : Type κ} (f : E → ChangeError) (r : Result E A) {a : A}
    → wrapped f r ≡ ok a
    → r ≡ ok a
wrapped-ok f (ok b) h = ap ok (ok-injective h)
wrapped-ok f (err x) h = absurd (cc)

-- What `open` does to the ports: no entry of the port is there and it adds the one it was given, or
-- an entry of the port is there.
abbrev pub IsOpened : Entry → List Entry → List Entry → Bool → Type 0
IsOpened e before after changed =
    ((changed ≡ true) × (¬ IsListed e before) × Perm after (before ++ (e ∷ [])))
    ⊎ ((changed ≡ false) × IsListed e before × Perm after before)

opened :
    (lower : ℕ → ℕ) (cfg : Config.Config) (pc : Ports.Config) (e : Entry) (o : Option Entry)
    → find_same e pc.open_ports ≡ o
    → IsRange e
    → All IsRange pc.open_ports
    → IsOpened e pc.open_ports
        (ports_of (set_ports_config cfg (open_entry lower pc e o).0))
        (open_entry lower pc e o).1.changed
unfolding open_entry
opened lower cfg pc e none h r a = inl (
  refl,
  find_same-none e pc.open_ports h,
  set_ports_config-perm cfg (record pc { open_ports = pc.open_ports ++ (e ∷ []) })
      (All-append IsRange pc.open_ports (e ∷ []) a (r, tt)),
)
opened lower cfg pc e (some x) h r a =
    inr (refl, find_same-IsListed e pc.open_ports h, set_ports_config-perm cfg pc a)

abbrev IsOpenedAs : (ℕ → ℕ) → Text → Text → Text → Config.Config → Config.Config × Bool → Type 0
IsOpenedAs lower protocol spec comment cfg out =
    (e : Entry) × (Ports.parse_entry lower protocol spec comment ≡ ok e)
    × IsOpened e (ports_of cfg) (ports_of out.0) out.1
    × (out.0 ≡ record cfg { open_ports = out.0.open_ports })

-- On a configuration whose ports are valid, where `open` succeeds: if no entry of the configuration
-- has the protocol, start and end that were asked for, it adds such an entry, in an order that is not
-- told, and reports a change; else it keeps the entries and reports none. Nothing else of the
-- configuration changes.
pub open_change-IsOpened :
    (lower : ℕ → ℕ) (protocol spec comment : Text) (cfg : Config.Config)
    {out : Config.Config × Bool}
    → All IsOpenPort cfg.open_ports
    → open_change lower protocol spec comment cfg ≡ ok out
    → IsOpenedAs lower protocol spec comment cfg out
unfolding open_change ports_config set_ports_config open_port
open_change-IsOpened lower protocol spec comment cfg a h =
    let pc = ports_config cfg in
    let (r, q, final) =
      >>=-eq-ok (wrapped ChangeError.ports (open_port lower (some pc) protocol spec comment)) _ h in
    let (e, parsed, done) =
      >>=-eq-ok (Ports.parse_entry lower protocol spec comment) _
        (wrapped-ok ChangeError.ports _ q) in
    let v = parse_entry-IsPort lower protocol spec comment parsed in
    let made : open_entry lower pc e (find_same e pc.open_ports) ≡ r = ok-injective done in
    subst (IsOpenedAs lower protocol spec comment cfg)
      (ap (λ z. (set_ports_config cfg z.0, z.1.changed)) made ∙ ok-injective final)
      (
        e,
        parsed,
        opened lower cfg pc e (find_same e pc.open_ports) refl (v.low, v.ordered, v.high)
            (port_entries-IsRange cfg.open_ports a),
        refl,
      )

-- What `close` does to the ports: it takes an entry of the port out, or there is none.
abbrev pub IsClosed : Entry → List Entry → List Entry → Bool → Type 0
IsClosed e before after changed =
    ((changed ≡ true) × ((x : Entry) × IsSame x e × Perm before (x ∷ after)))
    ⊎ ((changed ≡ false) × (¬ IsListed e before) × Perm after before)

abbrev IsTaken : Entry → List Entry → Option (Entry × List Entry) → Type 0
IsTaken e before none = Unit
IsTaken e before (some (x, after)) =
    (same_port x e ≡ true) × Perm before (x ∷ after) × All IsRange after

kept-IsTaken :
    (e z : Entry) (zs : List Entry) (o : Option (Entry × List Entry))
    → IsRange z
    → IsTaken e zs o
    → IsTaken e (z ∷ zs) (Ports.kept z o)
kept-IsTaken e z zs none r h = tt
kept-IsTaken e z zs (some (x, after)) r h =
    (h.0, Perm.trans (Perm.cons z h.1) (Perm.swap x z after), (r, h.2))

taken : (e : Entry) (xs : List Entry) → All IsRange xs → IsTaken e xs (take_out e xs)
unfolding take_out
taken e [] a = tt
taken e (z ∷ zs) a = elim (Bool-cases (same_port z e)) [
  | inl same ↦ rw same (same, Perm.refl _, a.1)
  | inr other ↦ rw other (kept-IsTaken e z zs (take_out e zs) a.0 (taken e zs a.1))
]

closed :
    (lower : ℕ → ℕ) (cfg : Config.Config) (pc : Ports.Config) (e : Entry) (strict : Bool)
    (o : Option (Entry × List Entry))
    → take_out e pc.open_ports ≡ o
    → IsTaken e pc.open_ports o
    → All IsRange pc.open_ports
    → {r : Ports.Config × Ports.Reply} → close_entry lower pc e strict o ≡ ok r
    → IsClosed e pc.open_ports (ports_of (set_ports_config cfg r.0)) r.1.changed
unfolding close_entry
closed lower cfg pc e strict (some (x, after)) h t a {r} q =
    subst (λ z. IsClosed e pc.open_ports (ports_of (set_ports_config cfg z.0)) z.1.changed)
      (ok-injective q)
      (inl (
        refl,
        (
          x,
          same_port-IsSame x e t.0,
          Perm.trans t.1 (
              Perm.cons x
                (Perm.symm (set_ports_config-perm cfg (record pc { open_ports = after }) t.2))),
        ),
      ))
closed lower cfg pc e true none h t a q = absurd (cc)
closed lower cfg pc e false none h t a {r} q =
    subst (λ z. IsClosed e pc.open_ports (ports_of (set_ports_config cfg z.0)) z.1.changed)
      (ok-injective q)
      (inr (refl, (take_out_iff e pc.open_ports).0 h, set_ports_config-perm cfg pc a))

abbrev IsClosedAs : (ℕ → ℕ) → Text → Text → Config.Config → Config.Config × Bool → Type 0
IsClosedAs lower protocol spec cfg out =
    (e : Entry) × (Ports.parse_entry lower protocol spec [] ≡ ok e)
    × IsClosed e (ports_of cfg) (ports_of out.0) out.1
    × (out.0 ≡ record cfg { open_ports = out.0.open_ports })

-- On a configuration whose ports are valid, where `close` succeeds: it takes out one entry with the
-- protocol, start and end that were asked for, in an order that is not told, and reports a change; or
-- no entry of the configuration has these, and it keeps the entries and reports none. Nothing else of
-- the configuration changes.
pub close_change-IsClosed :
    (lower : ℕ → ℕ) (protocol spec : Text) (strict : Bool) (cfg : Config.Config)
    {out : Config.Config × Bool}
    → All IsOpenPort cfg.open_ports
    → close_change lower protocol spec strict cfg ≡ ok out
    → IsClosedAs lower protocol spec cfg out
unfolding close_change ports_config set_ports_config close_port
close_change-IsClosed lower protocol spec strict cfg a h =
    let pc = ports_config cfg in
    let (r, q, final) =
      >>=-eq-ok (wrapped ChangeError.ports (close_port lower (some pc) protocol spec strict)) _ h in
    let (e, parsed, done) =
      >>=-eq-ok (Ports.parse_entry lower protocol spec []) _ (wrapped-ok ChangeError.ports _ q) in
    let ranges = port_entries-IsRange cfg.open_ports a in
    subst (IsClosedAs lower protocol spec cfg) (ok-injective final) (
      e,
      parsed,
      closed lower cfg pc e strict (take_out e pc.open_ports) refl (taken e pc.open_ports ranges)
          ranges done,
      refl,
    )
