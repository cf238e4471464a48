-- ===== src/Ports.antt =====
-- internal/ports/ports.go: the list of open ports and the texts that name them.
pub mod Valid
pub mod Same
pub mod Listed
pub mod Formatted
use cnftctl.Base.{
  ℕ, List, [], ◌∷◌, ◌++◌, Bool, true, false, ◌||◌, ◌&&◌, not, Option, none, some, Text, codes, eqb,
  is_empty, any, trim_space, to_lower, is_control, split, atoi, leq_text, leb, ltb, sort, decimal,
  Result, ok, err, if◌then◌else◌, ◌==◌, ◌>>=◌,
}
use cnftctl.Base.Int.{ℤ, pos, negsuc}

pub data PortError : Type 0 where
  nil_config bad_protocol port_required bad_range bad_port end_before_start bad_comment not_open :
      PortError

pub record Entry : Type 0 where
  pub protocol : Text
  pub start : ℕ
  pub last : ℕ
  pub comment : Text

pub record Config : Type 0 where
  pub open_ports : List Entry
  pub docker_enabled : Bool

-- `Result`; the one warning there is, Docker's, is present or not.
pub record Reply : Type 0 where
  pub changed : Bool
  pub entry : Entry
  pub entries : List Entry
  pub docker_warning : Bool

-- `parsePort`: an `int` in 1..65535, as a `uint16`.
unfoldable pub port_of : Option ℤ → Result PortError ℕ
port_of none = err bad_port
port_of (some (negsuc n)) = err bad_port
port_of (some (pos n)) = if ltb n 1 || ltb 65535 n then err bad_port else ok n

unfoldable pub parse_port : Text → Result PortError ℕ
unfolding port_of
parse_port value = port_of (atoi (trim_space value))

-- `parsePortSpec`, once the text was split at "-".
unfoldable pub parse_parts : List Text → Result PortError (ℕ × ℕ)
unfolding parse_port
parse_parts (a ∷ []) = do start ← parse_port a; ok (start, start)
parse_parts (a ∷ b ∷ []) = do
  start ← parse_port a
  last ← parse_port b
  if ltb last start then err end_before_start else ok (start, last)
parse_parts _ = err bad_range

unfoldable pub parse_port_spec : Text → Result PortError (ℕ × ℕ)
unfolding parse_parts
parse_port_spec spec =
    let s = trim_space spec in if is_empty s then err port_required else parse_parts (split b'-' s)

-- `FormatPort`
unfoldable pub format_port : Entry → Text
format_port e =
    if e.start == e.last then decimal e.start else decimal e.start ++ (b'-' ∷ decimal e.last)

-- `samePort`
unfoldable pub same_port : Entry → Entry → Bool
same_port a b = eqb a.protocol b.protocol && a.start == b.start && a.last == b.last

-- The order of `List`: by protocol, then start, then end.
unfoldable pub port_leq : Entry → Entry → Bool
port_leq a b =
    if not (eqb a.protocol b.protocol)
    then leq_text a.protocol b.protocol
    else if not (a.start == b.start)
    then ltb a.start b.start
    else leb a.last b.last

unfoldable pub list : Config → List Entry
unfolding port_leq
list cfg = sort port_leq cfg.open_ports

-- `cfg.OpenPorts` without its first entry of this port, and that entry.
abbrev pub kept : Entry → Option (Entry × List Entry) → Option (Entry × List Entry)
kept x none = none
kept x (some (found, others)) = some (found, x ∷ others)

unfoldable pub take_out : Entry → List Entry → Option (Entry × List Entry)
take_out e [] = none
take_out e (x ∷ xs) =
    let rest = kept x (take_out e xs) in if same_port x e then some (x, xs) else rest

unfoldable pub find_same : Entry → List Entry → Option Entry
find_same e [] = none
find_same e (x ∷ xs) = let rest = find_same e xs in if same_port x e then some x else rest

module _ (lower : ℕ → ℕ) where
  -- `ParseEntry`
  unfoldable pub parse_entry : Text → Text → Text → Result PortError Entry
  parse_entry protocol spec comment = do
    let p = to_lower lower (trim_space protocol)
    let c = trim_space comment
    if not (eqb p (codes "tcp")) && not (eqb p (codes "udp")) then err bad_protocol else (do
      (start, last) ← parse_port_spec spec
      if any is_control c
          then err bad_comment
          else ok (record { protocol = p; start = start; last = last; comment = c }))

  abbrev pub reply : Bool → Entry → Config → Reply
  reply changed e cfg = record {
    changed = changed;
    entry = e;
    entries = list cfg;
    docker_warning = cfg.docker_enabled;
  }

  unfoldable pub open_entry : Config → Entry → Option Entry → Config × Reply
  open_entry cfg e (some existing) = (cfg, reply false existing cfg)
  open_entry cfg e none =
      let opened : Config = record cfg { open_ports = cfg.open_ports ++ (e ∷ []) } in
      (opened, reply true e opened)

  -- `Open`; a nil config is `none`.
  unfoldable pub open_port : Option Config → Text → Text → Text → Result PortError (Config × Reply)
  unfolding open_entry
  open_port none protocol spec comment = err nil_config
  open_port (some cfg) protocol spec comment = do
    e ← parse_entry protocol spec comment
    ok (open_entry cfg e (find_same e cfg.open_ports))

  unfoldable pub close_entry :
      Config → Entry → Bool → Option (Entry × List Entry) → Result PortError (Config × Reply)
  close_entry cfg e strict (some (existing, others)) =
      let closed : Config = record cfg { open_ports = others } in
      ok (closed, reply true existing closed)
  close_entry cfg e true none = err not_open
  close_entry cfg e false none = ok (cfg, reply false e cfg)

  -- `Close`
  unfoldable pub close_port : Option Config → Text → Text → Bool → Result PortError (Config × Reply)
  unfolding close_entry
  close_port none protocol spec strict = err nil_config
  close_port (some cfg) protocol spec strict = do
    e ← parse_entry protocol spec []
    close_entry cfg e strict (take_out e cfg.open_ports)
