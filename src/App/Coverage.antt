-- ===== src/App/Coverage.antt =====
-- `checkSSHSessionCoverage` of internal/app/service_impl.go: may the current SSH client be locked out?
-- The resolver, the interfaces of the machine and `net/netip` are the parameter `Network`.
use cnftctl.Base.{
  List, [], ◌∷◌, ◌++◌, Bool, false, ◌||◌, ◌&&◌, not, Option, none, some, Text, codes, eqb, is_empty,
  any, fields, trim_space, Result, ok, err, if◌then◌else◌,
}
use cnftctl.Base.Int.{ℤ}
use cnftctl.Config
use cnftctl.App.Request.{Request, flag, bool_flag, variable}

pub data CoverageError : Type 0 where
  bad_client not_covered reason_required : CoverageError

pub record Network : Type 1 where
  pub Addr : Type 0
  pub Prefix : Type 0
  pub parse_addr : Text → Option Addr
  pub parse_prefix : Text → Option Prefix
  pub same : Addr → Addr → Bool
  pub is6 : Addr → Bool
  pub contains : Prefix → Addr → Bool
  -- `PrefixFrom(addr, n).Masked()`
  pub masked : Addr → ℤ → Prefix
  pub addr : Prefix → Addr
  -- The addresses of a lookup, its error dropped.
  pub lookup_a : Text → List Addr
  pub lookup_aaaa : Text → List Addr
  -- The addresses of an interface; none if there is an error.
  pub interface_addrs : Text → List Text

module _ (net : Network) where
  abbrev pub in_prefix : net.Addr → Option net.Prefix → Bool
  in_prefix client none = false
  in_prefix client (some p) = net.contains p client

  abbrev pub is_addr : net.Addr → Option net.Addr → Bool
  is_addr client none = false
  is_addr client (some a) = net.same a client

  -- One entry of the static whitelist.
  unfoldable pub covers : net.Addr → Config.WhitelistEntry → Bool
  covers client entry =
      in_prefix client (net.parse_prefix entry.value) || is_addr client (net.parse_addr entry.value)

  unfoldable pub covers_addr : net.Addr → ℤ → net.Addr → Bool
  covers_addr client n a =
      net.same a client || (net.is6 a && net.is6 client && net.contains (net.masked a n) client)

  unfoldable pub covers_host : net.Addr → ℤ → Text → Bool
  unfolding covers_addr
  covers_host client n host = any (covers_addr client n) (net.lookup_a host ++ net.lookup_aaaa host)

  -- The third field of the connection is the server's address.
  unfoldable pub server_of : List Text → Option net.Addr
  server_of (a ∷ b ∷ c ∷ rest) = net.parse_addr c
  server_of _ = none

  abbrev pub on_prefix : net.Addr → Option net.Prefix → Bool
  on_prefix server none = false
  on_prefix server (some p) = net.same (net.addr p) server

  unfoldable pub serves : Option net.Addr → Text → Bool
  serves none name = false
  serves (some server) name =
      any (λ address. on_prefix server (net.parse_prefix address)) (net.interface_addrs name)

  unfoldable pub is_covered : Config.Config → List Text → net.Addr → Bool
  unfolding covers covers_host server_of serves
  is_covered cfg connection client =
      any (covers client) (cfg.ssh.ipv4 ++ cfg.ssh.ipv6)
      || (cfg.ssh.ddns.enabled
          && any (covers_host client cfg.ssh.ddns.ipv6_prefix_len) cfg.ssh.ddns.hosts)
      || (cfg.trusted.enabled && any (serves (server_of connection)) cfg.trusted.interfaces)

  abbrev pub fields_or : List Text → List Text → List Text
  fields_or [] other = other
  fields_or (a ∷ parts) other = a ∷ parts

  -- The fields of `SSH_CONNECTION`, or else of `SSH_CLIENT`.
  unfoldable pub connection_of : Request → List Text
  unfolding variable
  connection_of req =
      fields_or (fields (variable req (codes "SSH_CONNECTION")))
        (fields (variable req (codes "SSH_CLIENT")))

  unfoldable pub acknowledged : Request → Result CoverageError (Unit {0})
  unfolding bool_flag flag
  acknowledged req =
      if not (bool_flag req (codes "acknowledge-ssh-lockout-risk"))
      then err not_covered
      else if is_empty (trim_space (flag req (codes "reason")))
      then err reason_required
      else ok tt

  unfoldable pub check_client :
      Config.Config → Request → List Text → Option net.Addr → Result CoverageError (Unit {0})
  unfolding is_covered acknowledged
  check_client cfg req connection none = err bad_client
  check_client cfg req connection (some client) =
      if is_covered cfg connection client then ok tt else acknowledged req

  unfoldable pub check_connection :
      Config.Config → Request → List Text → Result CoverageError (Unit {0})
  unfolding check_client
  check_connection cfg req [] = ok tt
  check_connection cfg req (a ∷ rest) = check_client cfg req (a ∷ rest) (net.parse_addr a)

  -- `checkSSHSessionCoverage`
  unfoldable pub check_ssh_session_coverage :
      Config.Config → Request → Result CoverageError (Unit {0})
  unfolding check_connection connection_of
  check_ssh_session_coverage cfg req =
      if eqb cfg.ssh.mode (codes "open")
      then ok tt
      else check_connection cfg req (connection_of req)
