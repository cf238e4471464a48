-- ===== src/Lib.antt =====
-- Verification library of cnftctl, a manager of nftables firewalls written in Go.
--
-- The program renders a firewall configuration into files, installs them as an immutable
-- generation named by a hash, and activates it under a rollback timer: unless the operator
-- confirms in time, the previous generation comes back. What runs in that sequence may fail or be
-- cut off at any call, so the library models the calls themselves.
--
-- Files:
-- Base: texts as lists of code points, the string functions of Go's strings, path/filepath and
--   strconv that the code uses, the regular expressions for hexadecimal names, sorting, results.
-- Host: the machine. A run is a trace of calls (files, commands), newest first. What a call
--   answers is the parameter Env, an arbitrary function of the calls made before, so that nothing
--   is assumed of other processes and any call may fail. The monad M passes the trace on and
--   keeps it at an error, as Go does. Host.Trace, Host.Hoare, Host.Guard, Host.Live and
--   Host.Inversion hold the rules for reasoning about programs in M.
-- Systemd: internal/systemd/systemd.go, the calls of systemctl.
-- Nft: internal/nft/runner.go, the calls of nft, and the batch that replaces sets.
-- Durable: the lower part of internal/apply/apply.go: durableWrite, mkdirSafe, syncDir,
--   writeJSON, readJSON and lockRuntime. A function under the lock is the argument of with_lock.
-- Apply: the rest of internal/apply/apply.go. Apply.Model has its types and constants,
--   Apply.Manifest the manifests, generation names and plans, Apply.Generation the generations on
--   disk, Apply.Store the selector, the ownership record and the transactions, Apply.Assets the
--   checks of the installed package, Apply.Rollback rollbackWithManager, updateRollbackStage
--   and recoverApply, Apply.Run the operations Apply, ValidateCandidate, Confirm, Restore,
--   Reconcile and WithFirewallLock. Long Go functions are cut into parts (apply, apply_locked,
--   recheck, install, activate) in the order of the source. The other children hold proofs.
-- Ports: internal/ports/ports.go. Features: internal/features/features.go.
-- Ddns: internal/ddns/ddns.go, the host list, Resolve and Refresh; Ddns.Metadata is the file
--   ddns-runtime.json, its LoadMetadata, SaveMetadata and RecordAttempt.
-- Whitelist: internal/whitelist/whitelist.go, the static entries.
-- Config: internal/config/config.go, the configuration and Validate; Config.File its canonical
--   form, Load, Save, LoadFile and SaveFile.
-- Preset: internal/preset/preset.go, a configuration as one text.
-- Docker: internal/docker/docker.go, the plan for daemon.json; Docker.Write is WritePlan.
-- App: internal/app. App.Request is service.go with the helpers on requests, App.Report
--   operational.go, and the others are service_impl.go: App.Path managedPath, App.Convert the
--   conversions between configurations, App.Change what each editing command makes of the
--   configuration, App.Edit those commands with loadConfig and writeConfig, App.Daemon the
--   commands on Docker, App.Coverage checkSSHSessionCoverage, and App.Run init, confirm, rollback,
--   reconcile and the dispatch by the command's name. A command is a program in M; what it prints
--   is left out, but for the Boolean that it prints as changed.
-- Cli: internal/cli. Cli.Model and Cli.Tree are command.go, Cli is runner.go: the arguments of the
--   process become a Request of App, and the outcome an exit status.
-- Tests: a machine, parameters and inputs on which the theorems are applied.
--
-- Parameters for code that is not in the repository: Env (the operating system, nft, systemctl,
-- dockerd, the clock, crypto/rand), the codecs Codec, Json, Yaml, Preset.Codec, Encoder and Digest
-- (encoding/json, encoding/base64, gopkg.in/yaml.v3, crypto/sha256), the table of lower-case
-- letters above 127 (unicode), the records Netip and Texts, Resolver and Network (net, net/netip,
-- DNS). One theorem assumes of Env that the calls that change files succeed, another that the
-- names of a backup are free or taken, and no other assumes anything of it; one assumes that a
-- prefix of Netip equals itself, and one that Json writes an object that it read, with the backend
-- set, as a document that holds the same values when it is read back.
--
-- What the model leaves out: the arguments of error messages (an error is its kind and its fixed
-- text), values that Go returns beside an error and that the caller drops, and contexts, that is
-- cancellation. Texts are sequences of code points; their byte order and byte length are
-- computed from these. Numbers are the native ones; ports are checked to be in 16 bits, and
-- durations and times are numbers of nanoseconds. A JSON document is written by a codec, so
-- that its fields have no text here. The loops are over lists; only the decimal digits of a
-- number run on fuel, which is more than the number, and each step divides it by ten. The attempts
-- of createBackup are counted down from 100, as in the source.
--
-- Not modelled: internal/render and internal/install; of internal/app the commands that render or
-- resolve names (apply, plan, validate, status, the DDNS commands at run time, adopt) and those that
-- only print; of internal/preset Explain; of internal/docker Detect; of internal/cli the help; of
-- internal/config the texts of durations and RiskExplanations; of internal/nft/runner.go
-- CheckDependencies; of internal/ddns/ddns.go StatusOf but for the metadata, and NetResolver; the
-- shell scripts and unit files.
pub mod Base
pub mod Host
pub mod Systemd
pub mod Nft
pub mod Durable
pub mod Apply
pub mod Ports
pub mod Features
pub mod Ddns
pub mod Whitelist
pub mod Config
pub mod Docker
pub mod App
pub mod Preset
pub mod Cli
mod Tests
