-- ===== src/Host/Files.antt =====
-- Conditions that the calls on files satisfy.
use cnftctl.Base.{ℕ, Text}
use cnftctl.Host.{
  Call, lstat, read_file, open_file, mkdir_all, remove, rename, create_temp, write, chmod, sync,
  close, open_exclusive, chown, seek, read_all, eval_symlinks,
}

-- Those that replace no file.
pub record AllowsFiles (Q : Call → Type 0) : Type 0 where
  pub links : (p : Text) → Q (eval_symlinks p)
  pub stats : (p : Text) → Q (lstat p)
  pub dirs : (p : Text) → Q (mkdir_all p 0o755)
  pub opens : (p : Text) → Q (open_file p)
  pub closes : (p : Text) → Q (close p)
  pub reads : (p : Text) → Q (read_all p)
  pub files : (p : Text) → Q (read_file p)
  pub temps : (d p : Text) → Q (create_temp d p)
  pub exclusives : (p : Text) (m : ℕ) → Q (open_exclusive p m)
  pub writes : (p s : Text) → Q (write p s)
  pub modes : (p : Text) (m : ℕ) → Q (chmod p m)
  pub owners : (p : Text) (u g : ℕ) → Q (chown p u g)
  pub syncs : (p : Text) → Q (sync p)
  pub seeks : (p : Text) → Q (seek p)
  pub removes : (p : Text) → Q (remove p)

abbrev pub NotRename : Call → Type 0
NotRename (rename a b) = ⊥
NotRename _ = Unit

pub NotRename-AllowsFiles : AllowsFiles NotRename
NotRename-AllowsFiles = record {
  links = λ p. tt;
  stats = λ p. tt;
  dirs = λ p. tt;
  opens = λ p. tt;
  closes = λ p. tt;
  reads = λ p. tt;
  files = λ p. tt;
  temps = λ d p. tt;
  exclusives = λ p m. tt;
  writes = λ p s. tt;
  modes = λ p m. tt;
  owners = λ p u g. tt;
  syncs = λ p. tt;
  seeks = λ p. tt;
  removes = λ p. tt;
}

pub Any-AllowsFiles : AllowsFiles (λ _. Unit)
Any-AllowsFiles = record {
  links = λ p. tt;
  stats = λ p. tt;
  dirs = λ p. tt;
  opens = λ p. tt;
  closes = λ p. tt;
  reads = λ p. tt;
  files = λ p. tt;
  temps = λ d p. tt;
  exclusives = λ p m. tt;
  writes = λ p s. tt;
  modes = λ p m. tt;
  owners = λ p u g. tt;
  syncs = λ p. tt;
  seeks = λ p. tt;
  removes = λ p. tt;
}
