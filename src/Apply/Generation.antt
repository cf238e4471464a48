-- ===== src/Apply/Generation.antt =====
-- `writeGeneration` and `verifyGeneration`: a generation's directory is written once, as a whole.
use cnftctl.Base.{
  suc, List, [], ◌∷◌, ◌++◌, Bool, true, false, ◌||◌, ◌&&◌, not, Text, codes, eqb, length, base, dir,
  join_path, Result, ok, err, if◌then◌else◌, ◌==◌,
}
use cnftctl.Host.{
  Env, M, Error, FileInfo, ◌>>=◌, ◌>>◌, return, fail, try, deferring, refuse_if, message,
  is_not_exist, perform, ask_info, ask_text, ask_entries, lstat, read_file, mkdir_temp, chmod,
  rename, remove_all,
}
use cnftctl.Durable.{mkdir_safe, sync_dir, durable_write, read_json}
use cnftctl.Apply.Model.{File, ManifestEntry, Manifest, Codec}
use cnftctl.Apply.Manifest.{file_mode}

-- `reflect.DeepEqual` of two manifests.
unfoldable pub eqb_entry : ManifestEntry → ManifestEntry → Bool
eqb_entry a b = eqb a.path b.path && a.mode == b.mode && eqb a.sha256 b.sha256 && a.size == b.size

unfoldable pub eqb_entries : List ManifestEntry → List ManifestEntry → Bool
unfolding eqb_entry
eqb_entries [] [] = true
eqb_entries (a ∷ as1) (b ∷ bs) = eqb_entry a b && eqb_entries as1 bs
eqb_entries _ _ = false

abbrev eqb_bool : Bool → Bool → Bool
eqb_bool true b = b
eqb_bool false b = not b

unfoldable pub eqb_manifest : Manifest → Manifest → Bool
unfolding eqb_entries
eqb_manifest a b =
    a.version == b.version && eqb_entries a.files b.files && eqb_bool a.ddns_desired b.ddns_desired

module _ (e : Env) (k : Codec) where
  -- `err != nil || bad st`
  abbrev pub is_bad : (FileInfo → Bool) → Result Error FileInfo → Bool
  is_bad bad (ok st) = bad st
  is_bad bad (err x) = true

  unfoldable pub verify_file : Text → ManifestEntry → M (Unit {0})
  verify_file path f = do
    st ← try (ask_info e (lstat (join_path path f.path)))
    refuse_if
        (is_bad (λ s. not s.is_regular || not (s.perm == f.mode) || not (s.size == f.size)) st)
        "immutable generation file identity or mode mismatch"
    text ← ask_text e (read_file (join_path path f.path))
    refuse_if (not (eqb (k.sha256_hex text) f.sha256)) "immutable generation file hash mismatch"

  unfoldable pub verify_files : Text → List ManifestEntry → M (Unit {0})
  unfolding verify_file
  verify_files path [] = return tt
  verify_files path (f ∷ files) = do verify_file path f; verify_files path files

  unfoldable pub verify_generation : Text → Manifest → M (Unit {0})
  unfolding verify_files
  verify_generation path m = do
    st ← try (ask_info e (lstat path))
    refuse_if (is_bad (λ s. not s.is_dir || not (s.perm == 0o500)) st)
        "immutable generation directory identity or mode mismatch"
    disk ← read_json e k.decode_manifest (join_path path (codes "manifest.json"))
    refuse_if (not (eqb_manifest disk m)) "immutable generation manifest identity mismatch"
    entries ← ask_entries e path
    refuse_if (not (length entries == suc (length m.files)))
        "immutable generation contains unexpected files"
    verify_files path m.files

  unfoldable pub write_files : Text → List File → M (Unit {0})
  write_files stage [] = return tt
  write_files stage (f ∷ files) = do
    durable_write e (join_path stage (base f.path)) f.content (file_mode f)
    write_files stage files

  -- Stage the files next to the directory, make it read-only, and rename it into place.
  unfoldable pub create_generation : Text → Manifest → List File → M (Unit {0})
  unfolding write_files
  create_generation path m files = do
    mkdir_safe e (dir path) 0o700
    stage ← ask_text e (mkdir_temp (dir path) (codes ".generation-"))
    deferring
        (do
          write_files stage files
          durable_write e (join_path stage (codes "manifest.json"))
              (k.encode_manifest_indent m ++ (10 ∷ [])) 0o444
          sync_dir e stage
          perform e (chmod stage 0o500)
          perform e (rename stage path)
          sync_dir e (dir path))
        (perform e (remove_all stage))

  unfoldable pub write_at : Text → Manifest → List File → Result Error FileInfo → M (Unit {0})
  unfolding create_generation verify_generation
  write_at path m files (ok st) =
      if not st.is_dir
      then fail (message "generation path is not a directory")
      else verify_generation path m
  write_at path m files (err x) = if is_not_exist x then create_generation path m files else fail x

  unfoldable pub write_generation : Text → Manifest → List File → M (Unit {0})
  unfolding write_at
  write_generation path m files = do st ← try (ask_info e (lstat path)); write_at path m files st
