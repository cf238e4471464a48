-- ===== src/Apply/Manifest.antt =====
-- `FinalizeFiles`, `buildManifest`, `PlanFilesWithDDNS`: a generation is named by the hash of its
-- files, in which references to the generation itself are replaced by a placeholder.
use cnftctl.Base.{
  ℕ, ◌%◌, List, [], ◌∷◌, ◌++◌, map, Bool, false, ◌||◌, not, Text, codes, eqb, is_empty, any, base,
  clean, contains, join_path, replace_references, replace_all, leq_text, sort, byte_len, Result, ok,
  err, if◌then◌else◌, ◌==◌, ◌>>=◌,
}
use cnftctl.Host
use cnftctl.Host.{Env, M, Error, message, is_not_exist, ask_text, read_file, give}
use cnftctl.Durable.{rooted}
use cnftctl.Apply.Model.{
  File, ManifestEntry, Manifest, Change, Plan, create, update, Codec, generation_placeholder,
}

abbrev pub generation_prefix : Text
generation_prefix = codes "/var/lib/cnftctl/generations/"

abbrev pub marker_prefix : Text
marker_prefix = codes "cnftctl-owned:inet-hostfw:v1:generation:"

-- `normalizeGenerationReferences`
unfoldable pub normalize_generation_references : Text → Text
normalize_generation_references content =
    replace_references marker_prefix (marker_prefix ++ codes "{generation}") 0
      (replace_references generation_prefix generation_placeholder 0 content)

-- `isGenerationFile`
unfoldable pub is_generation_file : File → Bool
is_generation_file f =
    contains f.path (codes "/generations/") || contains f.content generation_prefix

abbrev pub file_mode : File → ℕ
file_mode f = if f.mode == 0 then 0o644 else f.mode

module _ (k : Codec) where
  abbrev pub entry : Text → File → ManifestEntry
  entry name f = record {
    path = name;
    mode = file_mode f % 512;
    sha256 = k.sha256_hex f.content;
    size = byte_len f.content;
  }

  -- The loop of `buildManifest`; `seen` holds the names so far.
  unfoldable pub manifest_entries : List Text → List File → Result Error (List ManifestEntry)
  manifest_entries seen [] = ok []
  manifest_entries seen (f ∷ files) =
      let name = base (clean f.path) in
      let rest = manifest_entries (name ∷ seen) files in
      if eqb name (codes ".") || eqb name (codes "/") || any (eqb name) seen
      then err (message "invalid or duplicate generation file")
      else (do entries ← rest; ok (entry name f ∷ entries))

  unfoldable pub by_base : File → File → Bool
  by_base a b = leq_text (base a.path) (base b.path)

  unfoldable pub build_manifest : List File → Result Error (Manifest × List File)
  unfolding manifest_entries by_base
  build_manifest files = do
    let sorted = sort by_base files
    entries ← manifest_entries [] sorted
    ok (record { version = 1; files = entries; ddns_desired = false }, sorted)

  abbrev pub normalized : File → File
  normalized f = record f { content = normalize_generation_references f.content }

  -- `buildSemanticManifest` with the DDNS intent set, and its hash.
  unfoldable pub semantic_generation : List File → Bool → Result Error Text
  semantic_generation files ddns = do
    (m, _) ← build_manifest (map normalized files)
    ok (k.sha256_hex (k.encode_manifest (record m { ddns_desired = ddns })))

  -- The bytes and the path of a file once the generation has its name.
  unfoldable pub materialize : Text → File → File
  materialize generation f =
      let content =
        replace_all (marker_prefix ++ codes "{generation}") (marker_prefix ++ generation) 0 (
          replace_all generation_placeholder (generation_prefix ++ generation) 0
            (normalize_generation_references f.content)) in
      let g : File = record f { content = content } in
      if is_generation_file g
      then record g { path = generation_prefix ++ (generation ++ (codes "/" ++ base f.path)) }
      else g

  unfoldable pub finalize_files : List File → Bool → Result Error (Text × List File)
  finalize_files files ddns = do
    generation ← semantic_generation files ddns
    ok (generation, map (materialize generation) files)

module _ (e : Env) (k : Codec) where
  -- The change of one file, from what reading it gave.
  unfoldable pub change_of : Text → File → Result Error Text → Result Error (List Change)
  change_of path f (ok before) =
      if eqb before f.content
      then ok []
      else ok (record { path = path; action = update; before = before; after = f.content } ∷ [])
  change_of path f (err x) =
      if is_not_exist x
      then ok (record { path = path; action = create; before = []; after = f.content } ∷ [])
      else err x

  abbrev planned_path : Text → Text → File → Text
  planned_path root generation f =
      if is_generation_file f
      then join_path (rooted root (generation_prefix ++ generation)) (base f.path)
      else rooted root f.path

  unfoldable pub plan_change : Text → Text → File → M (List Change)
  unfolding change_of
  plan_change root generation f =
      Host.◌>>=◌ (Host.try (ask_text e (read_file (planned_path root generation f))))
        λ before. give (change_of (planned_path root generation f) f before)

  unfoldable pub plan_changes : Text → Text → List File → M (List Change)
  unfolding plan_change
  plan_changes root generation [] = Host.return []
  plan_changes root generation (f ∷ files) =
      Host.◌>>=◌ (plan_change root generation f) λ change.
        Host.◌>>=◌ (plan_changes root generation files) λ rest. Host.return (change ++ rest)

  -- `PlanFilesWithDDNS`
  unfoldable pub plan_files : Text → List File → Bool → M Plan
  unfolding plan_changes
  plan_files root files ddns =
      Host.◌>>=◌ (give (finalize_files k files ddns)) λ (generation, finalized).
        Host.◌>>=◌ (plan_changes root generation finalized) λ changes. Host.return (record {
          changes = changes;
          would_load_nftables = not (is_empty changes);
          generation = generation;
        })
