-- ===== src/Ddns/Stored.antt =====
-- `SaveMetadata`: the metadata take their name only with their whole text flushed.
use cnftctl.Base.{[], ◌∷◌, ◌++◌, Text, codes, dir, some, ◌≡◌}
use cnftctl.Host.{Env, mkdir_all, create_temp}
use cnftctl.Host.Trace.{Only-perform, Only-ask_text}
use cnftctl.Host.Hoare.{Run, Run-bind, Post-same}
use cnftctl.Host.Guard.{IsGuarded}
use cnftctl.Durable.Flushed.{NeedFlushed, quiet, replace-Run}
use cnftctl.Ddns.Metadata.{Metadata, Json, replace_metadata, save_metadata}

module _ (e : Env) (j : Json) where
  replace_metadata-Run :
      (path text : Text)
      → Run
          (IsGuarded (NeedFlushed text))
          (replace_metadata e j path text)
          (λ _. IsGuarded (NeedFlushed text))
          (IsGuarded (NeedFlushed text))
  unfolding replace_metadata
  replace_metadata-Run path text =
      Run-bind (quiet e text (Only-perform e (mkdir_all (dir path) 0o700) (tt {0}))) λ _.
        Run-bind
          (quiet e text
            (Only-ask_text e (create_temp (dir path) (codes ".ddns-runtime-*")) (tt {0})))
          λ tmp. replace-Run e tmp path text 0o600

  -- Whatever the machine answers, if the metadata have a text then `SaveMetadata` renames a
  -- temporary file into place only after that text and a line break were written to it and the
  -- file was flushed and closed, each with success.
  pub save_metadata-IsGuarded :
      (path : Text) (m : Metadata) (text : Text)
      → j.encode m ≡ some text
      → IsGuarded (NeedFlushed (text ++ (b'\n' ∷ []))) (save_metadata e j path m []).1
  unfolding save_metadata
  save_metadata-IsGuarded path m text h = rw h (
      Post-same _ (replace_metadata e j path (text ++ (b'\n' ∷ [])) [])
        ((replace_metadata-Run path (text ++ (b'\n' ∷ []))).holds [] tt))
