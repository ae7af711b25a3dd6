-- ===== src/BuiltinTools/Edit/Atomic.antt =====
-- What `EditTool::execute` of funera_builtin_tools/src/edit.rs does to the files.
use funera.BuiltinTools.Edit.{Edit, err, ok}
use funera.Json.{JsonOps}
use funera.Prelude.{◌≡◌, false, none, some, List, ℕ, String, str_eq}
use funera.Dict
use funera.Dict.{Dict}
use funera.BuiltinTools.Edit.Apply.{done, apply_ops}
use funera.BuiltinTools.Edit.Execute.{Disk, Patches, Answer}

module _ {Json : Type 0} (json : JsonOps Json) (patches : Patches Json) (disk : Disk)
    (show : ℕ → String) (xxhash : String → ℕ) where
  -- after `Ok` the file holds its old content with the edits applied, which is another text, and there
  -- is no temporary file; after an error or a panic it holds what it held
  abbrev pub IsHeld : String → Json → Dict String → Answer Json → Dict String → Type 0
  IsHeld path args files none after = Dict.get path after ≡ Dict.get path files
  IsHeld path args files (some (err e)) after = Dict.get path after ≡ Dict.get path files
  IsHeld path args files (some (ok text)) after =
      (edits : List Edit) × (old : String) × (new : String) × (patches.from_value
          (patches.edits_of args)
        ≡ ok edits)
      × (Dict.get path files ≡ some old)
      × (apply_ops show xxhash old edits ≡ done new)
      × (str_eq new old ≡ false)
      × (Dict.get path after ≡ some new)
      × (Dict.get (disk.temp_file path) after ≡ none)

  abbrev pub IsAtomic : String → Json → String → Dict String → Answer Json × Dict String → Type 0
  IsAtomic path args j files r =
      (Dict.get j r.1 ≡ Dict.get j files) × IsHeld path args files r.0 r.1
