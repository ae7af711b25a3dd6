-- ===== src/BuiltinTools/Edit/Execute.antt =====
-- `EditTool::execute` of funera_builtin_tools/src/edit.rs. The files are explicit state, and the calls of
-- the disk that may fail are given with the text of their errors. No answer stands for a panic.
use funera.Tool.Error.{ToolCallError, parameter_mismatch, tool_execution_error}
use funera.BuiltinTools.Edit.{Edit, ok}
use funera.Dict.{Dict}
use funera.Json.{JsonOps}
use funera.Events.{Result, err}
use funera.Prelude.{
  [], ◌∷◌, none, some, if◌then◌else◌, List, Option, ℕ, String, push_str, str_eq, concat,
}
use funera.BuiltinTools.Edit.Apply.{Applied, done, failed, panicked, apply_ops}
use funera.BuiltinTools.Edit.Report.{any_prefix, build_result_anchors}
use funera.Dict

pub record Disk : Type 0 where
  pub read_error : String → Option String
  pub not_found : String
  pub write_error : String → Option String
  -- what a write that fails leaves under the path, if it has changed it
  pub partial : String → Option String
  pub rename_error : String → String → Option String
  -- `path.parent().unwrap_or(".")` joined with the name `.{file name}.tmp`
  pub temp_file : String → String
  -- the length of a text in bytes, in decimal
  pub show_len : String → String

-- `args.get("edits").cloned().unwrap_or_default()`, and the derived `from_value`
pub record Patches (Json : Type 0) : Type 0 where
  pub edits_of : Json → Json
  pub from_value : Json → Result (List Edit) String

abbrev pub Answer : Type 0 → Type 0
Answer Json = Option (Result String (ToolCallError Json))

module _ {Json : Type 0} (json : JsonOps Json) (patches : Patches Json) (disk : Disk)
    (show : ℕ → String) (xxhash : String → ℕ) where
  abbrev mismatch : String → Answer Json
  mismatch text = some (err (parameter_mismatch (json.object (("error", json.string text) ∷ []))))

  abbrev failure : String → Answer Json
  failure text = some (err (tool_execution_error text))

  abbrev report : String → String → List Edit → Answer Json
  report path new_content edits = some (
      ok (
        concat (
          "Edited "
          ∷ path
          ∷ " ("
          ∷ disk.show_len new_content
          ∷ " bytes changed)\n"
          ∷ build_result_anchors show xxhash new_content edits
          ∷ [])))

  -- `rename`; what removes the temporary file after an error is a future that nobody awaits
  abbrev pub rename :
      String → String → List Edit → Dict String → Option String → Answer Json × Dict String
  rename path new_content edits files (some e) =
      (failure (push_str "cannot rename temp file: " e), files)
  rename path new_content edits files none = (
    report path new_content edits,
    Dict.insert path new_content (Dict.remove (disk.temp_file path) files),
  )

  abbrev pub after_failure : String → Option String → Dict String → Dict String
  after_failure path none files = files
  after_failure path (some text) files = Dict.insert path text files

  abbrev pub write_temp :
      String → String → List Edit → Dict String → Option String → Answer Json × Dict String
  write_temp path new_content edits files (some e) = (
    failure (push_str "cannot write temp file: " e),
    after_failure (disk.temp_file path) (disk.partial (disk.temp_file path)) files,
  )
  write_temp path new_content edits files none =
      rename path new_content edits (Dict.insert (disk.temp_file path) new_content files)
        (disk.rename_error (disk.temp_file path) path)

  abbrev pub changed :
      String → String → List Edit → Dict String → Applied String → Answer Json × Dict String
  changed path content edits files panicked = (none, files)
  changed path content edits files (failed e) = (failure e, files)
  changed path content edits files (done new_content) =
      if str_eq new_content content
      then (failure "[E_NOOP_LOOP] edit produced no changes", files)
      else write_temp path new_content edits files (disk.write_error (disk.temp_file path))

  abbrev pub with_content :
      String → List Edit → Dict String → Result String String → Answer Json × Dict String
  with_content path edits files (err e) = (failure (push_str "cannot read file: " e), files)
  with_content path edits files (ok content) =
      if any_prefix edits
      then (mismatch "[E_INVALID_PATCH] line contains LINE#HASH prefix", files)
      else changed path content edits files (apply_ops show xxhash content edits)

  abbrev pub read_file : Option String → Option String → Result String String
  read_file (some e) found = err e
  read_file none none = err disk.not_found
  read_file none (some content) = ok content

  abbrev pub with_edits :
      String → Dict String → Result (List Edit) String → Answer Json × Dict String
  with_edits path files (err e) = (mismatch (push_str "invalid edits: " e), files)
  with_edits path files (ok []) = (mismatch "no edits provided", files)
  with_edits path files (ok (edit ∷ edits)) =
      with_content path (edit ∷ edits) files
        (read_file (disk.read_error path) (Dict.get path files))

  abbrev pub with_path : Option String → Json → Dict String → Answer Json × Dict String
  with_path none args files = (mismatch "missing filePath", files)
  with_path (some path) args files =
      with_edits path files (patches.from_value (patches.edits_of args))

  unfoldable pub execute : Json → Dict String → Answer Json × Dict String
  execute args files = with_path (json.get_str args "filePath") args files
