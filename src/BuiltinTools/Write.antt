-- ===== src/BuiltinTools/Write.antt =====
-- `WriteTool` of funera_builtin_tools/src/write.rs. The file system is explicit state.
pub mod Laws
use funera.Tool.Error.{ToolCallError, parameter_mismatch, tool_execution_error}
use funera.Dict.{Dict}
use funera.Json.{JsonOps}
use funera.Events.{Result, ok, err}
use funera.Prelude.{[], ◌∷◌, none, some, Option, String, push_str, concat}
use funera.Dict

-- what the tool asks of the disk: the parent of a path, and the two calls that may fail
pub record Disk : Type 0 where
  pub parent : String → Option String
  pub create_dir_all : String → Result (Unit {0}) String
  pub write : String → Result (Unit {0}) String
  -- what a write that fails leaves under the path, if it has changed it
  pub partial : String → Option String
  -- the length of a text in bytes, in decimal
  pub show_len : String → String

module _ {Json : Type 0} (json : JsonOps Json) (disk : Disk) where
  abbrev mismatch : String → ToolCallError Json
  mismatch text = parameter_mismatch (json.object (("error", json.string text) ∷ []))

  abbrev after_failure : String → Option String → Dict String → Dict String
  after_failure path none files = files
  after_failure path (some text) files = Dict.insert path text files

  abbrev write_file :
      String
      → String
      → Dict String
      → Result (Unit {0}) String
      → Result String (ToolCallError Json) × Dict String
  write_file path content files (err e) = (
    err (tool_execution_error (push_str "cannot write file: " e)),
    after_failure path (disk.partial path) files,
  )
  write_file path content files (ok u) = (
    ok (concat ("Successfully wrote " ∷ disk.show_len content ∷ " bytes to " ∷ path ∷ [])),
    Dict.insert path content files,
  )

  abbrev make_parent : Option String → Result (Unit {0}) String
  make_parent none = ok tt
  make_parent (some dir) = disk.create_dir_all dir

  abbrev write_path :
      String
      → String
      → Dict String
      → Result (Unit {0}) String
      → Result String (ToolCallError Json) × Dict String
  write_path path content files (err e) =
      (err (tool_execution_error (push_str "cannot create parent directories: " e)), files)
  write_path path content files (ok u) = write_file path content files (disk.write path)

  abbrev write_args :
      Option String → Option String → Dict String → Result String (ToolCallError Json) × Dict String
  write_args none content files = (err (mismatch "missing filePath"), files)
  write_args (some path) none files = (err (mismatch "missing content"), files)
  write_args (some path) (some content) files =
      write_path path content files (make_parent (disk.parent path))

  unfoldable pub execute : Json → Dict String → Result String (ToolCallError Json) × Dict String
  execute args files = write_args (json.get_str args "filePath") (json.get_str args "content") files
