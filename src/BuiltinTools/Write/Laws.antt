-- ===== src/BuiltinTools/Write/Laws.antt =====
-- What `WriteTool` of funera_builtin_tools/src/write.rs does to the files.
use funera.Dict.{get-insert, get-insert_self}
use funera.Prelude.{
  ◌≡◌, true, false, none, some, refl, arith, Option, Bool, String, not, str_eq, str_eq_refl,
}
use funera.Dict
use funera.BuiltinTools.Write.{
  Disk, execute, write_args, write_path, write_file, make_parent, after_failure, JsonOps, Result,
  Dict, ToolCallError, err, ok,
}

-- the call names no path, or another one
abbrev pub names_other : Option String → String → Bool
names_other none j = true
names_other (some path) j = not (str_eq path j)

-- what a call that answered `Ok` owes
abbrev pub is_held :
    {Json : Type 0} → Result String (ToolCallError Json) → Option String → Option String → Bool
is_held (err e) content found = true
is_held (ok text) none found = false
is_held (ok text) (some content) none = false
is_held (ok text) (some content) (some found) = str_eq content found

module _ {Json : Type 0} (json : JsonOps Json) (disk : Disk) where
  insert-other :
      (path content j : String) (files : Dict String)
      → not (str_eq path j) ≡ true
      → Dict.get j (Dict.insert path content files) ≡ Dict.get j files
  insert-other path content j files h = ground (arith, get-insert path j content files)

  after_failure-other :
      (path j : String) (o : Option String) (files : Dict String)
      → not (str_eq path j) ≡ true
      → Dict.get j (after_failure json disk path o files) ≡ Dict.get j files
  after_failure-other path j none files h = refl
  after_failure-other path j (some text) files h = insert-other path text j files h

  -- other files stay, and the path holds the content after `Ok`
  abbrev pub IsWritten :
      Option String
      → Option String
      → String
      → Dict String
      → Result String (ToolCallError Json) × Dict String
      → Type 0
  IsWritten path content j files r =
      (Dict.get j r.1 ≡ Dict.get j files)
      × (is_held r.0 content (elim path [ none ↦ none | some p ↦ Dict.get p r.1 ]) ≡ true)

  write_file-IsWritten :
      (path content j : String) (files : Dict String) (r : Result (Unit {0}) String)
      → not (str_eq path j) ≡ true
      → IsWritten (some path) (some content) j files (write_file json disk path content files r)
  write_file-IsWritten path content j files (err e) h =
      (after_failure-other path j (disk.partial path) files h, refl)
  write_file-IsWritten path content j files (ok u) h =
      (insert-other path content j files h, rw get-insert_self (str_eq_refl content))

  write_path-IsWritten :
      (path content j : String) (files : Dict String) (r : Result (Unit {0}) String)
      → not (str_eq path j) ≡ true
      → IsWritten (some path) (some content) j files (write_path json disk path content files r)
  write_path-IsWritten path content j files (err e) h = (refl, refl)
  write_path-IsWritten path content j files (ok u) h =
      write_file-IsWritten path content j files (disk.write path) h

  write_args-IsWritten :
      (p c : Option String) (j : String) (files : Dict String)
      → names_other p j ≡ true
      → IsWritten p c j files (write_args json disk p c files)
  write_args-IsWritten none c j files h = (refl, refl)
  write_args-IsWritten (some path) none j files h = (refl, refl)
  write_args-IsWritten (some path) (some content) j files h =
      write_path-IsWritten path content j files (make_parent json disk (disk.parent path)) h

  -- A call changes no file but the one that it names, and if it answers `Ok` that file holds the
  -- content of the call.
  pub execute-IsWritten :
      (args : Json) (j : String) (files : Dict String)
      → names_other (json.get_str args "filePath") j ≡ true
      → IsWritten
          (json.get_str args "filePath")
          (json.get_str args "content")
          j
          files
          (execute json disk args files)
  unfolding execute
  execute-IsWritten args j files h =
      write_args-IsWritten (json.get_str args "filePath") (json.get_str args "content") j files h
