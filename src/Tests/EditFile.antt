-- ===== src/Tests/EditFile.antt =====
-- An edit of a file where the rename fails, and a line with its anchor.
use funera.Dict.{Dict}
use funera.Events.{ok}
use funera.Prelude.{[], ◌∷◌, ◌≡◌, true, none, some, refl, String}
use funera.BuiltinTools.Edit.{Edit, replace_text}
use funera.BuiltinTools.Edit.Execute.{Disk, Patches}
use funera.BuiltinTools.Edit.Pasted.{lacks, has_prefix-format_line_trimmed}
use funera.BuiltinTools.Edit.Report.{has_prefix}
use funera.BuiltinTools.Hashline.{format_line_trimmed}
use funera.BuiltinTools.Read.{anchor_at}

abbrev edit : Edit
edit = record {
  operation = replace_text;
  pos = none;
  end = none;
  lines = [];
  old_text = some "one";
  new_text = some "1";
}

abbrev patches : Patches String
patches = record { edits_of = λ args. args; from_value = λ v. ok (edit ∷ []) }

abbrev disk : Disk
disk = record {
  read_error = λ path. none;
  not_found = "no such file";
  write_error = λ path. none;
  partial = λ path. none;
  rename_error = λ temp path. some "busy";
  temp_file = λ path. ".filePath.tmp";
  show_len = λ s. "6";
}

abbrev files : Dict String
files = ("filePath", "one\ntwo\n") ∷ ("other", "") ∷ []

has_prefix-format_line_trimmed_example :
    has_prefix
      (format_line_trimmed (λ n. "12") 12 (anchor_at (λ s. 77) ("let x = 1;" ∷ []) 0) "let x = 1;")
    ≡ true
unfolding lacks
has_prefix-format_line_trimmed_example =
    has_prefix-format_line_trimmed (λ n. "12") (λ s. 77) ("let x = 1;" ∷ []) 0 12 "let x = 1;" refl
