-- ===== src/Tests/Edit.antt =====
-- Runs of the edit tool on small files. Every hash is zero, so every anchor is `ZZ`.
use funera.Events.{ok}
use funera.BuiltinTools.Hashline.{compute_anchor, compute_hash, hash_to_anchor}
use funera.Prelude.{[], ◌∷◌, ◌≡◌, none, some, refl, List, ℕ, String, sort_by_key, push_str}
use funera.BuiltinTools.Edit.{
  Edit, append, replace, check_edits, check_edit, check_anchored, check_end, verify_anchor,
  parse_anchor,
}
use funera.BuiltinTools.Edit.Apply.{
  apply_ops, apply_all, apply_op, done, panicked, insert_at, insert, splice, from_last,
}
use funera.BuiltinTools.Edit.Laws.{IsBelow}
use funera.BuiltinTools.Edit.Checked.{apply_all-check_edits}
use funera.BuiltinTools.Str.{
  lines, ends_with_newline, trim_start, trim_end, split_once, parse_usize, parse_digits,
}

abbrev show_one : ℕ → String
show_one n = "1"

abbrev zero_hash : String → ℕ
zero_hash s = 0

abbrev append_at : String → List String → Edit
append_at anchor new = record {
  operation = append;
  pos = some anchor;
  end = none;
  lines = new;
  old_text = none;
  new_text = none;
}

abbrev remove_at : String → Edit
remove_at anchor = record (append_at anchor []) { operation = replace }

abbrev patch : List Edit
patch = append_at "2#ZZ" ("x" ∷ "y" ∷ []) ∷ remove_at "3#ZZ" ∷ []

checked :
    check_edits show_one zero_hash ("a" ∷ "b" ∷ "c" ∷ []) patch
    ≡ ok ((2, append_at "2#ZZ" ("x" ∷ "y" ∷ [])) ∷ (3, remove_at "3#ZZ") ∷ [])
unfolding push_str check_edits check_edit check_anchored check_end verify_anchor parse_anchor
    trim_start trim_end split_once parse_usize parse_digits compute_anchor compute_hash
    hash_to_anchor
checked = refl

applied : apply_ops show_one zero_hash "a\nb\nc\n" patch ≡ done "a\nb\nx\ny\n"
unfolding apply_ops lines ends_with_newline check_edits check_edit check_anchored check_end
    verify_anchor parse_anchor trim_start trim_end split_once parse_usize parse_digits
    compute_anchor compute_hash hash_to_anchor apply_all apply_op insert_at insert splice
    sort_by_key push_str
applied = refl

-- the only line is removed before the append that is anchored to it
underflow :
    apply_ops show_one zero_hash "a" (append_at "1#ZZ" ("x" ∷ []) ∷ remove_at "1#ZZ" ∷ [])
    ≡ panicked
unfolding apply_ops lines ends_with_newline check_edits check_edit check_anchored check_end
    verify_anchor parse_anchor trim_start trim_end split_once parse_usize parse_digits
    compute_anchor compute_hash hash_to_anchor apply_all apply_op insert_at insert splice
    sort_by_key push_str
underflow = refl

apply_all-check_edits_example : IsBelow 1 ("a" ∷ "b" ∷ "c" ∷ []) (
    apply_all
      (from_last ((2, append_at "2#ZZ" ("x" ∷ "y" ∷ [])) ∷ (3, remove_at "3#ZZ") ∷ []))
      ("a" ∷ "b" ∷ "c" ∷ []))
apply_all-check_edits_example =
    apply_all-check_edits show_one zero_hash 1 ("a" ∷ "b" ∷ "c" ∷ []) patch
      ((2, append_at "2#ZZ" ("x" ∷ "y" ∷ [])) ∷ (3, remove_at "3#ZZ") ∷ []) checked refl
