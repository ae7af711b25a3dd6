-- ===== src/Tests/Files.antt =====
-- The read and write tools on concrete calls. Every hash is zero.
use funera.Events.{ok}
use funera.Tests.Data.{text_json}
use funera.Prelude.{
  ◌≡◌, ◌≤◌, ℕ, zero, suc, false, [], ◌∷◌, none, some, refl, arith, List, String, All,
}
use funera.Json.{JsonOps}
use funera.BuiltinTools.Read.{anchors, show_lines, tagged}
use funera.BuiltinTools.Read.Anchors.{IsAccepted, IsDecimal, show_lines-verify_anchor}
use funera.BuiltinTools.Str.{trim_end, parse_usize, parse_digits}
use funera.BuiltinTools.Str.Trimmed.{are_digits}
use funera.BuiltinTools.Write.{Disk, execute}
use funera.BuiltinTools.Write.Laws.{IsWritten, execute-IsWritten}

abbrev three : List String
three = "a" ∷ "b" ∷ "c" ∷ []

-- the decimal print of the numbers up to 3
abbrev show : ℕ → String
show zero = "0"
show (suc zero) = "1"
show (suc (suc zero)) = "2"
show (suc (suc (suc n))) = "3"

show-IsDecimal : (k : ℕ) → k ≤ 3 → IsDecimal show k
unfolding are_digits parse_usize parse_digits
show-IsDecimal zero h = record { digits = refl; full = refl; parsed = refl }
show-IsDecimal (suc zero) h = record { digits = refl; full = refl; parsed = refl }
show-IsDecimal (suc (suc zero)) h = record { digits = refl; full = refl; parsed = refl }
show-IsDecimal (suc (suc (suc zero))) h = record { digits = refl; full = refl; parsed = refl }
show-IsDecimal (suc (suc (suc (suc n)))) h = absurd (omega (arith, h))

show_lines-verify_anchor_example :
    (show_lines show (λ s. 0) false three 1 3
      ≡ trim_end (tagged show (λ s. 0) (anchors show (λ s. 0) three 1 2)))
    × All (IsAccepted show (λ s. 0) three) (anchors show (λ s. 0) three 1 2)
show_lines-verify_anchor_example =
    show_lines-verify_anchor show (λ s. 0) three 1 3 show-IsDecimal (omega arith) (omega arith)

-- every argument of a call is the text of the call
abbrev any_json : JsonOps String
any_json = record text_json { get_str = λ v key. some v }

abbrev disk : Disk
disk = record {
  parent = λ p. none;
  create_dir_all = λ p. ok tt;
  write = λ p. ok tt;
  partial = λ p. none;
  show_len = λ s. "1";
}

execute-IsWritten_example :
    IsWritten any_json disk
      (some "f")
      (some "f")
      "g"
      (("g", "old") ∷ [])
      (execute any_json disk "f" (("g", "old") ∷ []))
execute-IsWritten_example = execute-IsWritten any_json disk "f" "g" (("g", "old") ∷ []) refl
