-- ===== src/Env/Skills/Load/Format.antt =====
-- The format of a skill file, which `Skill::from_str` of funera_core/src/re_act/skills.rs reads.
use funera.BuiltinTools.Str.Trimmed.{IsTrimmed, push_str-IsTrimmed}
use funera.Prelude.{
  ◌&&◌, true, Bool, String, not, push_str, ◌≡◌, false, some, arith, cons-push_str, is_empty,
  nil-push_str, &&-eq-true,
}
use funera.BuiltinTools.Str.{trim, trim_start, trim_end, is_char}
use funera.Env.Skills.Load.{
  from_str, split_fence, dashes, SkillFrontmatter, skill_of, fenced, Result,
}
use funera.Prelude.{refl, sym, ap, ◌∙◌}
use Prim.Native.Char.{Char}

-- no line of the text begins with `-`, the first one included if the flag is set
unfoldable pub dashless : Bool → String → Bool
dashless start String.[] = true
dashless start (String.◌∷◌ c s) = not (start && is_char 45 c) && dashless (is_char 10 c) s

abbrev newline : Char
newline = "\n"

-- what follows the front matter: the fence, and the body in the next line
abbrev pub closing : String → String
closing body = push_str "\n---" (push_str "\n" body)

closing-cons :
    (body : String)
    → closing body
      ≡ String.◌∷◌ newline (String.◌∷◌ "-" (String.◌∷◌ "-" (String.◌∷◌ "-" (push_str "\n" body))))
closing-cons body = rw cons-push_str (
    rw cons-push_str
      (rw cons-push_str (rw cons-push_str (rw (nil-push_str (push_str "\n" body)) refl))))

not-eq : (b : Bool) → not b ≡ true → b ≡ false
not-eq b h = ground arith

closing-dashes :
    (s body : String) → dashless true s ≡ true → dashes 3 (push_str s (closing body)) ≡ false
unfolding dashless
closing-dashes String.[] body h = rw (nil-push_str (closing body)) (rw closing-cons refl)
closing-dashes (String.◌∷◌ c s) body h = rw (cons-push_str c s (closing body)) (
    rw (not-eq (is_char 45 c) (&&-eq-true (not (is_char 45 c)) (dashless (is_char 10 c) s) h).0)
      refl)

no_fence :
    (b : Bool) (s body : String)
    → dashless b s ≡ true
    → (b && dashes 3 (push_str s (closing body))) ≡ false
no_fence true s body h = closing-dashes s body h
no_fence false s body h = refl

split_fence-closing :
    (start : Bool) (yaml body : String)
    → dashless start yaml ≡ true
    → split_fence (push_str yaml (closing body)) ≡ some (yaml, push_str "\n" body)
unfolding split_fence dashless
split_fence-closing start String.[] body h = rw (nil-push_str (closing body)) (rw closing-cons refl)
split_fence-closing start (String.◌∷◌ c s) body h =
    let rest = (&&-eq-true (not (start && is_char 45 c)) (dashless (is_char 10 c) s) h).1 in
    rw (cons-push_str c s (closing body)) (
      rw (no_fence (is_char 10 c) s body rest)
        (rw (split_fence-closing (is_char 10 c) s body rest) refl))

-- the text of a skill file
abbrev pub file_text : String → String → String
file_text yaml body = push_str "---" (push_str "\n" (push_str yaml (closing body)))

-- its characters up to the front matter
abbrev opened : String → String → String
opened yaml body =
    String.◌∷◌ "-"
      (String.◌∷◌ "-" (String.◌∷◌ "-" (String.◌∷◌ newline (push_str yaml (closing body)))))

newline-push_str : (s : String) → push_str "\n" s ≡ String.◌∷◌ newline s
newline-push_str s = cons-push_str newline "" s ∙ ap (String.◌∷◌ newline) (nil-push_str s)

file_text-opened : (yaml body : String) → file_text yaml body ≡ opened yaml body
file_text-opened yaml body = rw (newline-push_str (push_str yaml (closing body))) (
    rw (cons-push_str "-" "--" (String.◌∷◌ newline (push_str yaml (closing body)))) (
      rw (cons-push_str "-" "-" (String.◌∷◌ newline (push_str yaml (closing body)))) (
        rw (cons-push_str "-" "" (String.◌∷◌ newline (push_str yaml (closing body))))
          (rw (nil-push_str (String.◌∷◌ newline (push_str yaml (closing body)))) refl))))

trim-file_text :
    (yaml body : String) → IsTrimmed body → trim (file_text yaml body) ≡ opened yaml body
unfolding trim_start
trim-file_text yaml body h =
    let kept = push_str-IsTrimmed "---" _ (
      push_str-IsTrimmed "\n" _ (
        push_str-IsTrimmed yaml _
          (push_str-IsTrimmed "\n---" _ (push_str-IsTrimmed "\n" body h)))) in
    let text = file_text-opened yaml body in ap trim text ∙ ap trim_end (sym text) ∙ kept.0 ∙ text

trim-newline : (s : String) → trim (String.◌∷◌ newline s) ≡ trim s
unfolding trim_start
trim-newline s = refl

-- A file with front matter of which no line begins with `-`, and a body that is not empty and has no
-- white space at its end, is read as the front matter, trimmed, for the YAML parser, and the body,
-- trimmed, as the content.
pub from_str-file_text :
    (from_yaml : String → Result SkillFrontmatter String) (yaml body : String)
    → dashless true yaml ≡ true
    → trim_end body ≡ body
    → is_empty body ≡ false
    → from_str from_yaml (file_text yaml body) ≡ skill_of (trim body) (from_yaml (trim yaml))
unfolding from_str dashless
from_str-file_text from_yaml yaml body h e f =
    let fence =
      ap split_fence (sym (cons-push_str newline yaml (closing body)))
      ∙ split_fence-closing false (String.◌∷◌ newline yaml) body h in
    rw (trim-file_text yaml body (e, f)) (
      ap (fenced from_yaml) fence
      ∙ ap (λ b. skill_of b (from_yaml (trim (String.◌∷◌ newline yaml))))
          (ap trim (newline-push_str body) ∙ trim-newline body)
      ∙ ap (λ y. skill_of (trim body) (from_yaml y)) (trim-newline yaml))
