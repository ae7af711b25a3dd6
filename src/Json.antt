-- ===== src/Json.antt =====
-- What the code uses of `serde_json`, a third-party crate: its operations are a parameter of the
-- model, over an abstract type of values.
use funera.Prelude.{ℕ, String, Bool, Option, List}

pub record JsonOps (Json : Type 0) : Type 0 where
  -- the parts of `json!({ … })`
  pub null : Json
  pub string : String → Json
  pub array : List Json → Json
  pub object : List (String × Json) → Json
  -- `serde_json::from_str(s).ok()` and `serde_json::to_string(v).ok()`
  pub from_str : String → Option Json
  pub to_str : Json → Option String
  -- `serde_json::to_vec(v).map(|v| v.len()).ok()`
  pub vec_len : Json → Option ℕ
  -- `v.get(key).and_then(|v| v.as_str())`, and `as_bool`
  pub get_str : Json → String → Option String
  pub get_bool : Json → String → Option Bool
  -- `format!("{}", v)`
  pub display : Json → String
