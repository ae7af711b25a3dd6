-- ===== src/Tests/Data.antt =====
-- Test data that several test modules share: JSON values as their texts.
use funera.Prelude.{none, some, if◌then◌else◌, String, str_eq}
use funera.Json.{JsonOps}

abbrev pub text_json : JsonOps String
text_json = record {
  null = "null";
  string = λ s. s;
  array = λ vs. "[]";
  object = λ fields. "{}";
  from_str = λ s. some s;
  to_str = λ v. some v;
  vec_len = λ v. some 2;
  get_str = λ v key. if str_eq v key then some v else none;
  get_bool = λ v key. none;
  display = λ v. v;
}
