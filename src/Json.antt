-- ===== src/Json.antt =====
-- What the program uses of nlohmann::json. The library is not part of the repository: its values and
-- operations are a parameter, and `JsonLaws` states the documented behaviour that proofs rely on.
use http2_server.Prelude.{Option, some, Bool, List, ◌≡◌}
use http2_server.Prelude.Text.{Text, text_eq}
use http2_server.Prelude.Int.{ℤ}
use http2_server.Prelude.Map.{Map, lookup}

pub record JsonLib : Type 1 where
  pub Value : Type 0
  -- `json::parse`; `none` is the exception `parse_error`.
  pub parse : Text → Option Value
  -- `std::string s = j["key"]`; `none` is the exception `type_error`.
  pub get_string : Value → Text → Option Text
  -- `int n = j["key"]`; `none` is the exception `type_error`.
  pub get_int : Value → Text → Option ℤ
  pub string_value : Text → Value
  pub int_value : ℤ → Value
  pub bool_value : Bool → Value
  -- An initializer list of pairs.
  pub object : Map Text Value → Value
  -- The entries over which `data.items()` ranges.
  pub items : Value → List (Text × Value)
  -- `j[key] = v`
  pub set_item : Value → Text → Value → Value
  -- `j.dump()`; `none` is the exception for a string that is not UTF-8.
  pub dump : Value → Option Text

pub record JsonLaws (J : JsonLib) : Type 0 where
  -- A dumped object is parsed back.
  pub parse-dump :
      (fields : Map Text J.Value) (t : Text)
      → J.dump (J.object fields) ≡ some t
      → J.parse t ≡ some (J.object fields)
  pub get_string-object :
      (fields : Map Text J.Value) (k s : Text)
      → lookup k fields ≡ some (J.string_value s)
      → J.get_string (J.object fields) k ≡ some s
  pub get_int-object :
      (fields : Map Text J.Value) (k : Text) (n : ℤ)
      → lookup k fields ≡ some (J.int_value n)
      → J.get_int (J.object fields) k ≡ some n
