-- ===== src/Types/Cursor.antt =====
-- crates/amk-types/src/page.rs: the cursor behind a page token. What it takes from base64, `serde_json`,
-- `chrono` and `uuid` is the record `Codec`.
use agent_mail_kit.Prelude.{
  ℕ, String, Option, none, some, List, [], ◌∷◌, ◌==◌, string_eq, Result, ok, err, if◌then◌else◌,
}
use agent_mail_kit.Types.Str.{Text}

-- A JSON value in an object; those that are no string, and that no cursor carries, are one.
pub data Value : Type 0 where
  string : Text → Value
  another : Value

-- The map of a JSON object.
abbrev pub Cursor : Type 0
Cursor = List (String × Value)

-- A JSON document.
pub data Json : Type 0 where
  object : Cursor → Json
  scalar : Json

-- The texts that tokens are, and the bytes below their base64, are opaque.
pub record Codec : Type 1 where
  pub Token : Type 0
  pub Bytes : Type 0
  pub base64_encode : Bytes → Token
  pub base64_decode : Token → Option Bytes
  pub to_vec : Cursor → Bytes
  pub from_slice : Bytes → Option Json
  pub to_rfc3339 : ℕ → Text
  pub parse_from_rfc3339 : Text → Option ℕ
  pub uuid_to_string : ℕ → Text
  pub parse_uuid : Text → Option ℕ

pub data CursorError : Type 0 where
  base64 json not_an_object : CursorError

-- `Map::insert`
unfoldable pub with : Cursor → String → Value → Cursor
with [] key value = (key, value) ∷ []
with ((k, v) ∷ rest) key value =
    if k == key then (key, value) ∷ rest else (k, v) ∷ with rest key value

-- `Map::get`
unfoldable pub value_at : Cursor → String → Option Value
value_at [] key = none
value_at ((k, v) ∷ rest) key = if k == key then some v else value_at rest key

-- `Value::as_str`
abbrev pub as_text : Option Value → Option Text
as_text (some (string s)) = some s
as_text (some another) = none
as_text none = none

unfoldable pub get_str : Cursor → String → Option Text
unfolding value_at
get_str cursor key = as_text (value_at cursor key)

unfoldable pub object_of : Option Json → Result Cursor CursorError
object_of none = err CursorError.json
object_of (some (object map)) = ok map
object_of (some scalar) = err CursorError.not_an_object

module _ (c : Codec) where
  unfoldable pub encode : Cursor → c.Token
  encode cursor = c.base64_encode (c.to_vec cursor)

  -- `decode` once the base64 is undone.
  unfoldable pub parsed : Option c.Bytes → Result Cursor CursorError
  parsed none = err CursorError.base64
  parsed (some bytes) = object_of (c.from_slice bytes)

  unfoldable pub decode : c.Token → Result Cursor CursorError
  unfolding parsed object_of
  decode token = parsed (c.base64_decode token)
