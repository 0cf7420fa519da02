-- ===== src/Tests/Cursors.antt =====
-- Page tokens at concrete inputs, with tokens that are the cursors themselves.
use agent_mail_kit.Prelude.{
  if◌then◌else◌, err, ℕ, ◌≡◌, refl, Option, none, some, [], ◌∷◌, ok, contains,
}
use agent_mail_kit.Types.Str.{Text}
use agent_mail_kit.Types.Ids.{has_forbidden_byte, normalized}
use agent_mail_kit.Types.Cursor.{Codec, Cursor, object}
use agent_mail_kit.Store.Cursors.{
  wrong_scope, MessageCursor, ThreadCursor, encode_message, decode_message, encode_thread,
  decode_thread,
}
use agent_mail_kit.Store.Cursors.Tokens.{pins_another, CodecLaws, page_token_lem}
use agent_mail_kit.Tests.Samples.{upper_inbox, lower_inbox, root_id}

abbrev one : Text → Option ℕ
one [] = none
one (n ∷ []) = some n
one (m ∷ n ∷ s) = none

abbrev plain : Codec
plain = record {
  Token = Cursor;
  Bytes = Cursor;
  base64_encode = λ map. map;
  base64_decode = λ map. some map;
  to_vec = λ map. map;
  from_slice = λ map. some (object map);
  to_rfc3339 = λ t. t ∷ [];
  parse_from_rfc3339 = one;
  uuid_to_string = λ u. u ∷ [];
  parse_uuid = one;
}

plain_laws : CodecLaws plain
plain_laws = record {
  base64 = λ bytes. refl;
  json = λ map. (map, refl, λ key. refl);
  rfc3339 = λ t h. refl;
  uuid = λ u h. refl;
}

abbrev at_message : MessageCursor
at_message = record { message_id = root_id; inbox_id = upper_inbox; timestamp = 5 }

abbrev at_thread : ThreadCursor
at_thread = record { thread_id = 7; inbox_id = upper_inbox; timestamp = 5 }

page_token_lem_example :
    (decode_message plain (encode_message plain at_message) (some lower_inbox) ≡ (
      if pins_another upper_inbox (some lower_inbox)
      then err wrong_scope
      else ok (record at_message { inbox_id = normalized upper_inbox })))
    × (decode_thread plain (encode_thread plain at_thread) (some lower_inbox) ≡ (
        if pins_another upper_inbox (some lower_inbox)
        then err wrong_scope
        else ok (record at_thread { inbox_id = normalized upper_inbox })))
unfolding has_forbidden_byte contains
page_token_lem_example =
    page_token_lem plain plain_laws at_message at_thread (some lower_inbox) refl refl refl refl refl
      refl
