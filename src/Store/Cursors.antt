-- ===== src/Store/Cursors.antt =====
-- crates/amk-store/src/pagination.rs: the cursors of message and thread pages. A time is its
-- milliseconds, which is what a cursor keeps of it.
pub mod Tokens
use agent_mail_kit.Prelude.{
  ℕ, String, Bool, true, false, not, Option, none, some, [], ◌∷◌, Result, ok, err, ◌>>=◌, ◌>>◌,
  if◌then◌else◌,
}
use agent_mail_kit.Types.Str.{Text}
use agent_mail_kit.Types.Ids.{
  InboxId, MessageId, ThreadId, has_forbidden_byte, normalized, eq_normalized,
}
use agent_mail_kit.Types.Cursor.{Codec, Cursor, string, CursorError, with, get_str, encode, decode}

-- The enum of crates/amk-store/src/error.rs.
pub data PageTokenError : Type 0 where
  base64 json not_an_object wrong_scope : PageTokenError
  missing_field wrong_type forbidden_byte : String → PageTokenError

-- `From<CursorError>`
unfoldable pub from_cursor_error : CursorError → PageTokenError
from_cursor_error CursorError.base64 = PageTokenError.base64
from_cursor_error CursorError.json = PageTokenError.json
from_cursor_error CursorError.not_an_object = PageTokenError.not_an_object

abbrev pub map_error : Result Cursor CursorError → Result Cursor PageTokenError
map_error (ok cursor) = ok cursor
map_error (err e) = err (from_cursor_error e)

-- `ok_or`
abbrev pub or_error {ℓ} : {A : Type ℓ} → PageTokenError → Option A → Result A PageTokenError
or_error e none = err e
or_error e (some a) = ok a

unfoldable pub check_inbox_scope : InboxId → Option InboxId → Result (Unit {0}) PageTokenError
check_inbox_scope token_inbox none = ok tt
check_inbox_scope token_inbox (some p) =
    if not (eq_normalized token_inbox p) then err wrong_scope else ok tt

pub record MessageCursor : Type 0 where
  pub message_id : MessageId
  pub inbox_id : InboxId
  pub timestamp : ℕ

pub record ThreadCursor : Type 0 where
  pub thread_id : ThreadId
  pub inbox_id : InboxId
  pub timestamp : ℕ

module _ (c : Codec) where
  unfoldable pub decode_timestamp : Text → String → Result ℕ PageTokenError
  decode_timestamp raw field = or_error (wrong_type field) (c.parse_from_rfc3339 raw)

  -- The map that `MessageCursor::encode` builds.
  unfoldable pub message_map : MessageCursor → Cursor
  message_map m =
      with (with (with [] "message_id" (string m.message_id)) "inbox_id" (string m.inbox_id))
        "timestamp" (string (c.to_rfc3339 m.timestamp))

  unfoldable pub encode_message : MessageCursor → c.Token
  unfolding message_map
  encode_message m = encode c (message_map m)

  unfoldable pub decode_message : c.Token → Option InboxId → Result MessageCursor PageTokenError
  unfolding decode_timestamp
  decode_message token pinned_inbox = do
    cursor ← map_error (decode c token)
    message_id ← or_error (missing_field "message_id") (get_str cursor "message_id")
    inbox_id_raw ← or_error (missing_field "inbox_id") (get_str cursor "inbox_id")
    ts_raw ← or_error (missing_field "timestamp") (get_str cursor "timestamp")
    if has_forbidden_byte message_id
        then err (forbidden_byte "message_id")
        else if has_forbidden_byte inbox_id_raw
        then err (forbidden_byte "inbox_id")
        else do
          timestamp ← decode_timestamp ts_raw "timestamp"
          check_inbox_scope (normalized inbox_id_raw) pinned_inbox
              >> ok (record {
                message_id = message_id;
                inbox_id = normalized inbox_id_raw;
                timestamp = timestamp;
              })

  unfoldable pub thread_map : ThreadCursor → Cursor
  thread_map t =
      with
        (with (with [] "thread_id" (string (c.uuid_to_string t.thread_id))) "inbox_id"
          (string t.inbox_id))
        "timestamp" (string (c.to_rfc3339 t.timestamp))

  unfoldable pub encode_thread : ThreadCursor → c.Token
  unfolding thread_map
  encode_thread t = encode c (thread_map t)

  unfoldable pub decode_thread : c.Token → Option InboxId → Result ThreadCursor PageTokenError
  unfolding decode_timestamp
  decode_thread token pinned_inbox = do
    cursor ← map_error (decode c token)
    thread_id_raw ← or_error (missing_field "thread_id") (get_str cursor "thread_id")
    inbox_id_raw ← or_error (missing_field "inbox_id") (get_str cursor "inbox_id")
    ts_raw ← or_error (missing_field "timestamp") (get_str cursor "timestamp")
    if has_forbidden_byte inbox_id_raw then err (forbidden_byte "inbox_id") else do
      timestamp ← decode_timestamp ts_raw "timestamp"
      thread_id ← or_error (wrong_type "thread_id") (c.parse_uuid thread_id_raw)
      check_inbox_scope (normalized inbox_id_raw) pinned_inbox
          >> ok (record {
            thread_id = thread_id;
            inbox_id = normalized inbox_id_raw;
            timestamp = timestamp;
          })
