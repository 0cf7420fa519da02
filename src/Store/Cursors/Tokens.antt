-- ===== src/Store/Cursors/Tokens.antt =====
-- crates/amk-store/src/pagination.rs: what a page token is read back as.
use agent_mail_kit.Prelude.{
  Bool, true, not, ◌==◌, nat_eq, list_eq, list_beq_iff, if◌then◌else◌, arith, err, ltb, ◌^◌, ℕ, ◌≡◌,
  refl, ap, ◌∙◌, false, Option, none, some, ok, ◌>>◌,
}
use agent_mail_kit.Types.Ids.{InboxId, has_forbidden_byte, normalized}
use agent_mail_kit.Types.Ids.Folding.{
  eq_normalized-normalized, eq_normalized_comm, eq_normalized_iff,
}
use agent_mail_kit.Types.Cursor.{
  Codec, Cursor, object, with, get_str, encode, decode, parsed, object_of,
}
use agent_mail_kit.Store.Cursors.{
  wrong_scope, check_inbox_scope, MessageCursor, ThreadCursor, decode_timestamp, message_map,
  encode_message, decode_message, thread_map, encode_thread, decode_thread,
}

-- The first millisecond whose year has five digits, which RFC 3339 does not write.
abbrev pub year_10000 : ℕ
year_10000 = 253402300800000

-- What the libraries promise: each reader undoes its writer, a JSON object up to the order of its keys.
pub record CodecLaws (c : Codec) : Type 0 where
  pub base64 : (bytes : c.Bytes) → c.base64_decode (c.base64_encode bytes) ≡ some bytes
  pub json :
      (map : Cursor)
      → (again : Cursor) × (c.from_slice (c.to_vec map) ≡ some (object again))
        × ((key : _) → get_str again key ≡ get_str map key)
  pub rfc3339 : (t : ℕ) → ltb t year_10000 ≡ true → c.parse_from_rfc3339 (c.to_rfc3339 t) ≡ some t
  pub uuid : (u : ℕ) → ltb u (2 ^ 128) ≡ true → c.parse_uuid (c.uuid_to_string u) ≡ some u

check_inbox_scope-normalized :
    (i : InboxId) (pinned : Option InboxId)
    → check_inbox_scope (normalized i) pinned ≡ check_inbox_scope i pinned
unfolding check_inbox_scope
check_inbox_scope-normalized i none = refl
check_inbox_scope-normalized i (some p) =
    rw (eq_normalized_comm (normalized i) p, eq_normalized-normalized p i, eq_normalized_comm p i)
      refl

-- Another inbox than the token's is pinned: their normal spellings differ.
abbrev pub pins_another : InboxId → Option InboxId → Bool
pins_another inbox none = false
pins_another inbox (some pinned) = not (normalized pinned == normalized inbox)

check_inbox_scope_lem :
    {A : Type 0} (inbox : InboxId) (pinned : Option InboxId) (a : A)
    → (check_inbox_scope inbox pinned >> ok a)
      ≡ (if pins_another inbox pinned then err wrong_scope else ok a)
unfolding check_inbox_scope
check_inbox_scope_lem inbox none a = refl
check_inbox_scope_lem inbox (some p) a =
    ground (arith, eq_normalized_iff inbox p, list_beq_iff (normalized p) (normalized inbox))

module _ (c : Codec) (laws : CodecLaws c) where
  decode-encode :
      (map : Cursor)
      → (again : Cursor) × (decode c (encode c map) ≡ ok again)
        × ((key : _) → get_str again key ≡ get_str map key)
  unfolding decode encode parsed object_of
  decode-encode map =
      let (again, read, same) = laws.json map in
      (again, ap (parsed c) (laws.base64 (c.to_vec map)) ∙ ap object_of read, same)

  message_fields :
      (m : MessageCursor)
      → (get_str (message_map c m) "message_id" ≡ some m.message_id)
        × (get_str (message_map c m) "inbox_id" ≡ some m.inbox_id)
        × (get_str (message_map c m) "timestamp" ≡ some (c.to_rfc3339 m.timestamp))
  unfolding message_map get_str with
  message_fields m = (refl, refl, refl)

  thread_fields :
      (t : ThreadCursor)
      → (get_str (thread_map c t) "thread_id" ≡ some (c.uuid_to_string t.thread_id))
        × (get_str (thread_map c t) "inbox_id" ≡ some t.inbox_id)
        × (get_str (thread_map c t) "timestamp" ≡ some (c.to_rfc3339 t.timestamp))
  unfolding thread_map get_str with
  thread_fields t = (refl, refl, refl)

  decode_message-encode_message :
      (m : MessageCursor) (pinned : Option InboxId)
      → has_forbidden_byte m.message_id ≡ false
      → has_forbidden_byte m.inbox_id ≡ false
      → ltb m.timestamp year_10000 ≡ true
      → decode_message c (encode_message c m) pinned ≡ (
          check_inbox_scope m.inbox_id pinned >> ok (record m { inbox_id = normalized m.inbox_id }))
  unfolding decode_message encode_message decode_timestamp
  decode_message-encode_message m pinned clean clean_inbox dated =
      let (again, read, same) = decode-encode (message_map c m) in
      let (id, inbox, time) = message_fields m in
      rw
        (
          read,
          same "message_id" ∙ id,
          same "inbox_id" ∙ inbox,
          same "timestamp" ∙ time,
          clean,
          clean_inbox,
          laws.rfc3339 m.timestamp dated,
          check_inbox_scope-normalized m.inbox_id pinned,
        )
        refl

  decode_thread-encode_thread :
      (t : ThreadCursor) (pinned : Option InboxId)
      → has_forbidden_byte t.inbox_id ≡ false
      → ltb t.timestamp year_10000 ≡ true
      → ltb t.thread_id (2 ^ 128) ≡ true
      → decode_thread c (encode_thread c t) pinned ≡ (
          check_inbox_scope t.inbox_id pinned >> ok (record t { inbox_id = normalized t.inbox_id }))
  unfolding decode_thread encode_thread decode_timestamp
  decode_thread-encode_thread t pinned clean dated id_fits =
      let (again, read, same) = decode-encode (thread_map c t) in
      let (id, inbox, time) = thread_fields t in
      rw
        (
          read,
          same "thread_id" ∙ id,
          same "inbox_id" ∙ inbox,
          same "timestamp" ∙ time,
          clean,
          laws.rfc3339 t.timestamp dated,
          laws.uuid t.thread_id id_fits,
          check_inbox_scope-normalized t.inbox_id pinned,
        )
        refl

  -- A token that was made for a message or a thread of one inbox is read back, in the inbox's stored
  -- spelling, where no inbox or this inbox is pinned, however that is spelled, and refused as out of
  -- scope where one with another normal spelling is. The ids are assumed to have no NUL, the thread's to be a
  -- UUID, the times to be before the year 10000, and the codecs to undo themselves.
  pub page_token_lem :
      (m : MessageCursor) (t : ThreadCursor) (pinned : Option InboxId)
      → has_forbidden_byte m.message_id ≡ false
      → has_forbidden_byte m.inbox_id ≡ false
      → has_forbidden_byte t.inbox_id ≡ false
      → ltb m.timestamp year_10000 ≡ true
      → ltb t.timestamp year_10000 ≡ true
      → ltb t.thread_id (2 ^ 128) ≡ true
      → (decode_message c (encode_message c m) pinned ≡ (
          if pins_another m.inbox_id pinned
          then err wrong_scope
          else ok (record m { inbox_id = normalized m.inbox_id })))
        × (decode_thread c (encode_thread c t) pinned ≡ (
            if pins_another t.inbox_id pinned
            then err wrong_scope
            else ok (record t { inbox_id = normalized t.inbox_id })))
  page_token_lem m t pinned clean clean_inbox clean_thread dated dated_thread id_fits = (
    decode_message-encode_message m pinned clean clean_inbox dated
        ∙ check_inbox_scope_lem m.inbox_id pinned _,
    decode_thread-encode_thread t pinned clean_thread dated_thread id_fits
        ∙ check_inbox_scope_lem t.inbox_id pinned _,
  )
