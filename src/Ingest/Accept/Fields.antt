-- ===== src/Ingest/Accept/Fields.antt =====
-- crates/amk-ingest/src/accept.rs: what is read off a parsed message. mail-parser's view of it is the
-- record `Parsed`, with the depth of its nesting as a number.
use agent_mail_kit.Prelude.{
  ℕ, zero, suc, Bool, ◌&&◌, ◌||◌, not, Option, none, some, List, [], ◌∷◌, ◌++◌, ◌==◌, nat_eq,
  list_eq, string_eq, String, any, length, leb, if◌then◌else◌,
}
use agent_mail_kit.Types.Str.{
  Text, literal, is_empty, eq_ignore_ascii_case, strip_suffix, trim, trim_start, trim_end,
}
use agent_mail_kit.Types.Str.Utf8.{from_utf8}
use agent_mail_kit.Types.Str.Order.{upsert}
use agent_mail_kit.Types.Labels.{received, unread, unauthenticated}
use agent_mail_kit.Types.Ids.{MessageId, bracketed}
use agent_mail_kit.Types.Send.{Headers}
use agent_mail_kit.Ingest.Errors.{Bytes, IngestError, rejected}

-- A name and an address, each if present.
abbrev pub Mailbox : Type 0
Mailbox = Option Text × Option Text

pub data LinkValue : Type 0 where
  text : Text → LinkValue
  text_list : List Text → LinkValue
  another : LinkValue

-- `as_text` and `as_text_list` of a header value.
pub record TextView : Type 0 where
  pub as_text : Option Text
  pub as_text_list : Option (List Text)

pub record ParsedHeader : Type 0 where
  pub name : Text
  pub is_content_type : Bool
  -- The value, if the header is Content-Transfer-Encoding and has a text.
  pub transfer_encoding : Option Text
  pub offset_start : ℕ
  pub offset_end : ℕ

pub record ContentType : Type 0 where
  pub ctype : Text
  pub boundary : Option Text

pub record Part : Type 0 where
  pub headers : List ParsedHeader
  pub is_encoding_problem : Bool

-- A part that is an attachment; of the content type its type and its subtype.
pub record AttachedPart : Type 0 where
  pub filename : Option Text
  pub content_type : Option (Text × Option Text)
  pub content_disposition : Option Text
  pub content_id : Option Text
  pub body : Bytes

pub record Parsed : Type 0 where
  pub headers : List ParsedHeader
  pub from_headers : ℕ
  pub from : Option (List Mailbox)
  pub to : Option (List Mailbox)
  pub cc : Option (List Mailbox)
  pub bcc : Option (List Mailbox)
  pub reply_to : Option (List Mailbox)
  pub subject : Option Text
  pub message_id : Option Text
  pub in_reply_to : TextView
  pub references : LinkValue
  pub body_text : Option Text
  pub body_html : Option Text
  pub body_preview : Option Text
  pub content_type : Option ContentType
  pub depth : ℕ
  pub parts : List Part
  pub attachments : List AttachedPart

abbrev pub reject : Text → IngestError
reject message = rejected 554 message

unfoldable pub has_crlf : Text → Bool
has_crlf s = any (λ b. b == b'\r' || b == b'\n') s

abbrev unless_empty : Text → Option Text
unless_empty [] = none
unless_empty (c ∷ s) = some (c ∷ s)

unfoldable pub normalize_subject : Option Text → Option Text
normalize_subject none = none
normalize_subject (some s) = unless_empty (trim_end s)

unfoldable pub keep_body : Option Text → Option Text
keep_body none = none
keep_body (some s) = unless_empty s

abbrev without_end : ℕ → Text → Text
without_end c s = elim (strip_suffix c s) [ none ↦ s | some t ↦ t ]

unfoldable pub extracted_from_body : Option Text → Option Text
extracted_from_body none = none
extracted_from_body (some t) = unless_empty (without_end b'\r' (without_end b'\n' t))

unfoldable pub nonempty_list : List Text → Option (List Text)
nonempty_list [] = none
nonempty_list (x ∷ xs) = some (x ∷ xs)

unfoldable pub formatted : Mailbox → Option Text
formatted (some [], some ad) = some ad
formatted (some (c ∷ n), some ad) = some ((c ∷ n) ++ literal " <" ++ ad ++ literal ">")
formatted (none, some ad) = some ad
formatted (some n, none) = some n
formatted (none, none) = none

abbrev pub prepend : Option Text → List Text → List Text
prepend none xs = xs
prepend (some x) xs = x ∷ xs

unfoldable pub addresses_of : List Mailbox → List Text
addresses_of [] = []
addresses_of (a ∷ addrs) = prepend (formatted a) (addresses_of addrs)

abbrev pub address_list : Option (List Mailbox) → List Text
address_list none = []
address_list (some addrs) = addresses_of addrs

abbrev first_or_empty : List Text → Text
first_or_empty [] = []
first_or_empty (a ∷ addrs) = a

unfoldable pub format_addresses : Option (List Mailbox) → Text
format_addresses addr = first_or_empty (address_list addr)

unfoldable pub header_value_has_crlf : Headers → Text → Bool
header_value_has_crlf headers name =
    any (λ h. eq_ignore_ascii_case h.0 name && has_crlf h.1) headers

unfoldable pub inbound_header_map : Headers → Option Headers
inbound_header_map [] = none
inbound_header_map ((name, value) ∷ rest) =
    let later = inbound_header_map rest in
    if eq_ignore_ascii_case name (literal "In-Reply-To") then some ((name, value) ∷ []) else later

-- A link that is more than brackets.
unfoldable pub structured_link : Text → Option MessageId
structured_link id =
    if is_empty (trim id) || trim id == literal "<>" then none else some (bracketed (trim id))

abbrev first_text : Option (List Text) → Option Text
first_text none = none
first_text (some []) = none
first_text (some (id ∷ ids)) = some id

abbrev or_else : Option Text → Option Text → Option Text
or_else none other = other
or_else (some a) other = some a

abbrev link_of : Option Text → Option MessageId
link_of none = none
link_of (some id) = structured_link id

unfoldable pub structured_in_reply_to : TextView → Option MessageId
structured_in_reply_to value = link_of (or_else value.as_text (first_text value.as_text_list))

unfoldable pub structured_links : List Text → List MessageId
structured_links [] = []
structured_links (id ∷ ids) = prepend (structured_link id) (structured_links ids)

unfoldable pub structured_references : LinkValue → Option (List MessageId)
structured_references (text id) = nonempty_list (structured_links (id ∷ []))
structured_references (text_list ids) = nonempty_list (structured_links ids)
structured_references another = none

unfoldable pub inbound_labels : Bool → List String
inbound_labels authenticated =
    received ∷ unread ∷ (if not authenticated then unauthenticated ∷ [] else [])

abbrev pub take : ℕ → Bytes → Bytes
take zero bs = []
take (suc n) [] = []
take (suc n) (b ∷ bs) = b ∷ take n bs

abbrev pub drop : ℕ → Bytes → Bytes
drop zero bs = bs
drop (suc n) [] = []
drop (suc n) (b ∷ bs) = drop n bs

-- `raw.get(start..end)`
abbrev slice : Bytes → ℕ → ℕ → Option Bytes
slice raw start end =
    if leb start end && leb end (length raw) then some (drop start (take end raw)) else none

abbrev read_utf8 : Option Bytes → Option Text
read_utf8 none = none
read_utf8 (some bs) = from_utf8 bs

-- `trim_end_matches(['\r', '\n'])`
unfoldable pub trim_end_crlf : Text → Text
trim_end_crlf [] = []
trim_end_crlf (c ∷ s) = elim (trim_end_crlf s) [
  | [] ↦ if c == b'\r' || c == b'\n' then [] else c ∷ []
  | d ∷ r ↦ c ∷ d ∷ r
]

abbrev with_header : Text → Option Text → Headers → Headers
with_header name none map = map
with_header name (some value) map = upsert name (λ old. trim_start (trim_end_crlf value)) map

unfoldable pub header_map_from : Headers → Bytes → List ParsedHeader → Headers
header_map_from map raw [] = map
header_map_from map raw (h ∷ headers) =
    header_map_from (with_header h.name (read_utf8 (slice raw h.offset_start h.offset_end)) map) raw
      headers

abbrev pub raw_header_map : Bytes → List ParsedHeader → Headers
raw_header_map raw headers = header_map_from [] raw headers
