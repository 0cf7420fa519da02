-- ===== src/Tests/Outgoing.antt =====
-- Outgoing mail at concrete inputs.
use agent_mail_kit.Prelude.{
  ℕ, ◌≡◌, refl, true, false, ◌&&◌, ◌||◌, not, Option, none, some, List, [], ◌∷◌, ◌++◌, map, ◌==◌,
  nat_eq, list_eq, list_beq, any, all, length, contains, ok, err, if◌then◌else◌,
}
use agent_mail_kit.Types.Str.Order.Sorted.{ascends}
use agent_mail_kit.Types.Str.{
  Text, literal, lower, to_ascii_lowercase, is_empty, is_whitespace, trim_start, trim_end, trim,
}
use agent_mail_kit.Types.Str.Split.{rsplit_once}
use agent_mail_kit.Types.Str.Order.{precedes, insert_sorted, sort, dedup, entry_at}
use agent_mail_kit.Types.Send.{
  one, many, into_vec, has_exactly_one_source, SendAttachment, SendMessageRequest,
}
use agent_mail_kit.Outbound.Errors.{Bytes, OutboundError, SignedMessage}
use agent_mail_kit.Outbound.Sanitiser.{has_structural_byte, is_reserved, check_headers, check_field}
use agent_mail_kit.Outbound.Recipients.{mailbox_addr, folded, reply_all_recipients}
use agent_mail_kit.Outbound.Recipients.ReplyAll.{distinct, reply_all_recipients_lem}
use agent_mail_kit.Outbound.Attachments.Inline.{Attached}
use agent_mail_kit.Outbound.Build.Clean.{IsSafe}
use agent_mail_kit.Outbound.Build.Guarantees.{
  build_signed-IsSafe, build_signed_envelope, raw_without_bcc,
}
use agent_mail_kit.Outbound.Signing.Coverage.{
  written, is_line, is_name, always_signed, is_covered, names_to_sign_covers,
}
use agent_mail_kit.Outbound.Signing.Coverage.{
  written, is_line, is_name, always_signed, is_covered, names_to_sign_covers,
}
use agent_mail_kit.Outbound.Signing.Keys.{IsOrdered, key_for-insert_der}
use agent_mail_kit.Outbound.Delivery.{Network, recording_transport, sign_and_deliver}
use agent_mail_kit.Outbound.Delivery.Sending.{unkeyed_sends_nothing}
use agent_mail_kit.Outbound.Signing.{Crypto, Keyring, parse_der, insert_der, key_for, sign}
use agent_mail_kit.Outbound.Attachments.{
  Mime, Part, check_filename, decoded_inline_attachment, attach_all,
}
use agent_mail_kit.Outbound.Build.{
  SendContext, flatten, check_each, check_request, sender_domain, initial_parts,
  envelope_recipients, signed_message, build_signed,
}

-- A key is a number, a signature names it, and the message is the number of the builder's calls.
abbrev first_byte : Bytes → Option ℕ
first_byte [] = none
first_byte (b ∷ bs) = some b

abbrev toy_crypto : Crypto
toy_crypto = record {
  RsaKey = ℕ;
  from_pkcs8_der = first_byte;
  from_der = first_byte;
  dkim_sign = λ key domain selector names raw. some (key ∷ []);
  from_utf8_lossy = λ bytes. bytes;
}

abbrev toy_mime : Mime
toy_mime = record { write_to_vec = λ parts. some (length parts ∷ []); base64_decode = λ s. some s }

abbrev sender : SendContext
sender = record { from = literal "me@a.b"; in_reply_to = none; references = [] }

abbrev ring : Keyring
ring = (literal "a.b", record { selector = literal "s"; der = 7 ∷ [] }) ∷ []

abbrev note_file : SendAttachment
note_file = record {
  filename = some (literal "n.txt");
  content_type = none;
  content_disposition = none;
  content_id = none;
  content = some (literal "aGk=");
  url = none;
}

abbrev request : SendMessageRequest
request = record {
  to = some (one (literal "you@c.d"));
  cc = none;
  bcc = some (many (literal "eve@c.d" ∷ literal "you@c.d" ∷ []));
  reply_to = none;
  subject = some (literal "hi");
  text = none;
  html = none;
  labels = [];
  attachments = note_file ∷ [];
  headers = some ((literal "X-Trace", literal "1") ∷ []);
}

abbrev mailed : SignedMessage
mailed = record {
  message_id = literal "<i@a.b>";
  envelope_from = literal "me@a.b";
  envelope_to = literal "eve@c.d" ∷ literal "you@c.d" ∷ [];
  raw = 7 ∷ 6 ∷ [];
}

request_is_sent :
    build_signed toy_crypto toy_mime request sender ring (literal "<i@a.b>") ≡ ok mailed
unfolding build_signed check_request check_each check_headers check_field has_structural_byte
    is_reserved sender_domain attach_all decoded_inline_attachment has_exactly_one_source
    check_filename initial_parts sign key_for entry_at parse_der signed_message envelope_recipients
    sort dedup insert_sorted precedes mailbox_addr rsplit_once trim trim_start trim_end
    is_whitespace to_ascii_lowercase lower list_beq contains into_vec
request_is_sent = refl

build_signed-IsSafe_example :
    IsSafe request
    × ((raw signature : Bytes) × (calls : List Part) × Attached toy_mime request.attachments calls
        × (toy_mime.write_to_vec (initial_parts request sender (literal "<i@a.b>") ++ calls)
            ≡ some raw)
        × (mailed.raw ≡ signature ++ raw))
build_signed-IsSafe_example =
    build_signed-IsSafe toy_crypto toy_mime request sender ring (literal "<i@a.b>") request_is_sent

build_signed_envelope_example :
    ((a : Text)
      → contains a mailed.envelope_to ≡ (
          contains a (flatten request.to)
          || contains a (flatten request.cc)
          || contains a (flatten request.bcc)))
    × (ascends mailed.envelope_to ≡ true)
    × (is_empty mailed.envelope_to ≡ false)
    × (mailed.envelope_from ≡ mailbox_addr sender.from)
    × (mailed.message_id ≡ literal "<i@a.b>")
build_signed_envelope_example =
    build_signed_envelope toy_crypto toy_mime request sender ring (literal "<i@a.b>")
      request_is_sent

abbrev open_sent : SignedMessage
open_sent = record mailed { envelope_to = literal "you@c.d" ∷ [] }

open_request_is_sent :
    build_signed toy_crypto toy_mime (record request { bcc = none }) sender ring (literal "<i@a.b>")
    ≡ ok open_sent
unfolding build_signed check_request check_each check_headers check_field has_structural_byte
    is_reserved sender_domain attach_all decoded_inline_attachment has_exactly_one_source
    check_filename initial_parts sign key_for entry_at parse_der signed_message envelope_recipients
    sort dedup insert_sorted precedes mailbox_addr rsplit_once trim trim_start trim_end
    is_whitespace to_ascii_lowercase lower list_beq contains into_vec
open_request_is_sent = refl

raw_without_bcc_example : mailed.raw ≡ open_sent.raw
raw_without_bcc_example =
    raw_without_bcc toy_crypto toy_mime request none sender ring (literal "<i@a.b>") request_is_sent
      open_request_is_sent

sender_is_of : sender_domain sender ≡ ok (literal "a.b")
unfolding sender_domain mailbox_addr rsplit_once trim trim_start trim_end is_whitespace
    to_ascii_lowercase lower list_beq
sender_is_of = refl

ring_lacks : key_for [] (literal "a.b") ≡ none
unfolding key_for entry_at
ring_lacks = refl

unkeyed_sends_nothing_example :
    (e : OutboundError) × (sign_and_deliver toy_crypto toy_mime recording_transport request sender
        []
        (literal "<i@a.b>")
        (mailed ∷ [])
      ≡ (err e, mailed ∷ []))
unkeyed_sends_nothing_example =
    unkeyed_sends_nothing toy_crypto toy_mime recording_transport request sender []
      (literal "<i@a.b>") (literal "a.b") (mailed ∷ []) sender_is_of ring_lacks

ring-IsOrdered : IsOrdered ring
unfolding ascends
ring-IsOrdered = refl

der_parses : parse_der toy_crypto (9 ∷ []) ≡ some 9
unfolding parse_der
der_parses = refl

key_for-insert_der_example :
    (after : Keyring) × (insert_der toy_crypto ring (literal "B.C") (literal "t") (9 ∷ [])
      ≡ ok after)
    × IsOrdered after
    × ((other : Text)
        → key_for after other ≡ (
            if to_ascii_lowercase (literal "B.C") == to_ascii_lowercase other
            then some (record { selector = literal "t"; der = 9 ∷ [] })
            else key_for ring other))
key_for-insert_der_example =
    key_for-insert_der toy_crypto ring (literal "B.C") (literal "t") (9 ∷ []) 9 ring-IsOrdered
      der_parses

abbrev header_lines : List Text
header_lines = literal "X-A: 1" ∷ literal " 2" ∷ literal "To: b" ∷ []

abbrev written_message : Bytes
written_message = written header_lines ++ literal "\r\nHi\r\n\r\n"

lines_hold : all is_line header_lines ≡ true
unfolding is_line
lines_hold = refl

has_x_a : contains (literal "X-A" ++ literal ": 1") header_lines ≡ true
unfolding contains list_beq
has_x_a = refl

x_a_is_name : is_name (literal "X-A") ≡ true
unfolding is_name is_whitespace
x_a_is_name = refl

names_to_sign_covers_example :
    (is_covered toy_crypto written_message (literal "X-A") ≡ true)
    × (all (is_covered toy_crypto written_message) always_signed ≡ true)
names_to_sign_covers_example =
    names_to_sign_covers toy_crypto written_message header_lines (literal "Hi\r\n\r\n")
      (literal "X-A") (literal " 1") refl lines_hold has_x_a x_a_is_name

reply_all_recipients_lem_example :
    let (to, cc) =
      reply_all_recipients
        (literal "A <a@x>")
        (literal "me@x" ∷ [])
        (literal "A@x" ∷ literal "b@x" ∷ [])
        (literal "Me@x") in
    let me = folded (literal "Me@x") in
    (distinct (map to_ascii_lowercase (to ++ cc)) ≡ true)
    × ((x : Text)
        → contains x (map to_ascii_lowercase (to ++ cc)) ≡ (
            any
              (λ a. folded a == x)
              (literal "A <a@x>" ∷ (literal "me@x" ∷ []) ++ literal "A@x" ∷ literal "b@x" ∷ [])
            && not (x == me)))
    × ((x : Text)
        → contains x (map to_ascii_lowercase to)
          ≡ (any (λ a. folded a == x) (literal "A <a@x>" ∷ literal "me@x" ∷ []) && not (x == me)))
reply_all_recipients_lem_example =
    reply_all_recipients_lem (literal "A <a@x>") (literal "me@x" ∷ [])
      (literal "A@x" ∷ literal "b@x" ∷ []) (literal "Me@x")

-- A network whose state is the hosts that were mailed to, and that has one exchanger for each domain.
abbrev toy_network : Network
toy_network = record {
  World = List Text;
  Client = Text;
  mx_lookup = λ domain w. (some ((10, literal "mx." ++ domain) ∷ []), w);
  new = λ host port. ok tt;
  connect = λ host port tls w. (ok host, w);
  connect_plain = λ host port w. (ok host, w);
  send = λ client from to raw w. (ok tt, w ++ client ∷ []);
  quoted = λ s. s;
}
