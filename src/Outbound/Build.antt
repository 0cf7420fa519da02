-- ===== src/Outbound/Build.antt =====
-- crates/amk-outbound/src/build.rs: `build_signed`, from the request to the signed message.
pub mod Stages
pub mod Clean
pub mod Guarantees
use agent_mail_kit.Prelude.{
  Bool, ◌&&◌, ◌||◌, Option, none, some, List, [], ◌∷◌, ◌++◌, map, ◌==◌, nat_eq, Result, ok, err,
  ◌>>=◌, ◌>>◌, ok_or, refuse, if◌then◌else◌,
}
use agent_mail_kit.Types.Str.{Text, literal, is_empty, to_ascii_lowercase}
use agent_mail_kit.Types.Str.Split.{rsplit_once}
use agent_mail_kit.Types.Str.Order.{sort, dedup}
use agent_mail_kit.Types.Send.{Addresses, into_vec, Headers, SendMessageRequest}
use agent_mail_kit.Outbound.Errors.{Bytes, OutboundError, assembly, Reason, SignedMessage}
use agent_mail_kit.Outbound.Sanitiser.{check_headers, check_field}
use agent_mail_kit.Outbound.Recipients.{mailbox_addr}
use agent_mail_kit.Outbound.Signing.{Crypto, Keyring, sign}
use agent_mail_kit.Outbound.Attachments.{Part, Mime, attach_all}

pub record SendContext : Type 0 where
  pub from : Text
  pub in_reply_to : Option Text
  pub references : List Text

abbrev pub checked_headers : Option Headers → Result (Unit {0}) OutboundError
checked_headers none = ok tt
checked_headers (some headers) = check_headers headers

unfoldable pub check_each : Text → List Text → Result (Unit {0}) OutboundError
check_each name [] = ok tt
check_each name (addr ∷ addrs) = check_field name addr >> check_each name addrs

abbrev pub check_addresses : Text → Option Addresses → Result (Unit {0}) OutboundError
check_addresses name none = ok tt
check_addresses name (some a) = check_each name (into_vec a)

abbrev pub check_subject : Option Text → Result (Unit {0}) OutboundError
check_subject none = ok tt
check_subject (some subject) = check_field (literal "subject") subject

-- The checks that stand before anything is built.
unfoldable pub check_request : SendMessageRequest → Result (Unit {0}) OutboundError
check_request req =
    checked_headers req.headers
    >> check_addresses (literal "to") req.to
    >> check_addresses (literal "cc") req.cc
    >> check_addresses (literal "bcc") req.bcc
    >> check_addresses (literal "reply_to") req.reply_to
    >> check_subject req.subject

abbrev lowered_domain : Option (Text × Text) → Option Text
lowered_domain none = none
lowered_domain (some (local, d)) = some (to_ascii_lowercase d)

unfoldable pub sender_domain : SendContext → Result Text OutboundError
sender_domain ctx =
    ok_or (lowered_domain (rsplit_once b'@' (mailbox_addr ctx.from)))
      (assembly (Reason.sender_without_domain ctx.from))

abbrev pub flatten : Option Addresses → List Text
flatten none = []
flatten (some a) = into_vec a

-- `trim_matches(['<', '>'])`
unfoldable pub trim_angles_start : Text → Text
trim_angles_start [] = []
trim_angles_start (c ∷ s) = if c == b'<' || c == b'>' then trim_angles_start s else c ∷ s

unfoldable pub trim_angles_end : Text → Text
trim_angles_end [] = []
trim_angles_end (c ∷ s) = elim (trim_angles_end s) [
  | [] ↦ if c == b'<' || c == b'>' then [] else c ∷ []
  | d ∷ r ↦ c ∷ d ∷ r
]

unfoldable pub trim_angles : Text → Text
trim_angles s = trim_angles_start (trim_angles_end s)

-- A call that is made only for a value, or for a list that is not empty.
abbrev given {ℓ} : {A : Type ℓ} → (A → Part) → Option A → List Part
given call none = []
given call (some a) = call a ∷ []

abbrev nonempty : (List Text → Part) → List Text → List Part
nonempty call [] = []
nonempty call (x ∷ xs) = call (x ∷ xs) ∷ []

abbrev linked : Text → Part
linked parent = Part.in_reply_to (trim_angles parent)

abbrev entry_call : Text × Text → Part
entry_call (name, value) = Part.header name value

abbrev header_calls : Option Headers → List Part
header_calls none = []
header_calls (some headers) = map entry_call headers

-- The builder before the attachments.
unfoldable pub initial_parts : SendMessageRequest → SendContext → Text → List Part
initial_parts req ctx message_id =
    Part.from ctx.from
      ∷ Part.message_id (trim_angles message_id)
      ∷ nonempty Part.to (flatten req.to)
    ++ nonempty Part.cc (flatten req.cc)
    ++ nonempty Part.reply_to (flatten req.reply_to)
    ++ given Part.subject req.subject
    ++ given linked ctx.in_reply_to
    ++ nonempty Part.references (map trim_angles ctx.references)
    ++ given Part.text_body req.text
    ++ given Part.html_body req.html
    ++ header_calls req.headers

unfoldable pub envelope_recipients : SendMessageRequest → List Text
envelope_recipients req = dedup (sort (flatten req.to ++ flatten req.cc ++ flatten req.bcc))

abbrev pub has_nobody : SendMessageRequest → Bool
has_nobody req =
    is_empty (flatten req.to) && is_empty (flatten req.cc) && is_empty (flatten req.bcc)

unfoldable pub signed_message : SendMessageRequest → SendContext → Text → Bytes → SignedMessage
signed_message req ctx message_id signed = record {
  message_id = message_id;
  envelope_from = mailbox_addr ctx.from;
  envelope_to = envelope_recipients req;
  raw = signed;
}

module _ (c : Crypto) (m : Mime) where
  unfoldable pub build_signed :
      SendMessageRequest → SendContext → Keyring → Text → Result SignedMessage OutboundError
  build_signed req ctx keys message_id = do
    checked ← check_request req
    domain ← sender_domain ctx
    addressed ← refuse (has_nobody req) (assembly Reason.no_recipients)
    parts ← attach_all m (initial_parts req ctx message_id) req.attachments
    raw ← ok_or (m.write_to_vec parts) (assembly Reason.not_written)
    signature ← sign c keys domain raw
    ok (signed_message req ctx message_id (signature ++ raw))
