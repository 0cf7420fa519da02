-- ===== src/Ingest/Accept/Screening.antt =====
-- crates/amk-ingest/src/accept.rs: the gates that a parsed message passes, in their order, and what is
-- then known of it.
use agent_mail_kit.Prelude.{
  suc, ◌++◌, ℕ, Bool, false, ◌||◌, not, Option, none, some, List, ◌==◌, nat_eq, list_eq, any,
  length, ltb, Result, ok, ◌>>=◌, ◌>>◌, refuse, ok_or, [], ◌∷◌,
}
use agent_mail_kit.Types.Str.{Text, literal, is_empty, trim}
use agent_mail_kit.Types.Send.{Headers}
use agent_mail_kit.Types.Ids.{MessageId, bracketed}
use agent_mail_kit.Ingest.Errors.{Bytes, IngestError}
use agent_mail_kit.Ingest.Accept.Fields.{
  AttachedPart, Parsed, reject, has_crlf, normalize_subject, keep_body, extracted_from_body,
  nonempty_list, address_list, format_addresses, header_value_has_crlf, inbound_header_map,
  structured_in_reply_to, structured_references, raw_header_map,
}
use agent_mail_kit.Ingest.Accept.Hostile.{
  header_section_is_not_utf8, conflicting_cte, unterminated_multipart, illegal_filename,
}

abbrev Gate : Type 0
Gate = Result (Unit {0}) IngestError

abbrev pub barrier : Bool → Text → Gate
barrier closed message = refuse closed (reject message)

unfoldable pub reject_hostile : Bytes → Parsed → Gate
reject_hostile raw msg =
    barrier (header_section_is_not_utf8 raw) (literal "8-bit in header")
    >> barrier (not (any (λ h. h.is_content_type) msg.headers)) (literal "Missing Content-Type")
    >> barrier (conflicting_cte msg.headers) (literal "Conflicting Content-Transfer-Encoding")
    >> barrier (unterminated_multipart raw msg.content_type)
        (literal "Unterminated multipart boundary")
    >> barrier (ltb 3 msg.depth || ltb 64 (length msg.parts)) (literal "Nested multipart too deep")
    >> barrier (any (λ p. p.is_encoding_problem) msg.parts) (literal "Malformed MIME")
    >> barrier (any (λ p. conflicting_cte p.headers) msg.parts)
        (literal "Conflicting Content-Transfer-Encoding")

-- An attachment with its body; its size is the length of the body.
pub record CollectedAttachment : Type 0 where
  pub attachment_id : Text
  pub filename : Option Text
  pub size : ℕ
  pub content_type : Option Text
  pub content_disposition : Option Text
  pub content_id : Option Text
  pub body : Bytes

abbrev type_text : Option (Text × Option Text) → Option Text
type_text none = none
type_text (some (ctype, none)) = some ctype
type_text (some (ctype, some subtype)) = some (ctype ++ literal "/" ++ subtype)

-- `draw` gives the text of the random id of the attachment at a position.
unfoldable pub collected : (ℕ → Text) → ℕ → List AttachedPart → List CollectedAttachment
collected draw n [] = []
collected draw n (part ∷ parts) =
    record {
      attachment_id = draw n;
      filename = part.filename;
      size = length part.body;
      content_type = type_text part.content_type;
      content_disposition = part.content_disposition;
      content_id = part.content_id;
      body = part.body;
    }
    ∷ collected draw (suc n) parts

-- What is known of a message that passed.
pub record Facts : Type 0 where
  pub message_id : MessageId
  pub from : Text
  pub to : List Text
  pub cc : Option (List Text)
  pub bcc : Option (List Text)
  pub reply_to : Option (List Text)
  pub subject : Option Text
  pub in_reply_to : Option MessageId
  pub references : Option (List MessageId)
  pub headers : Option Headers
  pub text : Option Text
  pub html : Option Text
  pub preview : Option Text
  pub extracted_text : Option Text
  pub size : ℕ
  pub attachments : List CollectedAttachment
  pub attachment_blobs : Option Headers

abbrev pub some_has_crlf : Option Text → Bool
some_has_crlf none = false
some_has_crlf (some s) = has_crlf s

-- The gates on the addresses and the subject.
unfoldable pub check_addressing : Bytes → Parsed → Gate
check_addressing raw msg =
    barrier (ltb 1 msg.from_headers) (literal "Multiple From headers")
    >> barrier (is_empty (format_addresses msg.from)) (literal "Missing From")
    >> barrier (has_crlf (format_addresses msg.from)) (literal "CR/LF in From")
    >> barrier (any has_crlf (address_list msg.to)) (literal "CR/LF in To")
    >> barrier (some_has_crlf (normalize_subject msg.subject)) (literal "CR/LF in Subject")
    >> barrier (header_value_has_crlf (raw_header_map raw msg.headers) (literal "From"))
        (literal "CR/LF in From")
    >> barrier (header_value_has_crlf (raw_header_map raw msg.headers) (literal "To"))
        (literal "CR/LF in To")
    >> barrier (header_value_has_crlf (raw_header_map raw msg.headers) (literal "Subject"))
        (literal "CR/LF in Subject")

abbrev pub is_blank_id : MessageId → Bool
is_blank_id id = is_empty (trim id) || id == literal "<>"

abbrev pub facts_of : (ℕ → Text) → Bytes → Parsed → MessageId → Facts
facts_of draw raw msg message_id = record {
  message_id = message_id;
  from = format_addresses msg.from;
  to = address_list msg.to;
  cc = nonempty_list (address_list msg.cc);
  bcc = nonempty_list (address_list msg.bcc);
  reply_to = nonempty_list (address_list msg.reply_to);
  subject = normalize_subject msg.subject;
  in_reply_to = structured_in_reply_to msg.in_reply_to;
  references = structured_references msg.references;
  headers = inbound_header_map (raw_header_map raw msg.headers);
  text = keep_body msg.body_text;
  html = keep_body msg.body_html;
  preview = keep_body msg.body_preview;
  extracted_text = extracted_from_body (keep_body msg.body_text);
  size = length raw;
  attachments = collected draw 0 msg.attachments;
  attachment_blobs = none;
}

unfoldable pub screen : (ℕ → Text) → Bytes → Parsed → Result Facts IngestError
screen draw raw msg = do
  mild ← reject_hostile raw msg
  addressed ← check_addressing raw msg
  mid_raw ← ok_or msg.message_id (reject (literal "Missing Message-ID"))
  named ← barrier (is_blank_id (bracketed (trim mid_raw))) (literal "Missing Message-ID")
  attached ←
      barrier (any (λ a. illegal_filename a.filename) msg.attachments)
        (literal "Illegal attachment filename")
  ok (facts_of draw raw msg (bracketed (trim mid_raw)))
