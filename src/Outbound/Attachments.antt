-- ===== src/Outbound/Attachments.antt =====
-- crates/amk-outbound/src/build.rs: the calls of the MIME builder, which are the constructors of
-- `Part` in the order they are made, and the attachments. `Mime` is what mail-builder and base64 do.
pub mod Inline
use agent_mail_kit.Prelude.{
  ℕ, Bool, not, Option, none, some, List, [], ◌∷◌, ◌++◌, length, leb, Result, ok, err, ◌>>=◌, ◌>>◌,
  ok_or, refuse,
}
use agent_mail_kit.Types.Str.{Text, literal}
use agent_mail_kit.Types.Send.{SendAttachment, has_exactly_one_source, is_some}
use agent_mail_kit.Outbound.Errors.{Bytes, OutboundError, assembly, Reason}
use agent_mail_kit.Outbound.Sanitiser.{check_field}

pub data Part : Type 0 where
  from message_id subject in_reply_to text_body html_body : Text → Part
  to cc reply_to references : List Text → Part
  header : Text → Text → Part
  attachment : Text → Text → Bytes → Part

pub record Mime : Type 0 where
  pub write_to_vec : List Part → Option Bytes
  pub base64_decode : Text → Option Bytes

abbrev pub inline_attachment_max_bytes : ℕ
inline_attachment_max_bytes = 5_950_000

-- `unwrap_or`
abbrev pub unwrap_or {ℓ} : {A : Type ℓ} → A → Option A → A
unwrap_or d none = d
unwrap_or d (some a) = a

unfoldable pub check_filename : Option Text → Result (Unit {0}) OutboundError
check_filename none = ok tt
check_filename (some name) = check_field (literal "filename") name

abbrev pub attachment_part : SendAttachment → Bytes → Part
attachment_part att bytes =
    attachment (unwrap_or (literal "application/octet-stream") att.content_type)
      (unwrap_or (literal "attachment") att.filename) bytes

module _ (m : Mime) where
  unfoldable pub decoded_inline_attachment : SendAttachment → Result Bytes OutboundError
  decoded_inline_attachment att = do
    single ← refuse (not (has_exactly_one_source att)) (assembly Reason.not_one_source)
    inline ← refuse (is_some att.url) (assembly Reason.url_source)
    encoded ← ok_or att.content (assembly Reason.expect_failed)
    bytes ← ok_or (m.base64_decode encoded) (assembly Reason.not_base64)
    small ← refuse (leb inline_attachment_max_bytes (length bytes)) (assembly Reason.over_the_cap)
    ok bytes

  -- The loop over the attachments, with the builder as it stands before.
  unfoldable pub attach_all : List Part → List SendAttachment → Result (List Part) OutboundError
  attach_all parts [] = ok parts
  attach_all parts (att ∷ atts) = do
    bytes ← decoded_inline_attachment att
    named ← check_filename att.filename
    attach_all (parts ++ attachment_part att bytes ∷ []) atts
