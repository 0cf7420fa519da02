-- ===== src/Outbound/Build/Stages.antt =====
-- When `build_signed` succeeds: each of its stages did.
use agent_mail_kit.Prelude.{
  ◌≡◌, false, some, ◌++◌, ok, List, ok_or, refuse, bind_ok, refuse_ok, ok_or_ok, ok_injective, sym,
}
use agent_mail_kit.Types.Str.{Text}
use agent_mail_kit.Types.Send.{SendMessageRequest}
use agent_mail_kit.Outbound.Errors.{Bytes, SignedMessage}
use agent_mail_kit.Outbound.Signing.{Crypto, Keyring, sign}
use agent_mail_kit.Outbound.Attachments.{Part, Mime, attach_all}
use agent_mail_kit.Outbound.Build.{
  SendContext, check_request, sender_domain, has_nobody, initial_parts, signed_message,
  build_signed,
}

-- The stages of a build that succeeded, with what each gave.
pub record Stages (c : Crypto) (m : Mime) (req : SendMessageRequest) (ctx : SendContext)
    (keys : Keyring) (message_id : Text) (message : SignedMessage) : Type 0 where
  pub domain : Text
  pub parts : List Part
  pub raw : Bytes
  pub signature : Bytes
  pub checked : check_request req ≡ ok tt
  pub sent_from : sender_domain ctx ≡ ok domain
  pub addressed : has_nobody req ≡ false
  pub attached : attach_all m (initial_parts req ctx message_id) req.attachments ≡ ok parts
  pub written : m.write_to_vec parts ≡ some raw
  pub signed : sign c keys domain raw ≡ ok signature
  pub made : message ≡ signed_message req ctx message_id (signature ++ raw)

module _ (c : Crypto) (m : Mime) where
  pub build_signed-Stages :
      (req : SendMessageRequest) (ctx : SendContext) (keys : Keyring) (message_id : Text)
      {message : SignedMessage}
      → build_signed c m req ctx keys message_id ≡ ok message
      → Stages c m req ctx keys message_id message
  unfolding build_signed
  build_signed-Stages req ctx keys message_id {message} h =
      let (checked, e1, h1) = bind_ok (check_request req) _ h in
      let (domain, e2, h2) = bind_ok (sender_domain ctx) _ h1 in
      let (addressed, e3, h3) = bind_ok (refuse (has_nobody req) _) _ h2 in
      let (parts, e4, h4) =
        bind_ok (attach_all m (initial_parts req ctx message_id) req.attachments) _ h3 in
      let (raw, e5, h5) = bind_ok (ok_or (m.write_to_vec parts) _) _ h4 in
      let (signature, e6, h6) = bind_ok (sign c keys domain raw) _ h5 in
      record {
        domain = domain;
        parts = parts;
        raw = raw;
        signature = signature;
        checked = e1;
        sent_from = e2;
        addressed = refuse_ok (has_nobody req) _ e3;
        attached = e4;
        written = ok_or_ok (m.write_to_vec parts) _ e5;
        signed = e6;
        made = sym (ok_injective _ _ h6);
      }
