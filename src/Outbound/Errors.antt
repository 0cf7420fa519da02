-- ===== src/Outbound/Errors.antt =====
-- crates/amk-outbound/src/lib.rs: the errors of the crate and the signed message. The text of an
-- assembly error is a constructor that carries what it is formatted from; that of a delivery error
-- is a text, since the delivery loop tests whether it is empty.
use agent_mail_kit.Prelude.{ℕ, List}
use agent_mail_kit.Types.Str.{Text}

pub data Reason : Type 0 where
  sender_without_domain : Text → Reason
  no_recipients not_one_source url_source expect_failed not_base64 over_the_cap not_written
        not_signed :
      Reason

pub data OutboundError : Type 0 where
  no_signing_key unusable_signing_key forbidden_header : Text → OutboundError
  assembly : Reason → OutboundError
  delivery : Text → OutboundError

abbrev pub Bytes : Type 0
Bytes = List ℕ

pub record SignedMessage : Type 0 where
  pub message_id : Text
  pub envelope_from : Text
  pub envelope_to : List Text
  pub raw : Bytes
