-- ===== src/Ingest/Errors.antt =====
-- crates/amk-ingest/src/error.rs, with the failures of the store and of the socket as texts.
use agent_mail_kit.Prelude.{ℕ, List}
use agent_mail_kit.Types.Str.{Text, literal}

pub data IngestError : Type 0 where
  rejected : ℕ → Text → IngestError
  store io : Text → IngestError

unfoldable pub smtp_code : IngestError → ℕ
smtp_code (rejected code message) = code
smtp_code (store e) = 451
smtp_code (io e) = 421

unfoldable pub smtp_text : IngestError → Text
smtp_text (rejected code message) = message
smtp_text (store e) = literal "Temporary local problem"
smtp_text (io e) = literal "Closing connection"

abbrev pub Bytes : Type 0
Bytes = List ℕ
