-- ===== src/Outbound/Sanitiser.antt =====
-- crates/amk-outbound/src/assemble.rs: the header sanitiser. It tests bytes; on code points the test
-- is the same, since the three bytes are ASCII.
pub mod Allowed
use agent_mail_kit.Prelude.{
  ℕ, Bool, true, false, ◌||◌, List, [], ◌∷◌, ◌==◌, nat_eq, list_eq, any, contains, Result, ok, err,
  refuse, if◌then◌else◌,
}
use agent_mail_kit.Types.Str.{Text, literal, is_empty, to_ascii_lowercase, trim}
use agent_mail_kit.Types.Send.{Headers}
use agent_mail_kit.Outbound.Errors.{OutboundError, forbidden_header}

abbrev pub reserved_headers : List Text
reserved_headers =
    literal "from"
    ∷ literal "to"
    ∷ literal "cc"
    ∷ literal "bcc"
    ∷ literal "reply-to"
    ∷ literal "subject"
    ∷ literal "message-id"
    ∷ literal "date"
    ∷ literal "in-reply-to"
    ∷ literal "references"
    ∷ literal "dkim-signature"
    ∷ literal "mime-version"
    ∷ literal "content-type"
    ∷ literal "content-transfer-encoding"
    ∷ []

abbrev is_structural : ℕ → Bool
is_structural b = b == b'\r' || b == b'\n' || b == 0

unfoldable pub has_structural_byte : Text → Bool
has_structural_byte s = any is_structural s

unfoldable pub is_reserved : Text → Bool
is_reserved name = contains (to_ascii_lowercase name) reserved_headers

unfoldable pub check_headers : Headers → Result (Unit {0}) OutboundError
check_headers [] = ok tt
check_headers ((name, value) ∷ headers) =
    let rest = check_headers headers in
    if is_reserved name
    then err (forbidden_header name)
    else if has_structural_byte name || has_structural_byte value
    then err (forbidden_header name)
    else if is_empty (trim name)
    then err (forbidden_header name)
    else rest

unfoldable pub check_field : Text → Text → Result (Unit {0}) OutboundError
check_field name value = refuse (has_structural_byte value) (forbidden_header name)
