-- ===== src/Outbound/Sanitiser/Allowed.antt =====
-- What the sanitiser lets through.
use agent_mail_kit.Prelude.{
  Bool, true, ◌≡◌, refl, ◌↔◌, not, ◌&&◌, ◌||◌, List, [], ◌∷◌, all, contains, nat_eq, list_eq, arith,
  ok,
}
use agent_mail_kit.Types.Str.{Text, literal, is_empty, to_ascii_lowercase, trim}
use agent_mail_kit.Types.Send.{Headers}
use agent_mail_kit.Outbound.Sanitiser.{is_reserved, has_structural_byte, check_headers, check_field}

-- Neither CR nor LF nor NUL.
unfoldable pub is_clean : Text → Bool
is_clean s = not (contains 13 s || contains 10 s || contains 0 s)

is_clean_iff : (s : Text) → has_structural_byte s ≡ not (is_clean s)
unfolding is_clean has_structural_byte contains
is_clean_iff [] = refl
is_clean_iff (b ∷ s) = ground (arith, is_clean_iff s)

-- The headers that the envelope owns.
abbrev pub owned : List Text
owned =
    literal "from"
    ∷ literal "to"
    ∷ literal "cc"
    ∷ literal "bcc"
    ∷ literal "reply-to"
    ∷ literal "subject"
    ∷ literal "message-id"
    ∷ literal "date"
    ∷ literal "in-reply-to"
    ∷ literal "references"
    ∷ literal "dkim-signature"
    ∷ literal "mime-version"
    ∷ literal "content-type"
    ∷ literal "content-transfer-encoding"
    ∷ []

is_reserved-owned : (name : Text) → is_reserved name ≡ contains (to_ascii_lowercase name) owned
unfolding is_reserved
is_reserved-owned name = refl

-- A header that a caller may set.
unfoldable pub is_allowed : Text × Text → Bool
is_allowed (name, value) =
    not (contains (to_ascii_lowercase name) owned)
    && is_clean name
    && is_clean value
    && not (is_empty (trim name))

pub check_headers_iff :
    (headers : Headers) → (check_headers headers ≡ ok tt) ↔ (all is_allowed headers ≡ true)
unfolding check_headers is_allowed
check_headers_iff [] = ground arith
check_headers_iff ((name, value) ∷ headers) = ground (
  arith,
  check_headers_iff headers,
  is_clean_iff name,
  is_clean_iff value,
  is_reserved-owned name,
)

pub check_field_iff :
    (name value : Text) → (check_field name value ≡ ok tt) ↔ (is_clean value ≡ true)
unfolding check_field
check_field_iff name value = ground (arith, is_clean_iff value)
