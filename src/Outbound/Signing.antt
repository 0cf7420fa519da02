-- ===== src/Outbound/Signing.antt =====
-- crates/amk-outbound/src/signing.rs: the keyring, and signing for a domain. The RSA keys and the
-- DKIM signature are mail-auth's, the record `Crypto`; so is the reading of bytes as text.
pub mod Keys
pub mod Coverage
use agent_mail_kit.Prelude.{
  Bool, true, false, ◌||◌, ◌&&◌, Option, none, some, List, [], ◌∷◌, ◌++◌, ◌==◌, nat_eq, any, Result,
  ok, err, ◌>>=◌, ok_or, if◌then◌else◌,
}
use agent_mail_kit.Types.Str.{
  Text, literal, is_empty, starts_with, to_ascii_lowercase, eq_ignore_ascii_case, trim,
}
use agent_mail_kit.Types.Str.Split.{split_once}
use agent_mail_kit.Types.Str.Order.{entry_at, upsert}
use agent_mail_kit.Outbound.Errors.{
  Bytes, OutboundError, no_signing_key, unusable_signing_key, assembly, Reason,
}

pub record Crypto : Type 1 where
  pub RsaKey : Type 0
  pub from_pkcs8_der : Bytes → Option RsaKey
  pub from_der : Bytes → Option RsaKey
  -- The signer for a key, a domain, a selector and the names of headers, at the bytes; the header
  -- line that it makes.
  pub dkim_sign : RsaKey → Text → Text → List Text → Bytes → Option Bytes
  pub from_utf8_lossy : Bytes → Text

abbrev pub signed_headers : List Text
signed_headers =
    literal "From"
    ∷ literal "To"
    ∷ literal "Cc"
    ∷ literal "Subject"
    ∷ literal "Date"
    ∷ literal "Message-ID"
    ∷ literal "In-Reply-To"
    ∷ literal "References"
    ∷ literal "MIME-Version"
    ∷ literal "Content-Type"
    ∷ []

pub record SigningKey : Type 0 where
  pub selector : Text
  pub der : Bytes

abbrev pub Keyring : Type 0
Keyring = List (Text × SigningKey)

-- `split("\r\n\r\n").next()`
unfoldable pub header_block : Text → Text
header_block (a ∷ b ∷ c ∷ d ∷ s) =
    let rest = header_block (b ∷ c ∷ d ∷ s) in
    if a == b'\r' && b == b'\n' && c == b'\r' && d == b'\n' then [] else a ∷ rest
header_block s = s

-- A character more in the first line.
abbrev longer : Text → List Text → List Text
longer s [] = s ∷ []
longer s (line ∷ lines) = (s ++ line) ∷ lines

-- `split("\r\n")`
unfoldable pub lines : Text → List Text
lines [] = [] ∷ []
lines (a ∷ []) = (a ∷ []) ∷ []
lines (a ∷ b ∷ s) =
    let after = lines s in
    let rest = lines (b ∷ s) in
    if a == b'\r' && b == b'\n' then [] ∷ after else longer (a ∷ []) rest

-- The name that a line of the header block gives, if any.
unfoldable pub header_name : Text → Option Text
header_name line =
    if starts_with b' ' line || starts_with b'\t' line then none else elim (split_once b':' line) [
      | none ↦ none
      | some (name, value) ↦ if is_empty (trim name) then none else some (trim name)
    ]

unfoldable pub header_names : List Text → List Text
header_names [] = []
header_names (line ∷ rest) = elim (header_name line) [
  | none ↦ header_names rest
  | some name ↦ name ∷ header_names rest
]

unfoldable pub present_header_names : Text → List Text
present_header_names text = header_names (lines (header_block text))

-- The loop of `sign` over the headers that are present.
unfoldable pub extended : List Text → List Text → List Text
extended names [] = names
extended names (n ∷ extra) =
    let next = if any (λ s. eq_ignore_ascii_case s n) names then names else names ++ n ∷ [] in
    extended next extra

unfoldable pub key_for : Keyring → Text → Option SigningKey
key_for keys domain = entry_at keys (to_ascii_lowercase domain)

module _ (c : Crypto) where
  unfoldable pub parse_der : Bytes → Option c.RsaKey
  parse_der der = elim (c.from_pkcs8_der der) [ none ↦ c.from_der der | some key ↦ some key ]

  -- The keyring after, where the key could be parsed.
  unfoldable pub insert_der : Keyring → Text → Text → Bytes → Result Keyring OutboundError
  insert_der keys domain selector der =
      let entry : SigningKey = record { selector = selector; der = der } in
      elim (parse_der der) [
        | none ↦ err (unusable_signing_key domain)
        | some key ↦ ok (upsert (to_ascii_lowercase domain) (λ old. entry) keys)
      ]

  unfoldable pub names_to_sign : Bytes → List Text
  names_to_sign raw = extended signed_headers (present_header_names (c.from_utf8_lossy raw))

  unfoldable pub sign : Keyring → Text → Bytes → Result Bytes OutboundError
  sign keys domain raw = do
    entry ← ok_or (key_for keys domain) (no_signing_key (to_ascii_lowercase domain))
    key ← ok_or (parse_der entry.der) (unusable_signing_key (to_ascii_lowercase domain))
    ok_or (c.dkim_sign key (to_ascii_lowercase domain) entry.selector (names_to_sign raw) raw)
        (assembly Reason.not_signed)
