-- ===== src/Core/Download.antt =====
-- crates/amk-core/src/download.rs: signed download tokens. A text is the list of its UTF-8 bytes.
pub mod Tokens
use agent_mail_kit.Prelude.{
  ℕ, Bool, true, false, not, Option, none, some, List, [], ◌∷◌, ◌++◌, ◌==◌, nat_eq, list_eq, leb,
  Result, ok, err, ◌>>=◌, if◌then◌else◌,
}
use agent_mail_kit.Types.Str.{Text}
use agent_mail_kit.Types.Str.Split.{split_once, rsplit_once}
use agent_mail_kit.Types.Str.Utf8.{from_utf8}
use agent_mail_kit.Types.Str.Decimal.{to_decimal, parse_u64}

abbrev pub Bytes : Type 0
Bytes = List ℕ

abbrev pub default_ttl_secs : ℕ
default_ttl_secs = 3600

pub data TokenError : Type 0 where
  malformed bad_signature expired wrong_resource : TokenError

-- `ok_or(TokenError::Malformed)`, `map_err(|_| TokenError::Malformed)`
abbrev pub or_malformed {ℓ} : {A : Type ℓ} → Option A → Result A TokenError
or_malformed none = err malformed
or_malformed (some a) = ok a

-- `format!("{blob_id}:{expires_at_unix}")`
unfoldable pub payload_of : Text → ℕ → Text
payload_of blob_id expires_at_unix = blob_id ++ b':' ∷ to_decimal expires_at_unix

-- What follows the check of the signature.
unfoldable pub verify_payload : Text → Text → ℕ → Result (Unit {0}) TokenError
verify_payload payload blob_id now_unix = do
  text ← or_malformed (from_utf8 payload)
  (signed_blob, digits) ← or_malformed (rsplit_once b':' text)
  expires ← or_malformed (parse_u64 digits)
  if not (signed_blob == blob_id)
      then err wrong_resource
      else if leb expires now_unix
      then err expired
      else ok tt

-- The URL-safe alphabet of the crate `base64`, and HMAC-SHA256 of the crates `hmac` and `sha2`.
module _ (encode : Bytes → Text) (decode : Text → Option Bytes) (hmac : Bytes → Bytes → Bytes) where
  unfoldable pub sign : Bytes → Bytes → Bytes
  sign key payload = hmac key payload

  unfoldable pub mint : Bytes → Text → ℕ → Text
  unfolding payload_of sign
  mint key blob_id expires_at_unix =
      let payload = payload_of blob_id expires_at_unix in
      encode payload ++ b'.' ∷ encode (sign key payload)

  unfoldable pub verify : Bytes → Text → Text → ℕ → Result (Unit {0}) TokenError
  unfolding verify_payload sign
  verify key token blob_id now_unix = do
    (payload_b64, mac_b64) ← or_malformed (split_once b'.' token)
    payload ← or_malformed (decode payload_b64)
    presented ← or_malformed (decode mac_b64)
    if not (sign key payload == presented)
        then err bad_signature
        else verify_payload payload blob_id now_unix
