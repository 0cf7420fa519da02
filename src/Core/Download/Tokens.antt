-- ===== src/Core/Download/Tokens.antt =====
-- crates/amk-core/src/download.rs: what a token is good for.
use agent_mail_kit.Prelude.{
  ℕ, ◌^◌, true, false, not, Option, some, ◌∷◌, ◌++◌, ◌≡◌, refl, ◌==◌, nat_eq, list_eq, leb, ltb,
  contains, Result, ok, err, arith, if◌then◌else◌, Option-cases, inl, inr, ==→eq, absent_of_all,
  ==_refl, sym, ◌∙◌, ap,
}
use agent_mail_kit.Types.Str.{Text}
use agent_mail_kit.Types.Str.Split.{
  split_once, split_once-append, split_once_sound, rsplit_once, rsplit_once-append,
  rsplit_once_sound,
}
use agent_mail_kit.Types.Str.Utf8.{from_utf8, from_utf8_sound, from_utf8-append}
use agent_mail_kit.Types.Str.Decimal.{to_decimal, parse_u64, parse_u64-to_decimal, all-to_decimal}
use agent_mail_kit.Core.Download.{
  Bytes, TokenError, expired, wrong_resource, payload_of, verify_payload, mint, verify,
}

to_decimal-colon : (n : ℕ) → contains b':' (to_decimal n) ≡ false
to_decimal-colon n =
    absent_of_all b':' (to_decimal n)
      (all-to_decimal (λ d. not (d == b':')) n (λ d small. ground arith))

rsplit_once-payload_of :
    (blob : Text) (n : ℕ) → rsplit_once b':' (payload_of blob n) ≡ some (blob, to_decimal n)
unfolding payload_of
rsplit_once-payload_of blob n = rsplit_once-append b':' blob (to_decimal n) (to_decimal-colon n)

from_utf8-payload_of :
    (blob : Text) (n : ℕ)
    → from_utf8 blob ≡ some blob
    → from_utf8 (payload_of blob n) ≡ some (payload_of blob n)
unfolding payload_of
from_utf8-payload_of blob n utf8 =
    from_utf8-append blob (b':' ∷ to_decimal n) utf8
      (all-to_decimal (λ b. ltb b 0x80) n (λ d small. ground arith))

-- What the payload of a minted token is answered.
abbrev pub answer : Text → ℕ → Text → ℕ → Result (Unit {0}) TokenError
answer signed_for expires blob now =
    if not (signed_for == blob)
    then err wrong_resource
    else if leb expires now
    then err expired
    else ok tt

verify_payload-payload_of :
    (blob other : Text) (expires now : ℕ)
    → from_utf8 blob ≡ some blob
    → ltb expires (2 ^ 64) ≡ true
    → verify_payload (payload_of blob expires) other now ≡ answer blob expires other now
unfolding verify_payload
verify_payload-payload_of blob other expires now utf8 u =
    rw
      (
        from_utf8-payload_of blob expires utf8,
        rsplit_once-payload_of blob expires,
        parse_u64-to_decimal expires u,
      )
      refl

-- A payload stands for one object and one expiry, whatever characters the object's id contains.
payload_of_injective :
    (blob blob' : Text) (n n' : ℕ)
    → ltb n (2 ^ 64) ≡ true
    → ltb n' (2 ^ 64) ≡ true
    → payload_of blob n ≡ payload_of blob' n'
    → (blob ≡ blob') × (n ≡ n')
payload_of_injective blob blob' n n' u u' e =
    let same =
      sym (rsplit_once-payload_of blob n)
      ∙ ap (rsplit_once b':') e
      ∙ rsplit_once-payload_of blob' n' in
    let digits =
      sym (parse_u64-to_decimal n u)
      ∙ ap parse_u64 (ground (arith, same))
      ∙ parse_u64-to_decimal n' u' in
    (ground (arith, same), ground (arith, digits))

verify_payload_sound :
    (payload blob : Text) (now : ℕ)
    → verify_payload payload blob now ≡ ok tt
    → (digits : Text) × (expires : ℕ) × (payload ≡ blob ++ b':' ∷ digits)
      × (parse_u64 digits ≡ some expires)
      × (ltb now expires ≡ true)
unfolding verify_payload
verify_payload_sound payload blob now h = elim (Option-cases (from_utf8 payload)) [
  | inl bad ↦ ground arith
  | inr (text, utf8) ↦ elim (Option-cases (rsplit_once b':' text)) [
    | inl bad ↦ ground arith
    | inr ((signed_for, digits), parts) ↦ elim (Option-cases (parse_u64 digits)) [
      | inl bad ↦ ground arith
      | inr (expires, parsed) ↦ (
        digits,
        expires,
        sym (from_utf8_sound payload text utf8)
            ∙ rsplit_once_sound b':' text signed_for digits parts
            ∙ ap (λ s. s ++ b':' ∷ digits) (==→eq signed_for blob (ground arith)),
        parsed,
        ground arith,
      )
    ]
  ]
]

module _ (encode : Bytes → Text) (decode : Text → Option Bytes) (hmac : Bytes → Bytes → Bytes) where
  -- A token minted for an id in UTF-8 and an expiry that is a `u64` is accepted for its own object
  -- until the expiry, and refused for every other object, as such, whether or not it is current, and
  -- from the expiry on. What base64 promises is assumed: decoding undoes encoding, and the alphabet
  -- has no full stop.
  pub verify-mint :
      (key : Bytes) (blob other : Text) (expires now : ℕ)
      → ((bs : Bytes) → decode (encode bs) ≡ some bs)
      → ((bs : Bytes) → contains b'.' (encode bs) ≡ false)
      → from_utf8 blob ≡ some blob
      → ltb expires (2 ^ 64) ≡ true
      → verify encode decode hmac key (mint encode decode hmac key blob expires) other now ≡ (
          if not (blob == other)
          then err wrong_resource
          else if leb expires now
          then err expired
          else ok tt)
  unfolding verify mint
  verify-mint key blob other expires now round_trip no_stop utf8 u =
      rw
        (
          split_once-append b'.' (encode (payload_of blob expires))
              (encode (hmac key (payload_of blob expires))) (no_stop (payload_of blob expires)),
          round_trip (payload_of blob expires),
          round_trip (hmac key (payload_of blob expires)),
          ==_refl (hmac key (payload_of blob expires)),
        )
        (verify_payload-payload_of blob other expires now utf8 u)

  -- A token is accepted only if it has a payload and that payload's MAC under the key, and the
  -- payload names this very object and a time that is still to come.
  pub verify_sound :
      (key : Bytes) (token blob : Text) (now : ℕ)
      → verify encode decode hmac key token blob now ≡ ok tt
      → (left : Text) × (right : Text) × (digits : Text) × (expires : ℕ) × (token
          ≡ left ++ b'.' ∷ right)
        × (decode left ≡ some (blob ++ b':' ∷ digits))
        × (decode right ≡ some (hmac key (blob ++ b':' ∷ digits)))
        × (parse_u64 digits ≡ some expires)
        × (ltb now expires ≡ true)
  unfolding verify
  verify_sound key token blob now h = elim (Option-cases (split_once b'.' token)) [
    | inl bad ↦ ground arith
    | inr ((left, right), parts) ↦ elim (Option-cases (decode left)) [
      | inl bad ↦ ground arith
      | inr (payload, decoded) ↦ elim (Option-cases (decode right)) [
        | inl bad ↦ ground arith
        | inr (presented, mac) ↦
            let signed = ==→eq (hmac key payload) presented (ground arith) in
            let (digits, expires, whole, parsed, time) =
              verify_payload_sound payload blob now (ground arith) in
            (
              left,
              right,
              digits,
              expires,
              split_once_sound b'.' token left right parts,
              decoded ∙ ap some whole,
              mac ∙ ap some (sym signed ∙ ap (hmac key) whole),
              parsed,
              time,
            )
      ]
    ]
  ]
