-- ===== src/Tests/Tokens.antt =====
-- Download tokens at concrete inputs, with a base64 of two letters for each byte and a toy MAC.
use agent_mail_kit.Prelude.{
  ℕ, ◌+◌, ◌-◌, ◌*◌, ◌/◌, ◌%◌, true, false, not, Option, none, some, [], ◌∷◌, ◌++◌, ◌≡◌, refl, ap,
  ◌==◌, nat_eq, list_eq, list_beq, leb, ltb, contains, ok, err, arith, if◌then◌else◌,
}
use agent_mail_kit.Types.Str.{Text}
use agent_mail_kit.Types.Str.Utf8.{from_utf8, run, next}
use agent_mail_kit.Types.Str.Decimal.{parse_u64}
use agent_mail_kit.Core.Download.{Bytes, wrong_resource, expired, mint, verify}
use agent_mail_kit.Core.Download.Tokens.{verify-mint, verify_sound}

-- A byte as its quotient and its remainder by 16, above the full stop.
abbrev encode : Bytes → Text
encode [] = []
encode (b ∷ bs) = (65 + b / 16) ∷ (65 + b % 16) ∷ encode bs

abbrev decode : Text → Option Bytes
decode [] = some []
decode (h ∷ []) = none
decode (h ∷ l ∷ s) = elim (decode s) [
  | none ↦ none
  | some bs ↦ some (((h - 65) * 16 + (l - 65)) ∷ bs)
]

abbrev hmac : Bytes → Bytes → Bytes
hmac key payload = key ++ payload

decode-encode : (bs : Bytes) → decode (encode bs) ≡ some bs
decode-encode [] = refl
decode-encode (b ∷ bs) =
    let digits : (65 + b / 16 - 65) * 16 + (65 + b % 16 - 65) ≡ b = omega arith in
    rw (decode-encode bs) (ap (λ c. some (c ∷ bs)) digits)

encode-stop : (bs : Bytes) → contains b'.' (encode bs) ≡ false
unfolding contains
encode-stop [] = refl
encode-stop (b ∷ bs) = ground (arith, encode-stop bs)

abbrev blob : Text
blob = b'a' ∷ b':' ∷ b'1' ∷ []

abbrev key : Bytes
key = 7 ∷ []

verify-mint_example :
    verify encode decode hmac key (mint encode decode hmac key blob 1000) blob 999 ≡ (
      if not (blob == blob)
      then err wrong_resource
      else if leb 1000 999
      then err expired
      else ok tt)
unfolding from_utf8 run next
verify-mint_example =
    verify-mint encode decode hmac key blob blob 1000 999 decode-encode encode-stop refl refl

accepted : verify encode decode hmac key (mint encode decode hmac key blob 1000) blob 999 ≡ ok tt
unfolding list_beq
accepted = verify-mint_example

verify_sound_example :
    (left : Text) × (right : Text) × (digits : Text) × (expires : ℕ) × (mint encode decode hmac key
        blob 1000
      ≡ left ++ b'.' ∷ right)
    × (decode left ≡ some (blob ++ b':' ∷ digits))
    × (decode right ≡ some (hmac key (blob ++ b':' ∷ digits)))
    × (parse_u64 digits ≡ some expires)
    × (ltb 999 expires ≡ true)
verify_sound_example =
    verify_sound encode decode hmac key (mint encode decode hmac key blob 1000) blob 999 accepted
