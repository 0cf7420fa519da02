-- ===== src/Tests/Pages.antt =====
-- List limits at concrete inputs.
use agent_mail_kit.Prelude.{
  ◌+◌, ◌^◌, ◌≡◌, refl, true, ◌&&◌, none, some, [], ◌∷◌, ltb, leb, ok, err, if◌then◌else◌,
}
use agent_mail_kit.Types.Str.{Text}
use agent_mail_kit.Types.Str.Decimal.{digits, parse_u64}
use agent_mail_kit.Http.Pagination.{
  too_small_limit, nan_limit, parse_limit, resolve, resolved_of, Resolved, parsed_limit, unwrap_or,
}
use agent_mail_kit.Http.Pagination.Limits.{parse_limit-digits, resolve_bounded}

-- A positive limit beyond `u64` is called too small.
parse_limit-digits_example :
    (parse_limit (digits 20 (2 ^ 64)) ≡ (
      if ltb 0 (2 ^ 64) && ltb (2 ^ 64) (2 ^ 64)
      then ok (2 ^ 64)
      else if ltb (2 ^ 64) (2 ^ 127)
      then err too_small_limit
      else err nan_limit))
    × (parse_limit (b'-' ∷ digits 20 (2 ^ 64))
        ≡ (if ltb (2 ^ 64) (2 ^ 127 + 1) then err too_small_limit else err nan_limit))
parse_limit-digits_example = parse_limit-digits 19 (2 ^ 64) refl

-- The limit 1001.
abbrev over : Text
over = b'1' ∷ b'0' ∷ b'0' ∷ b'1' ∷ []

abbrev clamped : Resolved
unfolding resolved_of
clamped = resolved_of (some 1001) none none

resolve_bounded_example :
    (parsed_limit (some over) ≡ ok clamped.echo_limit)
    × (ltb 0 clamped.limit ≡ true)
    × (leb clamped.limit 1000 ≡ true)
    × (leb (unwrap_or clamped.echo_limit 100) 1000 ≡ true
        → clamped.limit ≡ unwrap_or clamped.echo_limit 100)
unfolding resolve parse_limit parse_u64
resolve_bounded_example = resolve_bounded (some over) none none clamped refl
