-- ===== src/Http/Pagination/Limits.antt =====
-- crates/amk-http/src/pagination.rs: which limits are accepted, and what they become.
use agent_mail_kit.Prelude.{
  pos, negated, ℕ, suc, ◌+◌, ◌^◌, ◌≡◌, refl, ap, sym, ◌∙◌, String, Bool, true, ◌&&◌, Option, none,
  some, [], ◌∷◌, ltb, leb, ok, err, if◌then◌else◌, arith, inl, inr, Result-cases, ok_injective,
}
use agent_mail_kit.Types.Str.{Text}
use agent_mail_kit.Types.Str.Decimal.{
  digits, parse_u64, parse_i128, parse_u64-digits, within, mapped, digits_nonempty,
}
use agent_mail_kit.Types.Str.Decimal.Signed.{parse-negative, parse_i128-digits}
use agent_mail_kit.Http.Pagination.{
  AppError, too_small_limit, nan_limit, classify, parse_limit, resolve, Resolved, parsed_limit,
  unwrap_or, resolved_of,
}

parse_limit-cons :
    (c : ℕ) (s : Text) → parse_limit (c ∷ s) ≡ classify (parse_u64 (c ∷ s)) (parse_i128 (c ∷ s))
unfolding parse_limit
parse_limit-cons c s = refl

classify-within :
    (n : ℕ)
    → classify (within (2 ^ 64) n) (mapped pos (within (2 ^ 127) n)) ≡ (
        if ltb 0 n && ltb n (2 ^ 64)
        then ok n
        else if ltb n (2 ^ 127)
        then err too_small_limit
        else err nan_limit)
unfolding classify
classify-within n = ground arith

classify-negated :
    (n : ℕ)
    → classify none (mapped negated (within (2 ^ 127 + 1) n))
      ≡ (if ltb n (2 ^ 127 + 1) then err too_small_limit else err nan_limit)
unfolding classify
classify-negated n = ground arith

-- A decimal number is accepted, as it is, exactly when it is positive and a `u64`. Zero, every
-- negative `i128`, and every number from `2 ^ 64` up to the largest `i128` are called too small; what
-- lies outside `i128` is called no number.
pub parse_limit-digits :
    (fuel n : ℕ)
    → ltb n (10 ^ suc fuel) ≡ true
    → (parse_limit (digits (suc fuel) n) ≡ (
        if ltb 0 n && ltb n (2 ^ 64)
        then ok n
        else if ltb n (2 ^ 127)
        then err too_small_limit
        else err nan_limit))
      × (parse_limit (b'-' ∷ digits (suc fuel) n)
          ≡ (if ltb n (2 ^ 127 + 1) then err too_small_limit else err nan_limit))
parse_limit-digits fuel n h =
    let (c, s, e) = digits_nonempty fuel n in
    let (unsigned, signed) = parse-negative fuel n h in
    (
      ap parse_limit e
          ∙ parse_limit-cons c s
          ∙ ap (λ t. classify (parse_u64 t) (parse_i128 t)) (sym e)
          ∙ (rw (parse_u64-digits fuel n h, parse_i128-digits fuel n h) (classify-within n)),
      parse_limit-cons b'-' (digits (suc fuel) n) ∙ (rw (unsigned, signed) (classify-negated n)),
    )

classify-positive :
    (u : Option ℕ) (i : Option _) (v : ℕ) → classify u i ≡ ok v → (u ≡ some v) × (ltb 0 v ≡ true)
unfolding classify
classify-positive none none v h = cc
classify-positive none (some i) v h = cc
classify-positive (some u) i v h = ground arith

parse_limit-positive : (raw : Text) (v : ℕ) → parse_limit raw ≡ ok v → ltb 0 v ≡ true
unfolding parse_limit
parse_limit-positive [] v h = cc
parse_limit-positive (c ∷ s) v h =
    (classify-positive (parse_u64 (c ∷ s)) (parse_i128 (c ∷ s)) v h).1

parsed_limit-positive :
    (limit : Option Text) (parsed : Option ℕ)
    → parsed_limit limit ≡ ok parsed
    → ltb 0 (unwrap_or parsed 100) ≡ true
unfolding parsed_limit
parsed_limit-positive none parsed h = ground arith
parsed_limit-positive (some raw) parsed h = elim (Result-cases (parse_limit raw)) [
  | inl (v, e) ↦ ground (arith, parse_limit-positive raw v e)
  | inr (bad, e) ↦ ground arith
]

-- A resolved query fetches at least one row and at most a thousand, and just as many as were asked
-- for, or a hundred, if that is no more than a thousand; what it echoes is the very limit that was
-- asked for, and nothing if none was.
pub resolve_bounded :
    (limit : Option Text) (token : Option String) (asc : Option Bool) (q : Resolved)
    → resolve limit token asc ≡ ok q
    → (parsed_limit limit ≡ ok q.echo_limit)
      × (ltb 0 q.limit ≡ true)
      × (leb q.limit 1000 ≡ true)
      × (leb (unwrap_or q.echo_limit 100) 1000 ≡ true → q.limit ≡ unwrap_or q.echo_limit 100)
unfolding resolve resolved_of
resolve_bounded limit token asc q h = elim (Result-cases (parsed_limit limit)) [
  | inl (parsed, e) ↦
      let positive = parsed_limit-positive limit parsed e in
      let same = ok_injective {E = AppError} (resolved_of parsed token asc) q (rw e at h) in
      rw (sym same) (e, ground (arith, positive), ground arith, λ few. ground (arith, few))
  | inr (bad, e) ↦ ground arith
]
