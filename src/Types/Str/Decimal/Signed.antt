-- ===== src/Types/Str/Decimal/Signed.antt =====
-- Decimal numbers that are read as signed ones.
use agent_mail_kit.Prelude.{
  pos, negated, ℕ, suc, ◌+◌, ◌^◌, ◌≡◌, refl, ◌∙◌, ap, sym, true, not, ◌||◌, none, some, [], ◌∷◌,
  ◌++◌, ◌==◌, nat_eq, ltb, arith,
}
use agent_mail_kit.Types.Str.{Text}
use agent_mail_kit.Types.Str.Decimal.{
  digits, push_digit, parse_digits, parse_unsigned, parse_u64, parse_i128, mapped, within,
  is_unsigned, all-digits, digits_last, parse_unsigned-digits, parse_digits-digits,
}

parse_i128_of_signless :
    (s : Text) (c : ℕ)
    → is_unsigned (s ++ c ∷ []) ≡ true
    → parse_i128 (s ++ c ∷ []) ≡ mapped pos (parse_unsigned (2 ^ 127) (s ++ c ∷ []))
unfolding parse_i128 parse_unsigned
parse_i128_of_signless [] c h = refl
parse_i128_of_signless (d ∷ []) c h = ground arith
parse_i128_of_signless (d ∷ e ∷ s) c h = ground arith

pub parse_i128-digits :
    (fuel n : ℕ)
    → ltb n (10 ^ suc fuel) ≡ true
    → parse_i128 (digits (suc fuel) n) ≡ mapped pos (within (2 ^ 127) n)
parse_i128-digits fuel n h =
    let (s, c, e) = digits_last fuel n in
    let plain : is_unsigned (digits (suc fuel) n) ≡ true =
      all-digits (λ d. not (d == b'+' || d == b'-')) (suc fuel) n (λ d small. ground arith) in
    ap parse_i128 e
    ∙ parse_i128_of_signless s c (rw (sym e) plain)
    ∙ ap (λ t. mapped pos (parse_unsigned (2 ^ 127) t)) (sym e)
    ∙ ap (mapped pos) (parse_unsigned-digits (2 ^ 127) fuel n refl h)

signed_digits :
    (s : Text) (c : ℕ)
    → (parse_u64 (b'-' ∷ s ++ c ∷ []) ≡ none)
      × (parse_i128 (b'-' ∷ s ++ c ∷ [])
          ≡ mapped negated (parse_digits (2 ^ 127 + 1) (some 0) (s ++ c ∷ [])))
unfolding parse_u64 parse_unsigned parse_i128 parse_digits push_digit
signed_digits [] c = (refl, refl)
signed_digits (d ∷ s) c = (refl, refl)

-- With a minus sign a number is no `u64`, and the `i128` that is so much below zero.
pub parse-negative :
    (fuel n : ℕ)
    → ltb n (10 ^ suc fuel) ≡ true
    → (parse_u64 (b'-' ∷ digits (suc fuel) n) ≡ none)
      × (parse_i128 (b'-' ∷ digits (suc fuel) n) ≡ mapped negated (within (2 ^ 127 + 1) n))
parse-negative fuel n h =
    let (s, c, e) = digits_last fuel n in
    let (unsigned, signed) = signed_digits s c in
    (
      ap (λ t. parse_u64 (b'-' ∷ t)) e ∙ unsigned,
      ap (λ t. parse_i128 (b'-' ∷ t)) e
          ∙ signed
          ∙ ap (λ t. mapped negated (parse_digits (2 ^ 127 + 1) (some 0) t)) (sym e)
          ∙ ap (mapped negated) (parse_digits-digits (2 ^ 127 + 1) (suc fuel) n refl h),
    )
