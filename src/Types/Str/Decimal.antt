-- ===== src/Types/Str/Decimal.antt =====
-- Decimal numbers: the `Display` and the `FromStr` of `u64`, and the `FromStr` of `i128`.
pub mod Signed
use agent_mail_kit.Prelude.{
  ℤ, pos, negated, ℕ, zero, suc, ◌+◌, ◌-◌, ◌*◌, ◌/◌, ◌%◌, ◌^◌, Bool, true, ◌&&◌, ◌||◌, not, Option,
  none, some, [], ◌∷◌, ◌++◌, ◌≡◌, refl, ◌∙◌, ap, sym, all-append, ◌==◌, nat_eq, ltb, leb, all,
  arith, if◌then◌else◌, Bool-cases, inl, inr,
}
use agent_mail_kit.Types.Str.{Text}

-- The digits of a number below `10 ^ fuel`, the least one last.
unfoldable pub digits : ℕ → ℕ → Text
digits zero n = []
digits (suc fuel) n =
    let front = digits fuel (n / 10) in
    if ltb n 10 then (b'0' + n) ∷ [] else front ++ (b'0' + n % 10) ∷ []

-- A `u64` is below `10 ^ 20`.
unfoldable pub to_decimal : ℕ → Text
to_decimal n = digits 20 n

-- One round of the parser of a type whose magnitudes are below the bound: another digit, without
-- overflow.
unfoldable pub push_digit : ℕ → ℕ → ℕ → Option ℕ
push_digit bound acc c =
    if leb b'0' c && leb c b'9' && ltb (acc * 10 + (c - b'0')) bound
    then some (acc * 10 + (c - b'0'))
    else none

unfoldable pub parse_digits : ℕ → Option ℕ → Text → Option ℕ
parse_digits bound acc [] = acc
parse_digits bound none (c ∷ s) = none
parse_digits bound (some acc) (c ∷ s) = parse_digits bound (push_digit bound acc c) s

-- A sign `+` may stand before at least one digit.
unfoldable pub parse_unsigned : ℕ → Text → Option ℕ
unfolding parse_digits push_digit
parse_unsigned bound [] = none
parse_unsigned bound (c ∷ []) = parse_digits bound (some 0) (c ∷ [])
parse_unsigned bound (c ∷ d ∷ s) =
    if c == b'+'
    then parse_digits bound (some 0) (d ∷ s)
    else parse_digits bound (some 0) (c ∷ d ∷ s)

unfoldable pub parse_u64 : Text → Option ℕ
unfolding parse_unsigned
parse_u64 s = parse_unsigned (2 ^ 64) s

abbrev pub mapped : (ℕ → ℤ) → Option ℕ → Option ℤ
mapped f none = none
mapped f (some n) = some (f n)

-- `i128`, from `- 2 ^ 127` to `2 ^ 127 - 1`.
unfoldable pub parse_i128 : Text → Option ℤ
unfolding parse_unsigned parse_digits
parse_i128 [] = none
parse_i128 (c ∷ []) = mapped pos (parse_digits (2 ^ 127) (some 0) (c ∷ []))
parse_i128 (c ∷ d ∷ s) =
    if c == b'-'
    then mapped negated (parse_digits (2 ^ 127 + 1) (some 0) (d ∷ s))
    else mapped pos (parse_unsigned (2 ^ 127) (c ∷ d ∷ s))

parse_digits-append :
    (bound : ℕ) (acc : Option ℕ) (s : Text) (c : ℕ)
    → parse_digits bound acc (s ++ c ∷ []) ≡ parse_digits bound (parse_digits bound acc s) (c ∷ [])
unfolding parse_digits
parse_digits-append bound acc [] c = refl
parse_digits-append bound none (d ∷ s) c = refl
parse_digits-append bound (some acc) (d ∷ s) c =
    parse_digits-append bound (push_digit bound acc d) s c

-- What a type with the bound reads of a number.
abbrev pub within : ℕ → ℕ → Option ℕ
within bound n = if ltb n bound then some n else none

push_digit_lem :
    (bound acc d : ℕ)
    → ltb d 10 ≡ true
    → push_digit bound acc (b'0' + d) ≡ within bound (acc * 10 + d)
unfolding push_digit
push_digit_lem bound acc d small = ground arith

push_digit-last : (bound n : ℕ) → push_digit bound (n / 10) (b'0' + n % 10) ≡ within bound n
push_digit-last bound n =
    push_digit_lem bound (n / 10) (n % 10) (ground arith) ∙ ap (within bound) (omega arith)

parse_digits-last :
    (bound n : ℕ)
    → parse_digits bound (within bound (n / 10)) ((b'0' + n % 10) ∷ []) ≡ within bound n
unfolding parse_digits
parse_digits-last bound n = elim (Bool-cases (ltb (n / 10) bound)) [
  | inl fits ↦ rw fits (push_digit-last bound n)
  | inr over ↦ rw over (ground arith)
]

pub parse_digits-digits :
    (bound fuel n : ℕ)
    → ltb 0 bound ≡ true
    → ltb n (10 ^ fuel) ≡ true
    → parse_digits bound (some 0) (digits fuel n) ≡ within bound n
unfolding digits parse_digits
parse_digits-digits bound zero n u h = ground arith
parse_digits-digits bound (suc fuel) n u h = elim (Bool-cases (ltb n 10)) [
  | inl small ↦ rw small (push_digit_lem bound 0 n small ∙ ap (within bound) (omega arith))
  | inr large ↦
      rw
        (
          large,
          parse_digits-append bound (some 0) (digits fuel (n / 10)) (b'0' + n % 10),
          parse_digits-digits bound fuel (n / 10) u (ground arith),
        )
        (parse_digits-last bound n)
]

pub all-digits :
    (p : ℕ → Bool) (fuel n : ℕ)
    → ((d : ℕ) → ltb d 10 ≡ true → p (b'0' + d) ≡ true)
    → all p (digits fuel n) ≡ true
unfolding digits
all-digits p zero n h = refl
all-digits p (suc fuel) n h = elim (Bool-cases (ltb n 10)) [
  | inl small ↦ rw (small, h n small) refl
  | inr large ↦
      rw
        (
          large,
          all-append p (digits fuel (n / 10)) ((b'0' + n % 10) ∷ []),
          all-digits p fuel (n / 10) h,
          h (n % 10) (ground arith),
        )
        refl
]

-- Only digits are printed.
pub all-to_decimal :
    (p : ℕ → Bool) (n : ℕ)
    → ((d : ℕ) → ltb d 10 ≡ true → p (b'0' + d) ≡ true)
    → all p (to_decimal n) ≡ true
unfolding to_decimal
all-to_decimal p n h = all-digits p 20 n h

pub digits_last : (fuel n : ℕ) → (s : Text) × (c : ℕ) × (digits (suc fuel) n ≡ s ++ c ∷ [])
unfolding digits
digits_last fuel n = elim (Bool-cases (ltb n 10)) [
  | inl small ↦ ([], b'0' + n, rw small refl)
  | inr large ↦ (digits fuel (n / 10), b'0' + n % 10, rw large refl)
]

abbrev pub is_unsigned : Text → Bool
is_unsigned s = all (λ d. not (d == b'+' || d == b'-')) s

parse_unsigned_of_digits :
    (bound : ℕ) (s : Text) (c : ℕ)
    → is_unsigned (s ++ c ∷ []) ≡ true
    → parse_unsigned bound (s ++ c ∷ []) ≡ parse_digits bound (some 0) (s ++ c ∷ [])
unfolding parse_unsigned
parse_unsigned_of_digits bound [] c h = refl
parse_unsigned_of_digits bound (d ∷ []) c h = ground arith
parse_unsigned_of_digits bound (d ∷ e ∷ s) c h = ground arith

pub parse_unsigned-digits :
    (bound fuel n : ℕ)
    → ltb 0 bound ≡ true
    → ltb n (10 ^ suc fuel) ≡ true
    → parse_unsigned bound (digits (suc fuel) n) ≡ within bound n
parse_unsigned-digits bound fuel n u h =
    let (s, c, e) = digits_last fuel n in
    let plain : is_unsigned (digits (suc fuel) n) ≡ true =
      all-digits (λ d. not (d == b'+' || d == b'-')) (suc fuel) n (λ d small. ground arith) in
    ap (parse_unsigned bound) e
    ∙ parse_unsigned_of_digits bound s c (rw (sym e) plain)
    ∙ ap (parse_digits bound (some 0)) (sym e)
    ∙ parse_digits-digits bound (suc fuel) n u h

-- A `u64` is read back as it was printed, and a number that is none is not read.
pub parse_u64-digits :
    (fuel n : ℕ)
    → ltb n (10 ^ suc fuel) ≡ true
    → parse_u64 (digits (suc fuel) n) ≡ within (2 ^ 64) n
unfolding parse_u64
parse_u64-digits fuel n h = parse_unsigned-digits (2 ^ 64) fuel n refl h

pub parse_u64-to_decimal : (n : ℕ) → ltb n (2 ^ 64) ≡ true → parse_u64 (to_decimal n) ≡ some n
unfolding to_decimal
parse_u64-to_decimal n u = parse_u64-digits 19 n (ground arith) ∙ ground arith

pub digits_nonempty : (fuel n : ℕ) → (c : ℕ) × (s : Text) × (digits (suc fuel) n ≡ c ∷ s)
digits_nonempty fuel n =
    let (s, c, e) = digits_last fuel n in let (d, t, e') = cons_of_append s c in (d, t, e ∙ e')
  where
    cons_of_append : (s : Text) (c : ℕ) → (d : ℕ) × (t : Text) × (s ++ c ∷ [] ≡ d ∷ t)
    cons_of_append [] c = (c, [], refl)
    cons_of_append (d ∷ s) c = (d, s ++ c ∷ [], refl)
