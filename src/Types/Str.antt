-- ===== src/Types/Str.antt =====
-- What the ids use of Rust's `str`, over code points: `to_ascii_lowercase`,
-- `eq_ignore_ascii_case`, `starts_with`, `ends_with`, `strip_prefix`, `strip_suffix`, `trim`.
pub mod Split
pub mod Utf8
pub mod Decimal
pub mod Order
use Prim.Native.Char.{code}
use Prim.Native.String.{String}
use agent_mail_kit.Prelude.{
  ℕ, ◌+◌, Bool, true, false, ◌&&◌, ◌||◌, Option, none, some, List, [], ◌∷◌, map, ◌==◌, nat_eq, leb,
  if◌then◌else◌,
}

abbrev pub Text : Type 0
Text = List ℕ

-- A literal of the source. `String` has its own `[]` and `∷`.
abbrev pub literal : String → Text
literal String.[] = []
literal (String.◌∷◌ c s) = code c ∷ literal s

-- `is_empty()`, of texts and of vectors
abbrev pub is_empty {ℓ} : {A : Type ℓ} → List A → Bool
is_empty [] = true
is_empty (x ∷ xs) = false

unfoldable pub lower : ℕ → ℕ
lower c = if leb b'A' c && leb c b'Z' then c + 32 else c

unfoldable pub to_ascii_lowercase : Text → Text
to_ascii_lowercase s = map lower s

-- Equal lengths, and equal in lower case at each place.
unfoldable pub eq_ignore_ascii_case : Text → Text → Bool
eq_ignore_ascii_case [] [] = true
eq_ignore_ascii_case (a ∷ as') (b ∷ bs) = lower a == lower b && eq_ignore_ascii_case as' bs
eq_ignore_ascii_case _ _ = false

abbrev pub starts_with : ℕ → Text → Bool
starts_with c [] = false
starts_with c (a ∷ s) = a == c

abbrev pub ends_with : ℕ → Text → Bool
ends_with c [] = false
ends_with c (a ∷ []) = a == c
ends_with c (a ∷ b ∷ s) = ends_with c (b ∷ s)

abbrev pub strip_prefix : ℕ → Text → Option Text
strip_prefix c [] = none
strip_prefix c (a ∷ s) = if a == c then some s else none

abbrev pub strip_suffix : ℕ → Text → Option Text
strip_suffix c [] = none
strip_suffix c (a ∷ []) = if a == c then some [] else none
strip_suffix c (a ∷ b ∷ s) = elim (strip_suffix c (b ∷ s)) [ none ↦ none | some t ↦ some (a ∷ t) ]

-- `char::is_whitespace`: the characters with Unicode's property White_Space.
unfoldable pub is_whitespace : ℕ → Bool
is_whitespace c =
    leb 9 c && leb c 13
    || c == 32
    || c == 0x85
    || c == 0xa0
    || c == 0x1680
    || leb 0x2000 c && leb c 0x200a
    || c == 0x2028
    || c == 0x2029
    || c == 0x202f
    || c == 0x205f
    || c == 0x3000

unfoldable pub trim_start : Text → Text
trim_start [] = []
trim_start (c ∷ s) = if is_whitespace c then trim_start s else c ∷ s

unfoldable pub trim_end : Text → Text
trim_end [] = []
trim_end (c ∷ s) = elim (trim_end s) [
  | [] ↦ if is_whitespace c then [] else c ∷ []
  | d ∷ r ↦ c ∷ d ∷ r
]

unfoldable pub trim : Text → Text
unfolding trim_start trim_end
trim s = trim_start (trim_end s)
