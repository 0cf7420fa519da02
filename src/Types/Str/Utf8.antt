-- ===== src/Types/Str/Utf8.antt =====
-- `std::str::from_utf8`: a text of the source is the list of its UTF-8 bytes here.
use agent_mail_kit.Prelude.{
  ℕ, true, ◌&&◌, Option, none, some, List, [], ◌∷◌, ◌++◌, ◌≡◌, refl, ◌==◌, nat_eq, ltb, leb, all,
  arith, if◌then◌else◌,
}
use agent_mail_kit.Types.Str.{Text}

-- The ranges that the next bytes of a character must lie in.
abbrev pub Pending : Type 0
Pending = List (ℕ × ℕ)

abbrev tail : ℕ × ℕ
tail = (0x80, 0xbf)

unfoldable pub lead : ℕ → Option Pending
lead b =
    if ltb b 0x80
    then some []
    else if leb 0xc2 b && leb b 0xdf
    then some (tail ∷ [])
    else if b == 0xe0
    then some ((0xa0, 0xbf) ∷ tail ∷ [])
    else if b == 0xed
    then some ((0x80, 0x9f) ∷ tail ∷ [])
    else if leb 0xe1 b && leb b 0xef
    then some (tail ∷ tail ∷ [])
    else if b == 0xf0
    then some ((0x90, 0xbf) ∷ tail ∷ tail ∷ [])
    else if leb 0xf1 b && leb b 0xf3
    then some (tail ∷ tail ∷ tail ∷ [])
    else if b == 0xf4
    then some ((0x80, 0x8f) ∷ tail ∷ tail ∷ [])
    else none

unfoldable pub next : Pending → ℕ → Option Pending
unfolding lead
next [] b = lead b
next ((low, high) ∷ rest) b = if leb low b && leb b high then some rest else none

unfoldable pub run : Option Pending → Text → Option Pending
run none bs = none
run (some q) [] = some q
run (some q) (b ∷ bs) = run (next q b) bs

unfoldable pub from_utf8 : Text → Option Text
from_utf8 bs = elim (run (some []) bs) [ some [] ↦ some bs | some (_ ∷ _) ↦ none | none ↦ none ]

run-none : (bs : Text) → run none bs ≡ none
unfolding run
run-none [] = refl
run-none (b ∷ bs) = refl

pub run-append : (q : Option Pending) (as' bs : Text) → run q (as' ++ bs) ≡ run (run q as') bs
unfolding run
run-append none [] bs = run-none bs
run-append none (a ∷ as') bs = run-none bs
run-append (some q) [] bs = refl
run-append (some q) (a ∷ as') bs = run-append (next q a) as' bs

pub run_of_ascii : (bs : Text) → all (λ b. ltb b 0x80) bs ≡ true → run (some []) bs ≡ some []
unfolding run next lead
run_of_ascii [] h = refl
run_of_ascii (b ∷ bs) h = ground (arith, run_of_ascii bs)

-- ASCII after a text is a text.
pub from_utf8-append :
    (as' bs : Text)
    → from_utf8 as' ≡ some as'
    → all (λ b. ltb b 0x80) bs ≡ true
    → from_utf8 (as' ++ bs) ≡ some (as' ++ bs)
unfolding from_utf8
from_utf8-append as' bs h ascii = ground (arith, run-append (some []) as' bs, run_of_ascii bs ascii)

text_of_run :
    (bs t : Text) (q : Option Pending) → run (some []) bs ≡ q → from_utf8 bs ≡ some t → t ≡ bs
unfolding from_utf8
text_of_run bs t none r h = ground (arith, r, h)
text_of_run bs t (some []) r h = ground (arith, r, h)
text_of_run bs t (some (p ∷ q)) r h = ground (arith, r, h)

pub from_utf8_sound : (bs t : Text) → from_utf8 bs ≡ some t → t ≡ bs
from_utf8_sound bs t h = text_of_run bs t (run (some []) bs) refl h
