-- ===== src/Outbound/Signing/Coverage.antt =====
-- What a signature covers, told from the headers as they are written (RFC 5322).
use agent_mail_kit.Prelude.{
  ℕ, ◌≡◌, refl, ap, ◌∙◌, true, false, Bool, not, ◌&&◌, ◌||◌, none, some, List, [], ◌∷◌, ◌++◌, ◌==◌,
  nat_eq, list_eq, any, all, arith, any-append, all_of_pointwise, contains, list_beq_iff,
  nat_beq_iff, Bool-cases, Option-cases, inl, inr,
}
use mathlib.Core.List.{append-nil, append_assoc}
use agent_mail_kit.Types.Str.{
  Text, literal, lower, eq_ignore_ascii_case, is_empty, is_whitespace, trim, trim_start, trim_end,
}
use agent_mail_kit.Types.Str.Split.{split_once-append}
use agent_mail_kit.Outbound.Errors.{Bytes}
use agent_mail_kit.Outbound.Signing.{
  Crypto, signed_headers, extended, header_block, lines, header_name, header_names,
  present_header_names, names_to_sign,
}

eq_ignore_ascii_case_refl : (s : Text) → eq_ignore_ascii_case s s ≡ true
unfolding eq_ignore_ascii_case
eq_ignore_ascii_case_refl [] = refl
eq_ignore_ascii_case_refl (a ∷ s) =
    ground (arith, nat_beq_iff (lower a) (lower a), eq_ignore_ascii_case_refl s)

any_of_contains :
    (n : Text) (names : List Text)
    → contains n names ≡ true
    → any (λ s. eq_ignore_ascii_case s n) names ≡ true
unfolding contains
any_of_contains n [] h = cc
any_of_contains n (x ∷ names) h =
    ground (arith, list_beq_iff x n, eq_ignore_ascii_case_refl n, any_of_contains n names)

covers-extended :
    (n : Text) (names extra : List Text)
    → (any (λ s. eq_ignore_ascii_case s n) names || contains n extra) ≡ true
    → any (λ s. eq_ignore_ascii_case s n) (extended names extra) ≡ true
unfolding extended contains
covers-extended n names [] h = ground arith
covers-extended n names (x ∷ extra) h =
    elim (Bool-cases (any (λ s. eq_ignore_ascii_case s x) names)) [
      | inl there ↦ rw there (covers-extended n names extra (ground (arith, list_beq_iff x n)))
      | inr new ↦ rw new (
          covers-extended n (names ++ x ∷ []) extra (
            ground (
              arith,
              list_beq_iff x n,
              any-append (λ s. eq_ignore_ascii_case s n) names (x ∷ []),
              eq_ignore_ascii_case_refl n,
            )))
    ]

-- Lines as they are written, each with its end.
abbrev pub written : List Text → Text
written [] = []
written (l ∷ ls) = l ++ b'\r' ∷ b'\n' ∷ written ls

abbrev no_cr : Text → Bool
no_cr s = all (λ c. not (c == b'\r')) s

-- A line has a character, and no CR.
unfoldable pub is_line : Text → Bool
is_line l = not (is_empty l) && no_cr l

-- A name has a character, no blank and no colon.
unfoldable pub is_name : Text → Bool
is_name name = not (is_empty name) && all (λ c. not (is_whitespace c) && not (c == b':')) name

block-other : (a : ℕ) (t : Text) → (a == b'\r') ≡ false → header_block (a ∷ t) ≡ a ∷ header_block t
unfolding header_block
block-other a [] h = refl
block-other a (b ∷ []) h = refl
block-other a (b ∷ c ∷ []) h = refl
block-other a (b ∷ c ∷ d ∷ t) h = ground (arith, h)

block-append : (s t : Text) → no_cr s ≡ true → header_block (s ++ t) ≡ s ++ header_block t
block-append [] t h = refl
block-append (a ∷ s) t h =
    block-other a (s ++ t) (ground (arith, h)) ∙ ap (◌∷◌ a) (block-append s t (ground (arith, h)))

block-crlf :
    (c : ℕ) (t : Text)
    → (c == b'\r') ≡ false
    → header_block (b'\r' ∷ b'\n' ∷ c ∷ t) ≡ b'\r' ∷ b'\n' ∷ header_block (c ∷ t)
unfolding header_block
block-crlf c [] h = refl
block-crlf c (d ∷ t) h = ground (arith, h, block-other b'\n' (c ∷ d ∷ t) refl)

lines-append : (s t : Text) → no_cr s ≡ true → lines (s ++ b'\r' ∷ b'\n' ∷ t) ≡ s ∷ lines t
unfolding lines
lines-append [] t h = refl
lines-append (a ∷ []) t h = ground (arith, h)
lines-append (a ∷ b ∷ s) t h = ground (arith, h, lines-append (b ∷ s) t)

lines-last : (s : Text) → no_cr s ≡ true → lines s ≡ s ∷ []
unfolding lines
lines-last [] h = refl
lines-last (a ∷ []) h = refl
lines-last (a ∷ b ∷ s) h = ground (arith, h, lines-last (b ∷ s))

block-end : (body : Text) → header_block (b'\r' ∷ b'\n' ∷ b'\r' ∷ b'\n' ∷ body) ≡ []
unfolding header_block
block-end body = refl

lines-written :
    (l : Text) (ls : List Text) (body : Text)
    → all is_line (l ∷ ls) ≡ true
    → lines (header_block (written (l ∷ ls) ++ b'\r' ∷ b'\n' ∷ body)) ≡ l ∷ ls
unfolding is_line
lines-written l [] body h =
    let clean : no_cr l ≡ true = ground (arith, h) in
    ap (λ t. lines (header_block t)) (append_assoc l (b'\r' ∷ b'\n' ∷ []) (b'\r' ∷ b'\n' ∷ body))
    ∙ ap lines (
        block-append l (b'\r' ∷ b'\n' ∷ b'\r' ∷ b'\n' ∷ body) clean
        ∙ ap (λ t. l ++ t) (block-end body)
        ∙ append-nil l)
    ∙ lines-last l clean
lines-written l ([] ∷ ls) body h = absurd (ground (arith, h))
lines-written l ((c ∷ g) ∷ ls) body h =
    let clean : no_cr l ≡ true = ground (arith, h) in
    let others : all is_line ((c ∷ g) ∷ ls) ≡ true = ground (arith, h) in
    let first : (c == b'\r') ≡ false = ground (arith, h) in
    let tail = (g ++ b'\r' ∷ b'\n' ∷ written ls) ++ b'\r' ∷ b'\n' ∷ body in
    ap (λ t. lines (header_block t))
      (append_assoc l (b'\r' ∷ b'\n' ∷ written ((c ∷ g) ∷ ls)) (b'\r' ∷ b'\n' ∷ body))
    ∙ ap lines (
        block-append l (b'\r' ∷ b'\n' ∷ c ∷ tail) clean
        ∙ ap (λ t. l ++ t) (block-crlf c tail first))
    ∙ lines-append l (header_block (c ∷ tail)) clean
    ∙ ap (λ r. l ∷ r) (lines-written (c ∷ g) ls body others)

trim_end-name : (s : Text) → all (λ c. not (is_whitespace c)) s ≡ true → trim_end s ≡ s
unfolding trim_end
trim_end-name [] h = refl
trim_end-name (c ∷ []) h = ground (arith, h)
trim_end-name (c ∷ d ∷ s) h = rw (trim_end-name (d ∷ s) (ground (arith, h))) refl

blanks :
    (s : Text)
    → all (λ c. not (is_whitespace c) && not (c == b':')) s ≡ true
    → all (λ c. not (is_whitespace c)) s ≡ true
blanks [] h = refl
blanks (c ∷ s) h = ground (arith, blanks s)

colons :
    (s : Text)
    → all (λ c. not (is_whitespace c) && not (c == b':')) s ≡ true
    → contains b':' s ≡ false
unfolding contains
colons [] h = refl
colons (c ∷ s) h = ground (arith, colons s)

trim-name : (s : Text) → is_name s ≡ true → trim s ≡ s
unfolding is_name trim trim_start
trim-name [] h = refl
trim-name (c ∷ s) h =
    rw (trim_end-name (c ∷ s) (blanks (c ∷ s) (ground (arith, h)))) (ground (arith, h))

space_is_whitespace : is_whitespace b' ' ≡ true
unfolding is_whitespace
space_is_whitespace = refl

tab_is_whitespace : is_whitespace b'\t' ≡ true
unfolding is_whitespace
tab_is_whitespace = refl

not_blank : (c d : ℕ) → is_whitespace d ≡ true → is_whitespace c ≡ false → (c == d) ≡ false
not_blank c d h k = elim (Bool-cases (c == d)) [
  | inr other ↦ other
  | inl same ↦ absurd (cc (ap is_whitespace ((nat_beq_iff c d).0 same), h, k))
]

header_name-written :
    (name value : Text) → is_name name ≡ true → header_name (name ++ b':' ∷ value) ≡ some name
unfolding header_name is_name
header_name-written [] value h = absurd (ground (arith, h))
header_name-written (c ∷ name) value h =
    let dark : is_whitespace c ≡ false = ground (arith, h) in
    rw
      (
        not_blank c b' ' space_is_whitespace dark,
        not_blank c b'\t' tab_is_whitespace dark,
        split_once-append b':' (c ∷ name) value (colons (c ∷ name) (ground (arith, h))),
        trim-name (c ∷ name) h,
      )
      refl

header_names-some :
    (l name : Text) (ls : List Text)
    → header_name l ≡ some name
    → header_names (l ∷ ls) ≡ name ∷ header_names ls
unfolding header_names
header_names-some l name ls h = rw (header_names, h) refl

header_names-none :
    (l : Text) (ls : List Text) → header_name l ≡ none → header_names (l ∷ ls) ≡ header_names ls
unfolding header_names
header_names-none l ls h = rw (header_names, h) refl

contains-header_names :
    (line name : Text) (ls : List Text)
    → header_name line ≡ some name
    → contains line ls ≡ true
    → contains name (header_names ls) ≡ true
unfolding contains
contains-header_names line name [] e h = cc
contains-header_names line name (l ∷ ls) e h = elim (Bool-cases (l == line)) [
  | inl same ↦
      ap (contains name)
        (header_names-some l name ls (ap header_name ((list_beq_iff l line).0 same) ∙ e))
      ∙ ground (arith, list_beq_iff name name)
  | inr other ↦
      let later : contains name (header_names ls) ≡ true =
        contains-header_names line name ls e (ground (arith, other, h)) in
      elim (Option-cases (header_name l)) [
        | inl absent ↦ ap (contains name) (header_names-none l ls absent) ∙ later
        | inr (n, there) ↦
            ap (contains name) (header_names-some l n ls there) ∙ ground (arith, later)
      ]
]

present_of_written :
    (ls : List Text) (body name value : Text)
    → all is_line ls ≡ true
    → contains (name ++ b':' ∷ value) ls ≡ true
    → is_name name ≡ true
    → contains name (present_header_names (written ls ++ b'\r' ∷ b'\n' ∷ body)) ≡ true
unfolding present_header_names contains
present_of_written [] body name value h m n = cc
present_of_written (l ∷ ls) body name value h m n = rw (lines-written l ls body h) (
    contains-header_names (name ++ b':' ∷ value) name (l ∷ ls) (header_name-written name value n) m)

-- The headers that are signed whether they are there or not.
abbrev pub always_signed : List Text
always_signed =
    literal "From"
    ∷ literal "To"
    ∷ literal "Cc"
    ∷ literal "Subject"
    ∷ literal "Date"
    ∷ literal "Message-ID"
    ∷ literal "In-Reply-To"
    ∷ literal "References"
    ∷ literal "MIME-Version"
    ∷ literal "Content-Type"
    ∷ []

abbrev pub is_covered : Crypto → Bytes → Text → Bool
is_covered c raw n = any (λ s. eq_ignore_ascii_case s n) (names_to_sign c raw)

-- Of a message that is read as lines without CR, none empty, a blank line and a body: a signature covers
-- every header that a line writes as its name, a colon and a value, continued or not, and the ten names
-- of the fixed list, in other case perhaps.
pub names_to_sign_covers :
    (c : Crypto) (raw : Bytes) (ls : List Text) (body name value : Text)
    → c.from_utf8_lossy raw ≡ written ls ++ b'\r' ∷ b'\n' ∷ body
    → all is_line ls ≡ true
    → contains (name ++ b':' ∷ value) ls ≡ true
    → is_name name ≡ true
    → (is_covered c raw name ≡ true) × (all (is_covered c raw) always_signed ≡ true)
unfolding names_to_sign
names_to_sign_covers c raw ls body name value e h m n =
    let present = present_header_names (c.from_utf8_lossy raw) in
    let there : contains name present ≡ true =
      ap (λ t. contains name (present_header_names t)) e
      ∙ present_of_written ls body name value h m n in
    (
      covers-extended name signed_headers present (ground (arith, there)),
      all_of_pointwise (is_covered c raw) always_signed (λ x k.
          covers-extended x signed_headers present
            (ground (arith, any_of_contains x signed_headers k))),
    )
