-- ===== src/Types/Ids/Brackets.antt =====
-- The angle brackets of message ids.
use agent_mail_kit.Prelude.{ℕ, ◌≡◌, true, false, some, [], ◌∷◌, ◌++◌, arith}
use agent_mail_kit.Types.Str.{Text, ends_with, strip_suffix}
use agent_mail_kit.Types.Ids.{is_bracketed, bracketed, unbracketed}

pub ends_with_concat : (c : ℕ) (s : Text) → ends_with c (s ++ c ∷ []) ≡ true
ends_with_concat c [] = ground arith
ends_with_concat c (a ∷ []) = ground arith
ends_with_concat c (a ∷ b ∷ s) = ends_with_concat c (b ∷ s)

strip_suffix_concat : (c : ℕ) (s : Text) → strip_suffix c (s ++ c ∷ []) ≡ some s
strip_suffix_concat c [] = ground arith
strip_suffix_concat c (a ∷ []) = ground arith
strip_suffix_concat c (a ∷ b ∷ s) = ground (arith, strip_suffix_concat c (b ∷ s))

ends_with_cons : (c d : ℕ) (s : Text) → ends_with c s ≡ true → ends_with c (d ∷ s) ≡ true
ends_with_cons c d [] h = cc
ends_with_cons c d (a ∷ s) h = h

-- Whatever the text, what `bracketed` returns is bracketed.
pub bracketed-is_bracketed : (s : Text) → is_bracketed (bracketed s) ≡ true
unfolding is_bracketed bracketed
bracketed-is_bracketed s =
    ground (arith, ends_with_cons b'>' b'<' (s ++ b'>' ∷ []) (ends_with_concat b'>' s))

pub bracketed_of_is_bracketed : (s : Text) → is_bracketed s ≡ true → bracketed s ≡ s
unfolding is_bracketed bracketed
bracketed_of_is_bracketed s h = ground arith

pub bracketed-bracketed : (s : Text) → bracketed (bracketed s) ≡ bracketed s
bracketed-bracketed s = bracketed_of_is_bracketed (bracketed s) (bracketed-is_bracketed s)

-- A bare address comes back when the brackets that were added are taken off.
pub unbracketed-bracketed : (s : Text) → is_bracketed s ≡ false → unbracketed (bracketed s) ≡ s
unfolding is_bracketed bracketed unbracketed
unbracketed-bracketed s h = ground (arith, strip_suffix_concat b'>' s)
