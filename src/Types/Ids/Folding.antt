-- ===== src/Types/Ids/Folding.antt =====
-- Case folding of inbox ids: the test without regard to case is the equality of the stored forms.
use agent_mail_kit.Prelude.{ℕ, ◌≡◌, refl, ◌↔◌, true, [], ◌∷◌, map, arith, list_eq}
use agent_mail_kit.Types.Str.{Text, lower, eq_ignore_ascii_case}
use agent_mail_kit.Types.Ids.{InboxId, normalized, eq_normalized}

lower-lower : (c : ℕ) → lower (lower c) ≡ lower c
unfolding lower
lower-lower c = ground arith

fold→eq : (a b : Text) → eq_ignore_ascii_case a b ≡ true → map lower a ≡ map lower b
unfolding eq_ignore_ascii_case
fold→eq [] [] h = refl
fold→eq [] (y ∷ b) h = cc
fold→eq (x ∷ a) [] h = cc
fold→eq (x ∷ a) (y ∷ b) h = ground (arith, fold→eq a b)

eq→fold : (a b : Text) → map lower a ≡ map lower b → eq_ignore_ascii_case a b ≡ true
unfolding eq_ignore_ascii_case
eq→fold [] [] h = refl
eq→fold [] (y ∷ b) h = cc
eq→fold (x ∷ a) [] h = cc
eq→fold (x ∷ a) (y ∷ b) h = ground (arith, eq→fold a b)

-- Two inbox ids match without regard to ASCII case exactly when their stored (lowercased) forms
-- are equal.
pub eq_normalized_iff : (a b : InboxId) → (eq_normalized a b ≡ true) ↔ (normalized a ≡ normalized b)
unfolding eq_normalized normalized
eq_normalized_iff a b = (fold→eq a b, eq→fold a b)

pub normalized-normalized : (a : InboxId) → normalized (normalized a) ≡ normalized a
unfolding normalized
normalized-normalized [] = refl
normalized-normalized (c ∷ s) = cc (lower-lower c, normalized-normalized s)

pub eq_normalized-normalized : (a b : InboxId) → eq_normalized a (normalized b) ≡ eq_normalized a b
eq_normalized-normalized a b =
    ground
      (arith, eq_normalized_iff a b, eq_normalized_iff a (normalized b), normalized-normalized b)

pub eq_normalized_comm : (a b : InboxId) → eq_normalized a b ≡ eq_normalized b a
eq_normalized_comm a b = ground (arith, eq_normalized_iff a b, eq_normalized_iff b a)

-- An id may be replaced by another spelling of it.
pub eq_normalized_congr :
    (a b c : InboxId) → eq_normalized b c ≡ true → eq_normalized a b ≡ eq_normalized a c
eq_normalized_congr a b c h =
    ground (arith, eq_normalized_iff b c, eq_normalized_iff a b, eq_normalized_iff a c)
