-- ===== src/Core/Threading/Canonical.antt =====
-- crates/amk-core/src/threading.rs: canonical links.
use agent_mail_kit.Prelude.{
  ℕ, ◌≡◌, refl, ◌∙◌, ap, true, false, some, [], ◌∷◌, arith, nat_eq, nat_beq_iff, list_eq, list_beq,
  Bool-cases, inl, inr,
}
use agent_mail_kit.Types.Str.{
  Text, trim, trim_start, trim_end, is_whitespace, starts_with, ends_with,
}
use agent_mail_kit.Types.Ids.{MessageId, bracketed, is_bracketed}
use agent_mail_kit.Types.Ids.Brackets.{bracketed-is_bracketed, bracketed_of_is_bracketed}
use agent_mail_kit.Core.Threading.Links.{is_blank, canonical_link, index_key}

trim_end_of_ends_with :
    (c : ℕ) (s : Text) → is_whitespace c ≡ false → ends_with c s ≡ true → trim_end s ≡ s
unfolding trim_end
trim_end_of_ends_with c [] w h = refl
trim_end_of_ends_with c (a ∷ []) w h = ground (arith, nat_beq_iff a c)
trim_end_of_ends_with c (a ∷ b ∷ s) w h = ground (arith, trim_end_of_ends_with c (b ∷ s) w h)

trim_start_of_starts_with :
    (c : ℕ) (s : Text) → is_whitespace c ≡ false → starts_with c s ≡ true → trim_start s ≡ s
unfolding trim_start
trim_start_of_starts_with c [] w h = refl
trim_start_of_starts_with c (a ∷ s) w h = ground (arith, nat_beq_iff a c)

-- A bracketed text has no white space around it.
pub trim_of_is_bracketed : (s : Text) → is_bracketed s ≡ true → trim s ≡ s
unfolding trim is_bracketed is_whitespace
trim_of_is_bracketed s h =
    ap trim_start (trim_end_of_ends_with b'>' s refl (ground arith))
    ∙ trim_start_of_starts_with b'<' s refl (ground arith)

is_blank-nil : is_blank [] ≡ true
unfolding is_blank list_beq
is_blank-nil = refl

not_blank-bracketed : (s : Text) → is_blank s ≡ false → is_blank (bracketed s) ≡ false
unfolding is_blank bracketed list_beq
not_blank-bracketed [] h = cc
not_blank-bracketed (a ∷ []) h = ground arith
not_blank-bracketed (a ∷ b ∷ s) h = ground arith

-- What a header value carries is in its own canonical form: read once more it stays as it is, and a
-- stored id of that form is looked up under it.
pub canonical_link-canonical_link :
    (raw l : MessageId)
    → canonical_link raw ≡ some l
    → (canonical_link l ≡ some l) × (index_key l ≡ some l) × (is_bracketed l ≡ true)
canonical_link-canonical_link raw l h = elim (Bool-cases (is_blank (trim raw))) [
  | inl blank ↦ unfold canonical_link in ground (arith, blank, h)
  | inr full ↦ rw (← (form full)) (fixed (trim raw) full)
]
  where
    form : is_blank (trim raw) ≡ false → bracketed (trim raw) ≡ l
    form full = unfold canonical_link in ground (arith, full, h)

    fixed :
        (s : Text)
        → is_blank s ≡ false
        → (canonical_link (bracketed s) ≡ some (bracketed s))
          × (index_key (bracketed s) ≡ some (bracketed s))
          × (is_bracketed (bracketed s) ≡ true)
    fixed s full =
        let b = bracketed-is_bracketed s in
        let t = trim_of_is_bracketed (bracketed s) b in
        let k = not_blank-bracketed s full in
        (
          unfold canonical_link in rw (t, k) (ap some (bracketed_of_is_bracketed (bracketed s) b)),
          unfold index_key in rw (t, k),
          b,
        )
