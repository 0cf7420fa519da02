-- ===== src/Outbound/Attachments/Inline.antt =====
-- Which attachments are accepted, and what the builder is then told.
use agent_mail_kit.Prelude.{
  ◌<◌, false, ◌≡◌, refl, ap, ◌∙◌, sym, ◌≢◌, ◌↔◌, not, Option, none, some, List, [], ◌∷◌, ◌++◌,
  length, leb, arith, ok, err, ok_injective, refuse, ok_or, bind_ok, refuse_ok, ok_or_ok,
  Option-cases, inl, inr,
}
use mathlib.Core.List.{append-nil, append_assoc}
use agent_mail_kit.Types.Str.{Text}
use agent_mail_kit.Types.Send.{SendAttachment, has_exactly_one_source, is_some}
use agent_mail_kit.Outbound.Errors.{Bytes, assembly, Reason}
use agent_mail_kit.Outbound.Attachments.{
  Part, Mime, inline_attachment_max_bytes, check_filename, decoded_inline_attachment,
  attachment_part, attach_all,
}

none_of_absent {ℓ} : {A : Type ℓ} (o : Option A) → is_some o ≡ false → o ≡ none
none_of_absent none h = refl
none_of_absent (some a) h = cc

module _ (m : Mime) where
  -- The attachment is inline, and these are its bytes.
  pub record Inlines (att : SendAttachment) (bytes : Bytes) : Type 0 where
    pub encoded : Text
    pub content : att.content ≡ some encoded
    pub url : att.url ≡ none
    pub decodes : m.base64_decode encoded ≡ some bytes
    pub fits : length bytes < inline_attachment_max_bytes

  decoded_sound :
      (att : SendAttachment) (bytes : Bytes)
      → decoded_inline_attachment m att ≡ ok bytes
      → Inlines att bytes
  unfolding decoded_inline_attachment has_exactly_one_source
  decoded_sound att bytes h =
      let (single, e1, h1) = bind_ok (refuse (not (has_exactly_one_source att)) _) _ h in
      let (local, e2, h2) = bind_ok (refuse (is_some att.url) _) _ h1 in
      let (encoded, e3, h3) = bind_ok (ok_or att.content _) _ h2 in
      let (decoded, e4, h4) = bind_ok (ok_or (m.base64_decode encoded) _) _ h3 in
      let (small, e5, h5) =
        bind_ok (refuse (leb inline_attachment_max_bytes (length decoded)) _) _ h4 in
      let same = ok_injective decoded bytes h5 in
      let fits = refuse_ok (leb inline_attachment_max_bytes (length decoded)) _ e5 in
      record {
        encoded = encoded;
        content = ok_or_ok att.content _ e3;
        url = none_of_absent att.url (refuse_ok (is_some att.url) _ e2);
        decodes = ok_or_ok (m.base64_decode encoded) _ e4 ∙ ap some same;
        fits = rw (sym same) (ground (arith, fits));
      }

  decoded_complete :
      (att : SendAttachment) (bytes : Bytes)
      → Inlines att bytes
      → decoded_inline_attachment m att ≡ ok bytes
  unfolding decoded_inline_attachment has_exactly_one_source
  decoded_complete att bytes i = rw (i.content, i.url, i.decodes) (ground (arith, i.fits))

  decoded-expect_failed :
      (att : SendAttachment) → decoded_inline_attachment m att ≢ err (assembly Reason.expect_failed)
  unfolding decoded_inline_attachment has_exactly_one_source
  decoded-expect_failed att h = elim (Option-cases att.content) [
    | inl absent ↦ ground arith
    | inr (encoded, e) ↦ ground arith
  ]

  -- An attachment is decoded exactly when it has content and no URL, the content is base64, and its
  -- bytes are fewer than the cap; the `expect` that follows the test for one source never fails.
  pub decoded_inline_attachment_lem :
      (att : SendAttachment)
      → ((bytes : Bytes) → (decoded_inline_attachment m att ≡ ok bytes) ↔ Inlines att bytes)
        × (decoded_inline_attachment m att ≢ err (assembly Reason.expect_failed))
  decoded_inline_attachment_lem att =
      (λ bytes. (decoded_sound att bytes, decoded_complete att bytes), decoded-expect_failed att)

  -- The builder is told of each attachment, in order, after what it was told before.
  pub data Attached : List SendAttachment → List Part → Type 0 where
    nothing : Attached [] []
    one_more :
        {att : SendAttachment} {bytes : Bytes} {atts : List SendAttachment} {calls : List Part}
        → Inlines att bytes
        → check_filename att.filename ≡ ok tt
        → Attached atts calls
        → Attached (att ∷ atts) (attachment_part att bytes ∷ calls)

  pub attach_all_sound :
      (before : List Part) (atts : List SendAttachment) {parts : List Part}
      → attach_all m before atts ≡ ok parts
      → (calls : List Part) × (parts ≡ before ++ calls) × Attached atts calls
  unfolding attach_all
  attach_all_sound before [] {parts} h =
      ([], sym (ok_injective _ _ h) ∙ sym (append-nil before), nothing)
  attach_all_sound before (att ∷ atts) {parts} h =
      let (bytes, e1, h1) = bind_ok (decoded_inline_attachment m att) _ h in
      let (named, e2, h2) = bind_ok (check_filename att.filename) _ h1 in
      let (calls, e, a) = attach_all_sound (before ++ attachment_part att bytes ∷ []) atts h2 in
      (
        attachment_part att bytes ∷ calls,
        e ∙ append_assoc before (attachment_part att bytes ∷ []) calls,
        one_more (decoded_sound att bytes e1) e2 a,
      )
