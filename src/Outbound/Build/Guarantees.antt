-- ===== src/Outbound/Build/Guarantees.antt =====
-- What holds of every message that `build_signed` makes.
use agent_mail_kit.Prelude.{
  ◌≡◌, refl, sym, ap, ap₂, ◌∙◌, true, false, ◌&&◌, ◌||◌, Option, some, List, [], ◌∷◌, ◌++◌, nat_eq,
  list_eq, all, contains, contains-append, ok, ok_injective,
}
use agent_mail_kit.Types.Str.{Text, is_empty}
use agent_mail_kit.Types.Str.Order.{sort, dedup}
use agent_mail_kit.Types.Str.Order.Sorted.{
  ascends, dedup-sort-ascends, all-sort, all-dedup, contains-sort, contains-dedup,
}
use agent_mail_kit.Types.Send.{Addresses, SendMessageRequest}
use agent_mail_kit.Outbound.Errors.{Bytes, SignedMessage}
use agent_mail_kit.Outbound.Recipients.{mailbox_addr}
use agent_mail_kit.Outbound.Signing.{Crypto, Keyring, sign}
use agent_mail_kit.Outbound.Signing.Keys.{Signs, sign_sound}
use agent_mail_kit.Outbound.Attachments.{Part, Mime, unwrap_or}
use agent_mail_kit.Outbound.Attachments.Inline.{Attached, attach_all_sound}
use agent_mail_kit.Outbound.Build.{
  SendContext, flatten, initial_parts, envelope_recipients, signed_message, sender_domain,
  build_signed,
}
use agent_mail_kit.Outbound.Build.Stages.{build_signed-Stages}
use agent_mail_kit.Outbound.Build.Clean.{IsSafe, check_request_sound}

envelope_recipients-ascends : (req : SendMessageRequest) → ascends (envelope_recipients req) ≡ true
unfolding envelope_recipients
envelope_recipients-ascends req =
    dedup-sort-ascends (flatten req.to ++ flatten req.cc ++ flatten req.bcc)

contains_of_three :
    (a : Text) (xs ys zs : List Text)
    → contains a (dedup (sort (xs ++ ys ++ zs))) ≡ (contains a xs || contains a ys || contains a zs)
contains_of_three a xs ys zs =
    rw
      (
        contains-dedup a (sort (xs ++ ys ++ zs)),
        contains-sort a (xs ++ ys ++ zs),
        contains-append a (xs ++ ys) zs,
        contains-append a xs ys,
      )
      refl

all_of_none : (xs : List Text) → all (λ x. false) xs ≡ is_empty xs
all_of_none [] = refl
all_of_none (x ∷ xs) = refl

is_empty-append : (xs ys : List Text) → is_empty (xs ++ ys) ≡ (is_empty xs && is_empty ys)
is_empty-append [] ys = refl
is_empty-append (x ∷ xs) ys = refl

is_empty_of_three :
    (xs ys zs : List Text)
    → is_empty (dedup (sort (xs ++ ys ++ zs))) ≡ (is_empty xs && is_empty ys && is_empty zs)
is_empty_of_three xs ys zs =
    sym (all_of_none (dedup (sort (xs ++ ys ++ zs))))
    ∙ all-dedup (λ x. false) (sort (xs ++ ys ++ zs))
    ∙ all-sort (λ x. false) (xs ++ ys ++ zs)
    ∙ all_of_none (xs ++ ys ++ zs)
    ∙ rw (is_empty-append (xs ++ ys) zs, is_empty-append xs ys) refl

some_injective {ℓ} : {A : Type ℓ} (a b : A) → some a ≡ some b → a ≡ b
some_injective a b h = ap (unwrap_or a) h

module _ (c : Crypto) (m : Mime) where
  -- Of a message that is made: every header of the request has a name that is none of the fourteen
  -- that the envelope owns, in any case, not blank, and free of CR, LF and NUL, as its value is; so are
  -- the addresses in `to`, `cc`, `bcc` and `reply_to`, and the subject. Every attachment was inline,
  -- below the cap, with a file name without those bytes, and the builder was told of each, in order,
  -- after everything else. Of the content type of an attachment, which is passed on as it was given,
  -- nothing is said.
  pub build_signed-IsSafe :
      (req : SendMessageRequest) (ctx : SendContext) (keys : Keyring) (message_id : Text)
      {message : SignedMessage}
      → build_signed c m req ctx keys message_id ≡ ok message
      → IsSafe req
        × ((raw signature : Bytes) × (calls : List Part) × Attached m req.attachments calls
            × (m.write_to_vec (initial_parts req ctx message_id ++ calls) ≡ some raw)
            × (message.raw ≡ signature ++ raw))
  unfolding signed_message
  build_signed-IsSafe req ctx keys message_id h =
      let s = build_signed-Stages c m req ctx keys message_id h in
      let (calls, e, a) =
        attach_all_sound m (initial_parts req ctx message_id) req.attachments s.attached in
      (
        check_request_sound req s.checked,
        (s.raw, s.signature, calls, a, rw (sym e) s.written, ap (λ x. x.raw) s.made),
      )

  -- The envelope of a message that is made: the recipients are exactly the addresses of `to`, `cc` and
  -- `bcc`, each once, in order, and there is one at least; it is from the mailbox of the sender, and
  -- the id is the one that was given.
  pub build_signed_envelope :
      (req : SendMessageRequest) (ctx : SendContext) (keys : Keyring) (message_id : Text)
      {message : SignedMessage}
      → build_signed c m req ctx keys message_id ≡ ok message
      → ((a : Text)
          → contains a message.envelope_to ≡ (
              contains a (flatten req.to)
              || contains a (flatten req.cc)
              || contains a (flatten req.bcc)))
        × (ascends message.envelope_to ≡ true)
        × (is_empty message.envelope_to ≡ false)
        × (message.envelope_from ≡ mailbox_addr ctx.from)
        × (message.message_id ≡ message_id)
  unfolding signed_message envelope_recipients
  build_signed_envelope req ctx keys message_id h =
      let s = build_signed-Stages c m req ctx keys message_id h in
      let to = ap (λ x. x.envelope_to) s.made in
      (
        λ a. rw to (contains_of_three a (flatten req.to) (flatten req.cc) (flatten req.bcc)),
        rw to (envelope_recipients-ascends req),
        rw to (is_empty_of_three (flatten req.to) (flatten req.cc) (flatten req.bcc) ∙ s.addressed),
        ap (λ x. x.envelope_from) s.made,
        ap (λ x. x.message_id) s.made,
      )

  -- Blind recipients leave no trace in the bytes: two requests that differ in `bcc` only, and are both
  -- signed, give the same bytes.
  pub raw_without_bcc :
      (req : SendMessageRequest) (bcc : Option Addresses) (ctx : SendContext) (keys : Keyring)
      (message_id : Text) {message other : SignedMessage}
      → build_signed c m req ctx keys message_id ≡ ok message
      → build_signed c m (record req { bcc = bcc }) ctx keys message_id ≡ ok other
      → message.raw ≡ other.raw
  unfolding signed_message initial_parts
  raw_without_bcc req bcc ctx keys message_id h k =
      let s = build_signed-Stages c m req ctx keys message_id h in
      let t = build_signed-Stages c m (record req { bcc = bcc }) ctx keys message_id k in
      let domains = ok_injective s.domain t.domain (sym s.sent_from ∙ t.sent_from) in
      let parts = ok_injective s.parts t.parts (sym s.attached ∙ t.attached) in
      let written : some s.raw ≡ some t.raw = sym s.written ∙ ap m.write_to_vec parts ∙ t.written in
      let raws = some_injective s.raw t.raw written in
      let signed : sign c keys s.domain s.raw ≡ sign c keys t.domain t.raw =
        ap₂ (sign c keys) domains raws in
      let signatures = ok_injective s.signature t.signature (sym s.signed ∙ signed ∙ t.signed) in
      ap (λ x. x.raw) s.made ∙ ap₂ ◌++◌ signatures raws ∙ sym (ap (λ x. x.raw) t.made)

  -- No message leaves unsigned: the bytes of one that is made begin with a signature over all the
  -- rest, made with the key that the keyring holds for the domain of the sender's mailbox.
  pub build_signed_authentic :
      (req : SendMessageRequest) (ctx : SendContext) (keys : Keyring) (message_id : Text)
      {message : SignedMessage}
      → build_signed c m req ctx keys message_id ≡ ok message
      → (domain : Text) × (raw signature : Bytes) × (sender_domain ctx ≡ ok domain)
        × Signs c keys domain raw signature
        × (message.raw ≡ signature ++ raw)
  unfolding signed_message
  build_signed_authentic req ctx keys message_id h =
      let s = build_signed-Stages c m req ctx keys message_id h in
      (
        s.domain,
        s.raw,
        s.signature,
        s.sent_from,
        sign_sound c keys s.domain s.raw s.signed,
        ap (λ x. x.raw) s.made,
      )
