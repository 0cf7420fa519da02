-- ===== src/Outbound/Delivery/Sending.antt =====
-- Signing and delivery together.
use agent_mail_kit.Prelude.{
  ◌≡◌, refl, sym, ap, ◌∙◌, none, List, [], ◌∷◌, ◌++◌, ok, err, Result-cases, ok_injective, inl, inr,
}
use agent_mail_kit.Types.Str.{Text}
use agent_mail_kit.Types.Send.{SendMessageRequest}
use agent_mail_kit.Outbound.Errors.{OutboundError, SignedMessage}
use agent_mail_kit.Outbound.Signing.{Crypto, Keyring, key_for}
use agent_mail_kit.Outbound.Attachments.{Mime}
use agent_mail_kit.Outbound.Build.{SendContext, sender_domain, build_signed}
use agent_mail_kit.Outbound.Build.Guarantees.{build_signed_authentic}
use agent_mail_kit.Outbound.Delivery.{Transport, recording_transport, delivered, sign_and_deliver}

module _ (c : Crypto) (m : Mime) where
  built :
      (t : Transport) (req : SendMessageRequest) (ctx : SendContext) (keys : Keyring)
      (message_id : Text) (s : t.State) (e : OutboundError)
      → build_signed c m req ctx keys message_id ≡ err e
      → sign_and_deliver c m t req ctx keys message_id s ≡ (err e, s)
  unfolding sign_and_deliver delivered
  built t req ctx keys message_id s e h = rw (sign_and_deliver, h) refl

  -- A domain without a key sends nothing: whatever the request, the sender is told of an error, and
  -- the transport is left as it was.
  pub unkeyed_sends_nothing :
      (t : Transport) (req : SendMessageRequest) (ctx : SendContext) (keys : Keyring)
      (message_id domain : Text) (s : t.State)
      → sender_domain ctx ≡ ok domain
      → key_for keys domain ≡ none
      → (e : OutboundError) × (sign_and_deliver c m t req ctx keys message_id s ≡ (err e, s))
  unkeyed_sends_nothing t req ctx keys message_id domain s h k =
      elim (Result-cases (build_signed c m req ctx keys message_id)) [
        | inr (e, failed) ↦ (e, built t req ctx keys message_id s e failed)
        | inl (signed, made) ↦
            let (domain', raw, signature, e, signs, whole) =
              build_signed_authentic c m req ctx keys message_id made in
            let same = ap (key_for keys) (ok_injective domain' domain (sym e ∙ h)) in
            absurd (cc (signs.held, same, k))
      ]

  -- What is handed to the transport is what was built, once: a recording transport then holds that
  -- message after the earlier ones; if the build fails, nothing is handed over.
  sign_and_deliver_records :
      (req : SendMessageRequest) (ctx : SendContext) (keys : Keyring) (message_id : Text)
      (sent : List SignedMessage)
      → ((signed : SignedMessage)
          → build_signed c m req ctx keys message_id ≡ ok signed
          → sign_and_deliver c m recording_transport req ctx keys message_id sent
            ≡ (ok signed, sent ++ signed ∷ []))
        × ((e : OutboundError)
            → build_signed c m req ctx keys message_id ≡ err e
            → sign_and_deliver c m recording_transport req ctx keys message_id sent ≡ (err e, sent))
  unfolding sign_and_deliver delivered
  sign_and_deliver_records req ctx keys message_id sent = (
    λ signed h. rw (sign_and_deliver, h) refl,
    λ e h. built recording_transport req ctx keys message_id sent e h,
  )
