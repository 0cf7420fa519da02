-- ===== src/Ingest/Accept/Storing.antt =====
-- What `accept` stores, and when it stores nothing.
use agent_mail_kit.Prelude.{
  ℕ, ◌⊎◌, [], not, contains, string_eq, ◌≡◌, ◌≢◌, refl, sym, ap, ◌∙◌, Bool, true, false, Option,
  none, some, List, length, ltb, Result, ok, err, Bool-cases, Result-cases, Option-cases, inl, inr,
}
use agent_mail_kit.Types.Str.{Text, literal}
use agent_mail_kit.Types.Ids.{MessageId, ThreadId}
use agent_mail_kit.Ingest.Errors.{Bytes, rejected}
use agent_mail_kit.Ingest.Lookup.{Accepted}
use agent_mail_kit.Ingest.Accept.Fields.{Parsed}
use agent_mail_kit.Ingest.Accept.Screening.{Facts, screen}
use agent_mail_kit.Ingest.Accept.Auth.{
  Authenticator, AuthOutcome, passed, unproven, hardfail, outcome,
}
use agent_mail_kit.Ingest.Accept.{
  lookup_ids, Outcome, unless_duplicate, admit_facts, store_bodies, with_bodies, screened,
  parsed_as, accept,
}
use agent_mail_kit.Ingest.Accept.Rows.{NewMessage, MailStore, AcceptRequest, inserted}

-- What a verdict other than a hard failure is worth for the labels.
abbrev pub is_passed : AuthOutcome → Bool
is_passed passed = true
is_passed unproven = false
is_passed hardfail = false

module _ (s : MailStore) (req : AcceptRequest) where
  -- The message is within the limit, can be parsed, passed every gate, did not fail authentication, and
  -- is new in its inbox once the bodies of its attachments are stored.
  pub record Passes (draw : ℕ → Text) (parse : Bytes → Option Parsed) (verdict : AuthOutcome)
      (w : s.World) : Type 0 where
    pub msg : Parsed
    pub facts : Facts
    pub fits : ltb req.max_message_bytes (length req.raw) ≡ false
    pub parses : parse req.raw ≡ some msg
    pub screens : screen draw req.raw msg ≡ ok facts
    pub authentic : verdict ≢ hardfail
    pub fresh : s.get req.dest facts.message_id (with_bodies s req facts w).1 ≡ ok none

  -- A row was stored for the message under the thread, received and unread, and unauthenticated unless
  -- the verdict is a pass.
  pub record Stores (facts : Facts) (verdict : AuthOutcome) (a : Accepted) : Type 0 where
    pub before : s.World
    pub row : NewMessage
    pub stored : (s.insert_message row before).0 ≡ inserted
    pub of_facts : row.facts ≡ facts
    pub in_thread : row.thread_id ≡ a.thread_id
    pub in_inbox : row.inbox_id ≡ req.dest.inbox_id
    pub is_received : contains "received" row.labels ≡ true
    pub is_unread : contains "unread" row.labels ≡ true
    pub is_marked : contains "unauthenticated" row.labels ≡ not (is_passed verdict)
    pub same_id : a.message_id ≡ facts.message_id
    pub same_inbox : a.inbox_id ≡ req.dest.inbox_id

  abbrev id_of : Outcome s → Accepted → Accepted
  id_of (ok (some a), w) other = a
  id_of _ other = other

  with_bodies-id :
      (facts : Facts) (w : s.World) → (with_bodies s req facts w).0.message_id ≡ facts.message_id
  unfolding with_bodies
  with_bodies-id facts w = elim (Bool-cases req.blobs) [ inl e ↦ rw e refl | inr e ↦ rw e refl ]

  screened_as :
      (draw : ℕ → Text) (verdict : AuthOutcome) (arrange : List MessageId → List MessageId)
      (w : s.World) (msg : Parsed) (facts : Facts)
      → screen draw req.raw msg ≡ ok facts
      → parsed_as s draw req verdict arrange (some msg) w
        ≡ admit_facts s req
            (with_bodies s req facts w).0
            verdict
            (arrange (lookup_ids facts))
            (with_bodies s req facts w).1
  screened_as draw verdict arrange w msg facts e = ap (λ r. screened s req verdict arrange r w) e

  module _ (draw : ℕ → Text) (parse : Bytes → Option Parsed) (auth : Authenticator)
      (arrange : List MessageId → List MessageId) (w : s.World) where
    beyond :
        ltb req.max_message_bytes (length req.raw) ≡ true
        → accept s draw parse auth arrange req w
          ≡ (err (rejected 552 (literal "Message size exceeds limit")), w)
    unfolding accept
    beyond long = rw (accept, long) refl

    within :
        ltb req.max_message_bytes (length req.raw) ≡ false
        → accept s draw parse auth arrange req w
          ≡ parsed_as s draw req (outcome auth req.raw req.envelope) arrange (parse req.raw) w
    unfolding accept
    within fits = rw (accept, fits) refl

  unless_duplicate-unchanged :
      (facts : Facts) (authenticated : Bool) (order : List MessageId)
      (r : Result (Option (MessageId × ThreadId)) Text) (w : s.World)
      → r ≢ ok none
      → (unless_duplicate s req facts authenticated order r w).1 ≡ w
  unless_duplicate-unchanged facts authenticated order (err e) w n = refl
  unless_duplicate-unchanged facts authenticated order (ok (some row)) w n = refl
  unless_duplicate-unchanged facts authenticated order (ok none) w n = absurd (n refl)

  admit_facts-unchanged :
      (facts : Facts) (verdict : AuthOutcome) (order : List MessageId) (w : s.World)
      → (verdict ≢ hardfail → s.get req.dest facts.message_id w ≢ ok none)
      → (admit_facts s req facts verdict order w).1 ≡ w
  unfolding admit_facts
  admit_facts-unchanged facts hardfail order w n = refl
  admit_facts-unchanged facts passed order w n =
      unless_duplicate-unchanged facts true order _ w (n (λ k. cc))
  admit_facts-unchanged facts unproven order w n =
      unless_duplicate-unchanged facts false order _ w (n (λ k. cc))

  -- The message passed the gates, there is a blob store, and the bodies of its attachments were put
  -- there: what is left of the world.
  abbrev pub OnlyBodies : (ℕ → Text) → (Bytes → Option Parsed) → s.World → s.World → Type 0
  OnlyBodies draw parse w w' =
      (msg : Parsed) × (facts : Facts) × (parse req.raw ≡ some msg)
      × (screen draw req.raw msg ≡ ok facts)
      × (req.blobs ≡ true)
      × (w' ≡ (store_bodies s facts.attachments [] w).1)

  bodies_only :
      (draw : ℕ → Text) (parse : Bytes → Option Parsed) (w w' : s.World) (msg : Parsed)
      (facts : Facts)
      → parse req.raw ≡ some msg
      → screen draw req.raw msg ≡ ok facts
      → w' ≡ (with_bodies s req facts w).1
      → (w' ≡ w) ⊎ OnlyBodies draw parse w w'
  unfolding with_bodies
  bodies_only draw parse w w' msg facts e f h = elim (Bool-cases req.blobs) [
    | inr absent ↦ inl (h ∙ rw absent refl)
    | inl there ↦ inr (msg, facts, e, f, there, h ∙ rw there refl)
  ]

  -- A message that is too long, cannot be parsed, meets a gate, fails authentication or is in its inbox
  -- already leaves the store as it was, but for the blobs: where there is a blob store and the message
  -- passed the gates, the bodies of its attachments were put there before, and nothing else was done.
  pub accept_unchanged :
      (draw : ℕ → Text) (parse : Bytes → Option Parsed) (auth : Authenticator)
      (arrange : List MessageId → List MessageId) (w : s.World)
      → ¬ Passes draw parse (outcome auth req.raw req.envelope) w
      → ((accept s draw parse auth arrange req w).1 ≡ w)
        ⊎ OnlyBodies draw parse w (accept s draw parse auth arrange req w).1
  accept_unchanged draw parse auth arrange w n =
      let verdict = outcome auth req.raw req.envelope in
      elim (Bool-cases (ltb req.max_message_bytes (length req.raw))) [
        | inl long ↦ inl (ap (λ o. o.1) (beyond draw parse auth arrange w long))
        | inr fits ↦ elim (Option-cases (parse req.raw)) [
          | inl absent ↦ inl (
              ap (λ o. o.1)
                (within draw parse auth arrange w fits
                  ∙ ap (λ o. parsed_as s draw req verdict arrange o w) absent))
          | inr (msg, parsed) ↦ elim (Result-cases (screen draw req.raw msg)) [
            | inr (e, refused) ↦ inl (
                ap (λ o. o.1)
                  (within draw parse auth arrange w fits
                    ∙ ap (λ o. parsed_as s draw req verdict arrange o w) parsed
                    ∙ ap (λ r. screened s req verdict arrange r w) refused))
            | inl (facts, screens) ↦
                let kept = with_bodies s req facts w in
                bodies_only draw parse w _ msg facts parsed screens (
                  ap (λ o. o.1)
                    (within draw parse auth arrange w fits
                      ∙ ap (λ o. parsed_as s draw req verdict arrange o w) parsed
                      ∙ screened_as draw verdict arrange w msg facts screens)
                  ∙ admit_facts-unchanged kept.0 verdict (arrange (lookup_ids facts)) kept.1 (λ k g.
                    n (record {
                      msg = msg;
                      facts = facts;
                      fits = fits;
                      parses = parsed;
                      screens = screens;
                      authentic = k;
                      fresh =
                          ap (λ id. s.get req.dest id kept.1) (sym (with_bodies-id facts w)) ∙ g;
                    })))
          ]
        ]
      ]
