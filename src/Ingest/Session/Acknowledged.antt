-- ===== src/Ingest/Session/Acknowledged.antt =====
-- When a message is acknowledged.
use agent_mail_kit.Prelude.{
  ℕ, ◌≡◌, ◌≢◌, ◌↔◌, refl, sym, ap, true, Option, none, some, List, [], ◌∷◌, ◌++◌, length, Result,
  ok, err, is_ok,
}
use agent_mail_kit.Ingest.Errors.{Bytes, IngestError, smtp_code, smtp_text}
use agent_mail_kit.Types.Str.{Text, literal}
use agent_mail_kit.Ingest.Lookup.{Envelope, Delivery, Accepted}
use agent_mail_kit.Ingest.Session.{
  IngestConfig, Host, reply, Session, Step, again, write, written, answer, text_or_empty,
  last_error, persist_all, close_data, take_message,
}

abbrev or_else : IngestError → Option IngestError → IngestError
or_else d none = d
or_else d (some e) = e

some_injective : (a b : IngestError) → some a ≡ some b → a ≡ b
some_injective a b h = ap (or_else a) h

last_error_iff :
    (r : Result (Option Accepted) IngestError) (last : Option IngestError)
    → (last_error r last ≡ none) ↔ ((is_ok r ≡ true) × (last ≡ none))
last_error_iff (ok a) last = ((λ e. (refl, e)), (λ p. p.1))
last_error_iff (err e) last = ((λ k. absurd (cc k)), (λ p. absurd (cc p.0)))

module _ (h : Host) (body : Bytes) (envelope : Envelope) (max : ℕ) where
  -- Each recipient's message was stored, or accepted and dropped, each after those before it.
  abbrev pub Taken : List Delivery → h.World → Type 0
  Taken [] w = Unit
  Taken (dest ∷ dests) w =
      (is_ok (h.persist body envelope dest max w).0 ≡ true)
      × Taken dests (h.persist body envelope dest max w).1

  persist_all_iff :
      (dests : List Delivery) (last : Option IngestError) (w : h.World)
      → ((persist_all h body envelope max dests last w).0 ≡ none) ↔ ((last ≡ none) × Taken dests w)
  unfolding persist_all
  persist_all_iff [] last w = ((λ e. (e, tt)), (λ p. p.0))
  persist_all_iff (dest ∷ dests) last w =
      let r = (h.persist body envelope dest max w).0 in
      let rest = persist_all_iff dests (last_error r last) (h.persist body envelope dest max w).1 in
      let one = last_error_iff r last in
      (
        (λ e. let (l, s) = rest.0 e in let (o, l') = one.0 l in (l', (o, s))),
        (λ (l, (o, s)). rest.1 (one.1 (o, l), s)),
      )

  -- An error that stands at the end is one of the recipients'.
  persist_all-all :
      (Q : IngestError → Type 0)
      → ((dest : Delivery) (w : h.World) (e : IngestError)
          → (h.persist body envelope dest max w).0 ≡ err e
          → Q e)
      → (dests : List Delivery) (last : Option IngestError) (w : h.World)
      → ((e : IngestError) → last ≡ some e → Q e)
      → (e : IngestError) → (persist_all h body envelope max dests last w).0 ≡ some e
      → Q e
  unfolding persist_all
  persist_all-all Q q [] last w l = l
  persist_all-all Q q (dest ∷ dests) last w l =
      persist_all-all Q q dests _ _ (of_one (h.persist body envelope dest max w).0 (q dest w))
    where
      of_one :
          (r : Result (Option Accepted) IngestError)
          → ((e : IngestError) → r ≡ err e → Q e)
          → (e : IngestError) → last_error r last ≡ some e
          → Q e
      of_one (ok a) p e k = l e k
      of_one (err e') p e k = p e (ap err (some_injective e' e k))

module _ (h : Host) where
  abbrev session_of : Session h.World → Step h.World → Session h.World
  session_of t (again s) = s
  session_of t _ = t

  -- One reply with a code was written, and the transaction is over.
  pub record Replied (code : ℕ) (t s : Session h.World) : Type 0 where
    pub e0 : ℕ
    pub e1 : ℕ
    pub e2 : ℕ
    pub text : Text
    pub written_last : s.output ≡ t.output ++ reply code e0 e1 e2 text ∷ []
    pub no_sender : s.mail_from ≡ t.mail_from
    pub no_recipients : s.rcpts ≡ t.rcpts
    pub same_world : s.world ≡ t.world

  answer-Replied :
      (code e0 e1 e2 : ℕ) (message : Text) (t s : Session h.World)
      → answer h code e0 e1 e2 message t ≡ again s
      → Replied code t s
  unfolding write
  answer-Replied code e0 e1 e2 message t s k = go (h.write_error (length t.output)) k
    where
      go :
          (failure : Option Text)
          → written h failure (reply code e0 e1 e2 message) t ≡ again s
          → Replied code t s
      go (some e) g = cc
      go none g =
          let same = ap (session_of t) g in
          record {
            e0 = e0;
            e1 = e1;
            e2 = e2;
            text = message;
            written_last = sym (ap (λ x. x.output) same);
            no_sender = sym (ap (λ x. x.mail_from) same);
            no_recipients = sym (ap (λ x. x.rcpts) same);
            same_world = sym (ap (λ x. x.world) same);
          }

  close_data_lem :
      (last : Option IngestError) (t s : Session h.World)
      → ((e : IngestError) → last ≡ some e → smtp_code e ≢ 250)
      → close_data h last t ≡ again s
      → (code : ℕ) × Replied code t s × ((code ≡ 250) ↔ (last ≡ none))
  unfolding close_data
  close_data_lem none t s n k =
      (250, answer-Replied 250 2 0 0 (literal "OK") t s k, ((λ e. refl), (λ e. refl)))
  close_data_lem (some e) t s n k = (
    smtp_code e,
    answer-Replied (smtp_code e) _ 0 0 (smtp_text e) t s k,
    ((λ c. absurd (n e refl c)), (λ c. cc)),
  )

  module _ (config : IngestConfig) (client_ip : Text) where
    abbrev pub envelope_of : Session h.World → Envelope
    envelope_of s = record {
      mail_from = text_or_empty h s.mail_from;
      client_ip = client_ip;
      ehlo_host = s.ehlo_host;
    }

    -- Where no error of persistence has the code 250: after a message one reply is written, if the write
    -- succeeds, and the sender and the recipients are forgotten. The code is 250 exactly if persistence
    -- took the message for each recipient, in turn: it stored it, or dropped it as it does on a hard
    -- failure of SPF. One failure is told, whatever follows it.
    pub acknowledged_iff :
        (body : Bytes) (s s' : Session h.World)
        → ((dest : Delivery) (w : h.World) (e : IngestError)
            → (h.persist body (envelope_of s) dest config.max_message_bytes w).0 ≡ err e
            → smtp_code e ≢ 250)
        → take_message h config client_ip body s ≡ again s'
        → (code : ℕ) × ((e0 : ℕ) × (e1 : ℕ) × (e2 : ℕ) × (text : Text) × (s'.output
              ≡ s.output ++ reply code e0 e1 e2 text ∷ []))
          × (s'.mail_from ≡ none)
          × (s'.rcpts ≡ [])
          × ((code ≡ 250) ↔ Taken h body (envelope_of s) config.max_message_bytes s.rcpts s.world)
    unfolding take_message
    acknowledged_iff body s s' honest k =
        let max = config.max_message_bytes in
        let kept = persist_all h body (envelope_of s) max s.rcpts none s.world in
        let refusals =
          persist_all-all h body (envelope_of s) max (λ e. smtp_code e ≢ 250) honest s.rcpts none
            s.world (λ e n. absurd (cc n)) in
        let (code, r, coded) =
          close_data_lem kept.0 (record s { mail_from = none; rcpts = []; world = kept.1 }) s'
            refusals k in
        let stored = persist_all_iff h body (envelope_of s) max s.rcpts none s.world in
        (
          code,
          (r.e0, r.e1, r.e2, r.text, r.written_last),
          r.no_sender,
          r.no_recipients,
          ((λ c. (stored.0 (coded.0 c)).1), (λ t. coded.1 (stored.1 (refl, t)))),
        )
