-- ===== src/Ingest/Session/Soundness.antt =====
-- What a session does to the world, and that it ends.
use agent_mail_kit.Prelude.{
  ◌⊎◌, ℕ, zero, suc, ◌≤◌, ◌<◌, ◌≡◌, refl, ap, ◌∙◌, Bool, true, false, ◌&&◌, ◌||◌, not, Option, none,
  some, List, [], ◌∷◌, ◌++◌, length, All, nat_eq, ltb, arith, Result, ok, err, if_both, inl, inr,
}
use mathlib.Core.Path.{subst}
use agent_mail_kit.Types.Str.{Text, is_empty}
use agent_mail_kit.Types.Send.{is_some}
use agent_mail_kit.Ingest.Errors.{Bytes, IngestError}
use agent_mail_kit.Ingest.Wire.{Input, Data, left, read_line, read_data}
use agent_mail_kit.Ingest.Wire.Framing.{read_line-left, read_data_lem, read_data-left}
use agent_mail_kit.Ingest.Lookup.{Envelope, Delivery}
use agent_mail_kit.Ingest.Session.Locality.{IsLocal, rcpt_domain_is_local_sound}
use agent_mail_kit.Ingest.Session.{
  IngestConfig, rcpt_domain_is_local, Request, ehlo, helo, rcpt, mail, message_data, rset, noop,
  quit, start_tls, auth, another, Host, Output, Outcome, done, upgrade, Session, Step, again, ended,
  failed, and_then, written, write, persist_all, close_data, take_message, with_message, on_data,
  add_rcpt, on_rcpt, on_mail, on_ehlo, on_start_tls, handle, parsed_or_refused, with_line, round,
  run, fresh, run_commands,
}

-- The recipient's address is in a local domain, and the lookup found it.
pub record IsAdmitted (h : Host) (config : IngestConfig) (dest : Delivery) : Type 0 where
  pub address : Text
  pub world : h.World
  pub is_local : IsLocal config.local_domains address
  pub found : h.lookup address world ≡ some dest

-- The predicate is kept by storing a message, within the limit, for an admitted recipient.
abbrev pub IsKept : (h : Host) (config : IngestConfig) → (h.World → Type 0) → Type 0
IsKept h config P =
    (body : Bytes) (envelope : Envelope) (dest : Delivery) (w : h.World)
    → length body ≤ config.max_message_bytes
    → IsAdmitted h config dest
    → P w
    → P (h.persist body envelope dest config.max_message_bytes w).1

and_one_more :
    {h : Host} {config : IngestConfig} (dests : List Delivery) (dest : Delivery)
    → All (IsAdmitted h config) dests
    → IsAdmitted h config dest
    → All (IsAdmitted h config) (dests ++ dest ∷ [])
and_one_more [] dest a x = (x, tt)
and_one_more (d ∷ dests) dest a x = (a.0, and_one_more dests dest a.1 x)

Step-cases :
    {W : Type 0} (x : Step W)
    → ((s : Session W) × (x ≡ again s))
      ⊎ ((o : Outcome) × (s : Session W) × (x ≡ ended o s))
      ⊎ ((e : IngestError) × (s : Session W) × (x ≡ failed e s))
Step-cases (again s) = inl (s, refl)
Step-cases (ended o s) = inr (inl (o, s, refl))
Step-cases (failed e s) = inr (inr (e, s, refl))

module _ (h : Host) (config : IngestConfig) (client_ip : Text) (P : h.World → Type 0)
    (kept : IsKept h config P) (secure : Bool) where
  abbrev Good : Session h.World → Type 0
  Good s =
      All (IsAdmitted h config) s.rcpts
      × (is_some s.mail_from ≡ false → s.rcpts ≡ [])
      × (s.greeted ≡ false → is_some s.mail_from ≡ false)
      × P s.world

  abbrev Offered : Outcome → Type 0
  Offered done = Unit
  Offered upgrade = (config.tls ≡ true) × (secure ≡ false)

  -- A step with at most so many bytes left after it.
  abbrev Fine : ℕ → Step h.World → Type 0
  Fine n (again s) = Good s × (left s.input < n)
  Fine n (ended o s) = P s.world × Offered o
  Fine n (failed e s) = P s.world

  written-Fine :
      (error : Option Text) (out : Output) (s : Session h.World) (n : ℕ)
      → Good s
      → left s.input < n
      → Fine n (written h error out s)
  written-Fine none out s n g l = (g, l)
  written-Fine (some e) out s n g l = g.3

  write-Fine :
      (out : Output) (s : Session h.World) (n : ℕ)
      → Good s
      → left s.input < n
      → Fine n (write h out s)
  unfolding write
  write-Fine out s n g l = written-Fine (h.write_error (length s.output)) out s n g l

  and_then-Fine :
      (m : Step h.World) (f : Session h.World → Step h.World) (n : ℕ)
      → Fine n m
      → ((s : Session h.World) → Good s → left s.input < n → Fine n (f s))
      → Fine n (and_then m f)
  unfolding and_then
  and_then-Fine (again s) f n g k = k s g.0 g.1
  and_then-Fine (ended o s) f n g k = g
  and_then-Fine (failed e s) f n g k = g

  persist_all-kept :
      (body : Bytes) (envelope : Envelope) (dests : List Delivery) (last : Option IngestError)
      (w : h.World)
      → length body ≤ config.max_message_bytes
      → All (IsAdmitted h config) dests
      → P w
      → P (persist_all h body envelope config.max_message_bytes dests last w).1
  unfolding persist_all
  persist_all-kept body envelope [] last w b a p = p
  persist_all-kept body envelope (dest ∷ dests) last w b a p =
      persist_all-kept body envelope dests _ _ b a.1 (kept body envelope dest w b a.0 p)

  close_data-Fine :
      (last : Option IngestError) (s : Session h.World) (n : ℕ)
      → Good s
      → left s.input < n
      → Fine n (close_data h last s)
  unfolding close_data
  close_data-Fine none s n g l = write-Fine _ s n g l
  close_data-Fine (some e) s n g l = write-Fine _ s n g l

  take_message-Fine :
      (body : Bytes) (s : Session h.World) (n : ℕ)
      → Good s
      → left s.input < n
      → length body ≤ config.max_message_bytes
      → Fine n (take_message h config client_ip body s)
  unfolding take_message
  take_message-Fine body s n g l b =
      close_data-Fine _ _ n
        (tt, (λ e. refl), (λ e. refl), persist_all-kept body _ s.rcpts none s.world b g.0 g.3) l

  with_message-Fine :
      (read : Option (Result Data IngestError × Input)) (s : Session h.World) (n : ℕ)
      → Good s
      → left s.input < n
      → read_data config.max_message_bytes s.input ≡ read
      → Fine n (with_message h config client_ip read s)
  unfolding with_message
  with_message-Fine none s n g l r = g.3
  with_message-Fine (some (err e, i)) s n g l r = g.3
  with_message-Fine (some (ok d, i)) s n g l r =
      let after = record s { input = i } in
      let fewer : left i < n =
        omega (arith, l, read_data-left config.max_message_bytes s.input d i r) in
      let fits = (read_data_lem config.max_message_bytes s.input).1 d i r in
      if_both (λ x. Fine n x) d.oversize _ _
        (λ e.
          and_then-Fine _ _ n (write-Fine _ after n g fewer)
            (λ t g' l'. ((tt, (λ e'. refl), (λ e'. refl), g'.3), l')))
        (λ e. take_message-Fine d.body after n g fewer fits)

  on_data-Fine :
      (s : Session h.World) (n : ℕ)
      → Good s
      → left s.input < n
      → Fine n (on_data h config client_ip s)
  unfolding on_data
  on_data-Fine s n g l =
      if_both (λ x. Fine n x) (not (is_some s.mail_from) || is_empty s.rcpts) _ _
        (λ e. write-Fine _ s n g l)
        (λ e.
          and_then-Fine _ _ n (write-Fine _ s n g l)
            (λ t g' l'. with_message-Fine _ t n g' l' refl))

  add_rcpt-Fine :
      (found : Option Delivery) (address : Text) (s : Session h.World) (n : ℕ)
      → Good s
      → left s.input < n
      → is_some s.mail_from ≡ true
      → rcpt_domain_is_local config.local_domains address ≡ true
      → h.lookup address s.world ≡ found
      → Fine n (add_rcpt h config client_ip found s)
  add_rcpt-Fine none address s n g l m d e = write-Fine _ s n g l
  add_rcpt-Fine (some dest) address s n g l m d e =
      let admitted : IsAdmitted h config dest = record {
        address = address;
        world = s.world;
        is_local = rcpt_domain_is_local_sound config.local_domains address d;
        found = e;
      } in
      write-Fine _ (record s { rcpts = s.rcpts ++ dest ∷ [] }) n
        (and_one_more s.rcpts dest g.0 admitted, (λ e'. absurd (cc (m, e'))), g.2, g.3) l

  on_rcpt-Fine :
      (address : Text) (s : Session h.World) (n : ℕ)
      → Good s
      → left s.input < n
      → Fine n (on_rcpt h config client_ip address s)
  unfolding on_rcpt
  on_rcpt-Fine address s n g l =
      if_both (λ x. Fine n x) (not (is_some s.mail_from)) _ _ (λ e. write-Fine _ s n g l)
        (λ m.
          if_both (λ x. Fine n x) (not (rcpt_domain_is_local config.local_domains address)) _ _
            (λ e. write-Fine _ s n g l)
            (λ d.
              add_rcpt-Fine (h.lookup address s.world) address s n g l (ground (arith, m))
                (ground (arith, d)) refl))

  on_mail-Fine :
      (address : Text) (size : ℕ) (s : Session h.World) (n : ℕ)
      → Good s
      → left s.input < n
      → Fine n (on_mail h config client_ip address size s)
  unfolding on_mail
  on_mail-Fine address size s n g l =
      if_both (λ x. Fine n x) (not s.greeted) _ _ (λ e. write-Fine _ s n g l)
        (λ greeted.
          if_both (λ x. Fine n x) (ltb 0 size && ltb config.max_message_bytes size) _ _
            (λ e. write-Fine _ s n g l)
            (λ e.
              write-Fine _ (record s { mail_from = some address; rcpts = [] }) n
                (tt, (λ e'. refl), (λ e'. absurd (cc (ap not e', greeted))), g.3) l))

  on_start_tls-Fine :
      (s : Session h.World) (n : ℕ)
      → Good s
      → left s.input < n
      → Fine n (on_start_tls h config client_ip secure s)
  unfolding on_start_tls
  on_start_tls-Fine s n g l =
      if_both (λ x. Fine n x) secure _ _ (λ e. write-Fine _ s n g l)
        (λ plain.
          if_both (λ x. Fine n x) config.tls _ _
            (λ offered.
              and_then-Fine _ _ n (write-Fine _ s n g l) (λ t g' l'. (g'.3, (offered, plain))))
            (λ e. write-Fine _ s n g l))

  handle-Fine :
      (request : Request) (s : Session h.World) (n : ℕ)
      → Good s
      → left s.input < n
      → Fine n (handle h config client_ip secure request s)
  unfolding handle on_ehlo
  handle-Fine (ehlo host) s n g l = write-Fine _ _ n (tt, (λ e. refl), (λ e. refl), g.3) l
  handle-Fine (helo host) s n g l = write-Fine _ _ n (tt, (λ e. refl), (λ e. refl), g.3) l
  handle-Fine (rcpt address) s n g l = on_rcpt-Fine address s n g l
  handle-Fine (mail address size) s n g l = on_mail-Fine address size s n g l
  handle-Fine message_data s n g l = on_data-Fine s n g l
  handle-Fine rset s n g l = write-Fine _ _ n (tt, (λ e. refl), (λ e. refl), g.3) l
  handle-Fine noop s n g l = write-Fine _ s n g l
  handle-Fine quit s n g l = and_then-Fine _ _ n (write-Fine _ s n g l) (λ t g' l'. (g'.3, tt))
  handle-Fine start_tls s n g l = on_start_tls-Fine s n g l
  handle-Fine auth s n g l = write-Fine _ s n g l
  handle-Fine another s n g l = write-Fine _ s n g l

  parsed_or_refused-Fine :
      (request : Option Request) (s : Session h.World) (n : ℕ)
      → Good s
      → left s.input < n
      → Fine n (parsed_or_refused h config client_ip secure request s)
  parsed_or_refused-Fine none s n g l = write-Fine _ s n g l
  parsed_or_refused-Fine (some request) s n g l = handle-Fine request s n g l

  with_line-Fine :
      (line : Result (Option Bytes) IngestError) (s : Session h.World) (n : ℕ)
      → Good s
      → ((l : Bytes) → line ≡ ok (some l) → left s.input < n)
      → Fine n (with_line h config client_ip secure line s)
  unfolding with_line
  with_line-Fine (err e) s n g l = g.3
  with_line-Fine (ok none) s n g l = (g.3, tt)
  with_line-Fine (ok (some line)) s n g l =
      parsed_or_refused-Fine (h.parse line) s n g (l line refl)

  -- A round takes one byte at least.
  round-Fine :
      (s : Session h.World) → Good s → Fine (left s.input) (round h config client_ip secure s)
  unfolding round
  round-Fine s g =
      with_line-Fine (read_line s.input).0 (record s { input = (read_line s.input).1 })
        (left s.input) g (λ line e. read_line-left s.input line e)

  -- How a session ends.
  abbrev pub Settled : Step h.World → Type 0
  Settled (again s) = ⊥
  Settled (ended o s) = P s.world × Offered o
  Settled (failed e s) = P s.world

  abbrev Run : Option (Step h.World) → Type 0
  Run r = (x : Step h.World) × (r ≡ some x) × Settled x

  again_run :
      (fuel : ℕ) (s s' : Session h.World)
      → round h config client_ip secure s ≡ again s'
      → run h config client_ip (suc fuel) secure s ≡ run h config client_ip fuel secure s'
  unfolding run
  again_run fuel s s' e = rw (run, e) refl

  run-Run :
      (fuel : ℕ) (s : Session h.World)
      → Good s
      → left s.input < fuel
      → Run (run h config client_ip fuel secure s)
  unfolding run
  run-Run zero s g l = elim l [ ]
  run-Run (suc fuel) s g l = elim (Step-cases (round h config client_ip secure s)) [
    | inl (s', e) ↦
        let (g', l') = subst (λ x. Fine (left s.input) x) e (round-Fine s g) in
        let (x, r, settled) = run-Run fuel s' g' (omega (arith, l, l')) in
        (x, again_run fuel s s' e ∙ r, settled)
    | inr (inl (o, s', e)) ↦
        (ended o s', rw (run, e) refl, subst (λ x. Fine (left s.input) x) e (round-Fine s g))
    | inr (inr (f, s', e)) ↦
        (failed f s', rw (run, e) refl, subst (λ x. Fine (left s.input) x) e (round-Fine s g))
  ]

  -- A session over a connection that gives finitely many bytes ends. Whatever holds of the world, and is
  -- kept by storing a message within the limit for a recipient of a local domain that the lookup
  -- found, holds at the end, however the client behaves and whichever writes fail; and the session asks
  -- for a TLS handshake only if there is a certificate and TLS is not active.
  pub run_commands_lem :
      (input : Input) (output : List Output) (w : h.World)
      → P w
      → (x : Step h.World) × (run_commands h config client_ip secure input output w ≡ some x)
        × Settled x
  unfolding run_commands fresh
  run_commands_lem input output w p =
      run-Run (suc (left input)) (fresh h config client_ip input output w)
        (tt, (λ e. refl), (λ e. refl), p) (omega arith)
