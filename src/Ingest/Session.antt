-- ===== src/Ingest/Session.antt =====
-- crates/amk-ingest/src/smtp.rs: the SMTP session. Commands are parsed by smtp-proto, which is `parse`
-- of the record `Host`, with the lookup of inboxes, the persistence of messages and the TLS handshake.
-- The writes to the connection are the list `output`; `write_error` says which of them fail.
pub mod Locality
pub mod Soundness
pub mod Acknowledged
use agent_mail_kit.Prelude.{
  ℕ, zero, suc, ◌/◌, Bool, true, false, ◌&&◌, ◌||◌, not, Option, none, some, List, [], ◌∷◌, ◌++◌,
  map, length, ◌==◌, nat_eq, list_eq, any, ltb, Result, ok, err, if◌then◌else◌,
}
use agent_mail_kit.Types.Str.{Text, literal, is_empty, to_ascii_lowercase}
use agent_mail_kit.Types.Str.Split.{rsplit_once}
use agent_mail_kit.Types.Str.Decimal.{to_decimal}
use agent_mail_kit.Types.Send.{is_some}
use agent_mail_kit.Types.Ids.{InboxId}
use agent_mail_kit.Ingest.Errors.{Bytes, IngestError, io, smtp_code, smtp_text}
use agent_mail_kit.Ingest.Wire.{Read, Input, Data, left, read_line, read_data}
use agent_mail_kit.Ingest.Lookup.{Envelope, Delivery, Accepted}

pub record IngestConfig : Type 0 where
  pub hostname : Text
  pub local_domains : List Text
  pub max_message_bytes : ℕ
  -- Whether there is an acceptor.
  pub tls : Bool

-- `IngestConfig::new`
unfoldable pub new_config : Text → List Text → ℕ → IngestConfig
new_config hostname local_domains max_message_bytes = record {
  hostname = hostname;
  local_domains = map to_ascii_lowercase local_domains;
  max_message_bytes = max_message_bytes;
  tls = false;
}

unfoldable pub with_tls : IngestConfig → IngestConfig
with_tls config = record config { tls = true }

abbrev pub is_among : List Text → Option (Text × Text) → Bool
is_among local_domains none = false
is_among local_domains (some (local, domain)) =
    any (λ d. d == to_ascii_lowercase domain) local_domains

unfoldable pub rcpt_domain_is_local : List Text → Text → Bool
rcpt_domain_is_local local_domains rcpt = is_among local_domains (rsplit_once b'@' rcpt)

pub data Request : Type 0 where
  ehlo helo rcpt : Text → Request
  mail : Text → ℕ → Request
  message_data rset noop quit start_tls auth another : Request

pub record Host : Type 1 where
  pub World : Type 0
  pub parse : Bytes → Option Request
  pub lookup : InboxId → World → Option Delivery
  pub persist :
      Bytes → Envelope → Delivery → ℕ → World → Result (Option Accepted) IngestError × World
  -- What the nth write fails with, if it does.
  pub write_error : ℕ → Option Text
  -- The reads of the connection after the handshake.
  pub handshake : World → Result (List Read) Text

-- A text as it is, or a reply with its code, its enhanced code and its text.
pub data Output : Type 0 where
  raw : Text → Output
  reply : ℕ → ℕ → ℕ → ℕ → Text → Output

pub data Outcome : Type 0 where
  done upgrade : Outcome

-- The variables of the loop, and the connection.
pub record Session (W : Type 0) : Type 0 where
  pub greeted : Bool
  pub mail_from : Option Text
  pub rcpts : List Delivery
  pub ehlo_host : Text
  pub input : Input
  pub output : List Output
  pub world : W

-- One command: the loop goes on, or it ends with an outcome or an error.
pub data Step (W : Type 0) : Type 0 where
  again : Session W → Step W
  ended : Outcome → Session W → Step W
  failed : IngestError → Session W → Step W

-- What is done if the loop goes on.
unfoldable pub and_then : {W : Type 0} → Step W → (Session W → Step W) → Step W
and_then (again s) f = f s
and_then (ended o s) f = ended o s
and_then (failed e s) f = failed e s

unfoldable pub enhanced_first : ℕ → ℕ
enhanced_first code = code / 100

abbrev pub last_error :
    Result (Option Accepted) IngestError → Option IngestError → Option IngestError
last_error (ok a) last = last
last_error (err e) last = some e

module _ (h : Host) where
  abbrev pub written : Option Text → Output → Session h.World → Step h.World
  written none out s = again (record s { output = s.output ++ out ∷ [] })
  written (some e) out s = failed (io e) s

  unfoldable pub write : Output → Session h.World → Step h.World
  write out s = written (h.write_error (length s.output)) out s

  abbrev pub answer : ℕ → ℕ → ℕ → ℕ → Text → Session h.World → Step h.World
  answer code e0 e1 e2 message s = write (reply code e0 e1 e2 message) s

  -- Every recipient in turn; the last error stands.
  unfoldable pub persist_all :
      Bytes
      → Envelope
      → ℕ
      → List Delivery
      → Option IngestError
      → h.World
      → Option IngestError × h.World
  persist_all body envelope max [] last w = (last, w)
  persist_all body envelope max (dest ∷ dests) last w =
      let (stored, w') = h.persist body envelope dest max w in
      persist_all body envelope max dests (last_error stored last) w'

  -- The reply to the message.
  unfoldable pub close_data : Option IngestError → Session h.World → Step h.World
  close_data none s = answer 250 2 0 0 (literal "OK") s
  close_data (some e) s = answer (smtp_code e) (enhanced_first (smtp_code e)) 0 0 (smtp_text e) s

  abbrev pub text_or_empty : Option Text → Text
  text_or_empty none = []
  text_or_empty (some s) = s

module _ (h : Host) (config : IngestConfig) (client_ip : Text) where
  -- A message that was read, and is not too long.
  unfoldable pub take_message : Bytes → Session h.World → Step h.World
  take_message body s =
      let envelope : Envelope = record {
        mail_from = text_or_empty h s.mail_from;
        client_ip = client_ip;
        ehlo_host = s.ehlo_host;
      } in
      let (last, w') = persist_all h body envelope config.max_message_bytes s.rcpts none s.world in
      close_data h last (record s { mail_from = none; rcpts = []; world = w' })

  -- What `read_data` gave; its bound is always enough.
  unfoldable pub with_message :
      Option (Result Data IngestError × Input) → Session h.World → Step h.World
  with_message none s = failed (io []) s
  with_message (some (err e, i)) s = failed e (record s { input = i })
  with_message (some (ok d, i)) s =
      let too_long =
        and_then
          (answer h 552 5 3 4 (literal "Message size exceeds limit") (record s { input = i }))
          (λ t. again (record t { mail_from = none; rcpts = [] })) in
      if d.oversize then too_long else take_message d.body (record s { input = i })

  unfoldable pub on_data : Session h.World → Step h.World
  on_data s =
      let start = answer h 354 3 0 0 (literal "Start mail input; end with <CRLF>.<CRLF>") s in
      let taken =
        and_then start (λ t. with_message (read_data config.max_message_bytes t.input) t) in
      if not (is_some s.mail_from) || is_empty s.rcpts
      then answer h 503 5 5 1 (literal "Need MAIL and RCPT") s
      else taken

  abbrev pub add_rcpt : Option Delivery → Session h.World → Step h.World
  add_rcpt none s = answer h 550 5 1 1 (literal "User unknown") s
  add_rcpt (some dest) s =
      answer h 250 2 1 5 (literal "OK") (record s { rcpts = s.rcpts ++ dest ∷ [] })

  unfoldable pub on_rcpt : Text → Session h.World → Step h.World
  on_rcpt address s =
      if not (is_some s.mail_from)
      then answer h 503 5 5 1 (literal "MAIL first") s
      else if not (rcpt_domain_is_local config.local_domains address)
      then answer h 550 5 7 1 (literal "Relay denied") s
      else add_rcpt (h.lookup address s.world) s

  unfoldable pub on_mail : Text → ℕ → Session h.World → Step h.World
  on_mail address size s =
      if not s.greeted
      then answer h 503 5 5 1 (literal "EHLO first") s
      else if ltb 0 size && ltb config.max_message_bytes size
      then answer h 552 5 3 4 (literal "Message size exceeds limit") s
      else answer h 250 2 1 0 (literal "OK") (record s { mail_from = some address; rcpts = [] })

  unfoldable pub capabilities : Bool → Text
  capabilities secure =
      literal "250-"
      ++ config.hostname
      ++ literal " hello\r\n250-SIZE "
      ++ to_decimal config.max_message_bytes
      ++ literal "\r\n"
      ++ (if config.tls && not secure then literal "250-STARTTLS\r\n" else [])
      ++ literal "250 8BITMIME\r\n"

  unfoldable pub on_ehlo : Bool → Text → Session h.World → Step h.World
  on_ehlo secure host s =
      write h (raw (capabilities secure))
        (record s { greeted = true; ehlo_host = host; mail_from = none; rcpts = [] })

  unfoldable pub on_start_tls : Bool → Session h.World → Step h.World
  on_start_tls secure s =
      let ready =
        and_then (write h (raw (literal "220 2.0.0 Ready to start TLS\r\n")) s) (ended upgrade) in
      if secure
      then answer h 503 5 5 1 (literal "TLS already active") s
      else if config.tls
      then ready
      else answer h 454 4 7 0 (literal "TLS not available") s

  unfoldable pub handle : Bool → Request → Session h.World → Step h.World
  handle secure (ehlo host) s = on_ehlo secure host s
  handle secure (helo host) s = on_ehlo secure host s
  handle secure (rcpt address) s = on_rcpt address s
  handle secure (mail address size) s = on_mail address size s
  handle secure message_data s = on_data s
  handle secure rset s =
      answer h 250 2 0 0 (literal "OK") (record s { mail_from = none; rcpts = [] })
  handle secure noop s = answer h 250 2 0 0 (literal "OK") s
  handle secure quit s = and_then (answer h 221 2 0 0 (literal "Bye") s) (ended done)
  handle secure start_tls s = on_start_tls secure s
  handle secure auth s = answer h 502 5 5 1 (literal "Command not implemented") s
  handle secure another s = answer h 502 5 5 1 (literal "Command not implemented") s

  abbrev pub parsed_or_refused : Bool → Option Request → Session h.World → Step h.World
  parsed_or_refused secure none s = answer h 500 5 5 2 (literal "Syntax error") s
  parsed_or_refused secure (some request) s = handle secure request s

  -- One round of the loop, with the line that was read.
  unfoldable pub with_line :
      Bool → Result (Option Bytes) IngestError → Session h.World → Step h.World
  with_line secure (err e) s = failed e s
  with_line secure (ok none) s = ended done s
  with_line secure (ok (some line)) s = parsed_or_refused secure (h.parse line) s

  unfoldable pub round : Bool → Session h.World → Step h.World
  round secure s =
      let (line, i) = read_line s.input in with_line secure line (record s { input = i })

  -- The loop, with a bound on the rounds; `none` is a bound that was too low.
  unfoldable pub run : ℕ → Bool → Session h.World → Option (Step h.World)
  run zero secure s = none
  run (suc fuel) secure s = elim (round secure s) [
    | again s' ↦ run fuel secure s'
    | ended o s' ↦ some (ended o s')
    | failed e s' ↦ some (failed e s')
  ]

  unfoldable pub fresh : Input → List Output → h.World → Session h.World
  fresh input output w = record {
    greeted = false;
    mail_from = none;
    rcpts = [];
    ehlo_host = [];
    input = input;
    output = output;
    world = w;
  }

  -- `run_commands`: a round takes a byte at least, so this bound is enough.
  unfoldable pub run_commands : Bool → Input → List Output → h.World → Option (Step h.World)
  run_commands secure input output w = run (suc (left input)) secure (fresh input output w)
