-- ===== src/Tests/Incoming.antt =====
-- Incoming mail at concrete inputs.
use agent_mail_kit.Prelude.{
  ℕ, ◌≤◌, ◌≡◌, ◌≢◌, ◌↔◌, refl, true, false, Option, none, some, List, [], ◌∷◌, ◌++◌, length, all,
  arith, Result, ok, err, ◌==◌, nat_eq, if◌then◌else◌,
}
use agent_mail_kit.Types.Str.{Text, literal}
use agent_mail_kit.Types.Ids.{InboxId}
use agent_mail_kit.Ingest.Errors.{Bytes, IngestError, smtp_code}
use agent_mail_kit.Ingest.Wire.{bytes, Input, Data, read_data}
use agent_mail_kit.Ingest.Wire.Framing.{read_data_lem}
use agent_mail_kit.Ingest.Wire.Stuffing.{
  stuff, stuffed, joined, is_line, is_sent, all_bytes, end_of_data, read_data-stuffed,
}
use agent_mail_kit.Ingest.Lookup.{Envelope, Delivery}
use agent_mail_kit.Ingest.Session.{
  IngestConfig, Request, ehlo, mail, rcpt, message_data, quit, another, Host, Session, again, reply,
  write, close_data, take_message, persist_all,
}
use agent_mail_kit.Ingest.Session.Soundness.{IsAdmitted}
use agent_mail_kit.Ingest.Session.Acknowledged.{Taken, envelope_of, acknowledged_iff}
use agent_mail_kit.Ingest.Serve.{serve_session, serve_session_lem}

abbrev config : IngestConfig
config = record {
  hostname = literal "mx.a";
  local_domains = literal "a.b" ∷ [];
  max_message_bytes = 100;
  tls = false;
}

abbrev inbox_of : InboxId → Delivery
inbox_of id = record { organization_id = literal "o"; pod_id = 1; inbox_id = id }

-- Commands by their first letter.
abbrev command : Bytes → Option Request
command [] = none
command (c ∷ s) =
    if c == b'e'
    then some (ehlo (literal "c"))
    else if c == b'm'
    then some (mail (literal "x@y") 0)
    else if c == b'r'
    then some (rcpt (literal "u@a.b"))
    else if c == b'd'
    then some message_data
    else if c == b'q'
    then some quit
    else some another

-- The world is the messages that were stored, each with its recipient.
abbrev host : Host
host = record {
  World = List (Delivery × Bytes);
  parse = command;
  lookup = λ id w. some (inbox_of id);
  persist = λ body envelope dest max w. (ok none, w ++ (dest, body) ∷ []);
  write_error = λ n. none;
  handshake = λ w. ok [];
}

-- No stored message is longer than the limit.
abbrev Short : List (Delivery × Bytes) → Type 0
Short [] = Unit
Short ((dest, body) ∷ w) = (length body ≤ 100) × Short w

Short-persisted :
    (body : Bytes) (envelope : Envelope) (dest : Delivery) (w : List (Delivery × Bytes))
    → length body ≤ 100
    → IsAdmitted host config dest
    → Short w
    → Short (w ++ (dest, body) ∷ [])
Short-persisted body envelope dest [] b a p = (b, tt)
Short-persisted body envelope dest ((d, c) ∷ w) b a p =
    (p.0, Short-persisted body envelope dest w b a p.1)

abbrev dialogue : Input
dialogue = record {
  buf = [];
  reads = bytes (literal "e\nm\nr\nd\n") ∷ bytes (literal "Hi\r\n.\r\nq\n") ∷ [];
}

serve_session_lem_example :
    (x : Result (Unit {0}) IngestError × Session (List (Delivery × Bytes))) × (serve_session host
        config
        (literal "ip")
        (ok false)
        dialogue
        []
      ≡ some x)
    × Short x.1.world
serve_session_lem_example =
    serve_session_lem host config (literal "ip") Short Short-persisted (ok false) dialogue [] tt

read_data_lem_example :
    ((r : Result Data IngestError × Input) × (read_data 100 dialogue ≡ some r))
    × ((read : Data) (i' : Input)
        → read_data 100 dialogue ≡ some (ok read, i')
        → length read.body ≤ 100)
read_data_lem_example = read_data_lem 100 dialogue

abbrev two_lines : List Bytes
two_lines = literal ".Hi\r\n" ∷ literal ".\r\n" ∷ []

two_are_sent : all is_sent two_lines ≡ true
unfolding is_sent is_line stuff
two_are_sent = refl

-- The first line comes in two reads, and a command after the end of the data.
abbrev in_three_reads : Input
in_three_reads = record {
  buf = [];
  reads = bytes (literal "..H") ∷ bytes (literal "i\r\n..\r") ∷ bytes (literal "\n.\r\nq\n") ∷ [];
}

arrives : all_bytes in_three_reads ≡ stuffed two_lines ++ (end_of_data ++ literal "q\n")
unfolding stuff
arrives = refl

read_data-stuffed_example :
    (i' : Input) × (read_data 100 in_three_reads
      ≡ some (ok (record { body = joined two_lines; oversize = false }), i'))
    × (all_bytes i' ≡ literal "q\n")
read_data-stuffed_example =
    read_data-stuffed 100 two_lines (literal "q\n") in_three_reads two_are_sent (omega arith) refl
      arrives

abbrev with_recipient : Session (List (Delivery × Bytes))
with_recipient = record {
  greeted = true;
  mail_from = some (literal "x@y");
  rcpts = inbox_of (literal "u@a.b") ∷ [];
  ehlo_host = literal "c";
  input = dialogue;
  output = [];
  world = [];
}

abbrev after_message : Session (List (Delivery × Bytes))
after_message = record with_recipient {
  mail_from = none;
  rcpts = [];
  output = reply 250 2 0 0 (literal "OK") ∷ [];
  world = (inbox_of (literal "u@a.b"), literal "Hi") ∷ [];
}

never_refuses :
    (dest : Delivery) (w : List (Delivery × Bytes)) (e : IngestError)
    → (host.persist
        (literal "Hi")
        (envelope_of host config (literal "ip") with_recipient)
        dest
        100
        w).0
      ≡ err e
    → smtp_code e ≢ 250
never_refuses dest w e h = absurd (cc h)

is_taken :
    take_message host config (literal "ip") (literal "Hi") with_recipient ≡ again after_message
unfolding take_message persist_all close_data write
is_taken = refl

acknowledged_iff_example :
    (code : ℕ) × ((e0 : ℕ) × (e1 : ℕ) × (e2 : ℕ) × (text : Text) × (after_message.output
        ≡ [] ++ reply code e0 e1 e2 text ∷ []))
    × (after_message.mail_from ≡ none)
    × (after_message.rcpts ≡ [])
    × ((code ≡ 250)
        ↔ Taken host
            (literal "Hi")
            (envelope_of host config (literal "ip") with_recipient)
            100
            (inbox_of (literal "u@a.b") ∷ [])
            [])
acknowledged_iff_example =
    acknowledged_iff host config (literal "ip") (literal "Hi") with_recipient after_message
      never_refuses is_taken
