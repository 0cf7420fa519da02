-- ===== src/Outbound/Delivery.antt =====
-- crates/amk-outbound: delivery (src/smtp.rs) and `sign_and_deliver` with its transports (src/lib.rs).
-- The SMTP client of mail-send and the resolver of hickory are the record `Network`; what they do to
-- the world is a state that is passed on. `install_crypto_provider` only sets up TLS, and is left out.
pub mod Grouping
pub mod Preference
pub mod Hops
pub mod Sending
use agent_mail_kit.Prelude.{
  ℕ, Bool, true, false, ◌&&◌, Option, none, some, List, [], ◌∷◌, ◌++◌, ◌==◌, nat_eq, ltb, Result,
  ok, err, if◌then◌else◌,
}
use agent_mail_kit.Types.Str.{Text, literal, is_empty, to_ascii_lowercase}
use agent_mail_kit.Types.Str.Split.{rsplit_once}
use agent_mail_kit.Types.Str.Order.{upsert}
use agent_mail_kit.Types.Send.{SendMessageRequest}
use agent_mail_kit.Outbound.Errors.{Bytes, OutboundError, delivery, SignedMessage}
use agent_mail_kit.Outbound.Signing.{Crypto, Keyring}
use agent_mail_kit.Outbound.Attachments.{Mime}
use agent_mail_kit.Outbound.Build.{SendContext, build_signed}

pub record Network : Type 1 where
  pub World : Type 0
  pub Client : Type 0
  -- The preferences and the hosts of the MX records, or none if the lookup fails.
  pub mx_lookup : Text → World → Option (List (ℕ × Text)) × World
  -- The client of a host and a port, which may be refused with a text.
  pub new : Text → ℕ → Result (Unit {0}) Text
  pub connect : Text → ℕ → Bool → World → Result Client Text × World
  pub connect_plain : Text → ℕ → World → Result Client Text × World
  pub send : Client → Text → List Text → Bytes → World → Result (Unit {0}) Text × World
  -- The text that `{:?}` writes.
  pub quoted : Text → Text

-- A result and the state after.
abbrev pub Outcome : Type 0 → Type 0
Outcome W = Result (Unit {0}) OutboundError × W

pub data SmtpMode : Type 0 where
  direct_mx : SmtpMode
  smarthost : Text → ℕ → SmtpMode

-- Recipients by domain.
abbrev pub Groups : Type 0
Groups = List (Text × List Text)

abbrev domain_part : Option (Text × Text) → Option Text
domain_part none = none
domain_part (some (local, d)) = some (to_ascii_lowercase d)

unfoldable pub recipient_domain : Text → Option Text
recipient_domain rcpt = domain_part (rsplit_once b'@' rcpt)

-- `or_default().push(..)`
abbrev pub pushed : Text → Option (List Text) → List Text
pushed rcpt none = rcpt ∷ []
pushed rcpt (some rcpts) = rcpts ++ rcpt ∷ []

-- `trim_end_matches('.')`
unfoldable pub trim_dots : Text → Text
trim_dots [] = []
trim_dots (c ∷ s) = elim (trim_dots s) [ [] ↦ if c == b'.' then [] else c ∷ [] | d ∷ r ↦ c ∷ d ∷ r ]

unfoldable pub ranked : List (ℕ × Text) → List (ℕ × Text)
ranked [] = []
ranked ((preference, exchange) ∷ answers) =
    let rest = ranked answers in
    if is_empty (trim_dots exchange) then rest else (preference, trim_dots exchange) ∷ rest

-- `sort_by_key`, which keeps the order of equal keys.
unfoldable pub insert_ranked : ℕ × Text → List (ℕ × Text) → List (ℕ × Text)
insert_ranked x [] = x ∷ []
insert_ranked x (y ∷ ys) = if ltb y.0 x.0 then y ∷ insert_ranked x ys else x ∷ y ∷ ys

unfoldable pub sort_ranked : List (ℕ × Text) → List (ℕ × Text)
sort_ranked [] = []
sort_ranked (x ∷ xs) = insert_ranked x (sort_ranked xs)

abbrev pub hosts_of : List (ℕ × Text) → List Text
hosts_of [] = []
hosts_of ((preference, host) ∷ rest) = host ∷ hosts_of rest

-- The domain itself, where there is no host.
abbrev pub or_domain : Text → List Text → List Text
or_domain domain [] = domain ∷ []
or_domain domain (host ∷ hosts) = host ∷ hosts

unfoldable pub hosts_found : Text → Option (List (ℕ × Text)) → List Text
hosts_found domain none = domain ∷ []
hosts_found domain (some answers) = or_domain domain (hosts_of (sort_ranked (ranked answers)))

-- `matches!(&last, OutboundError::Delivery(s) if s.is_empty())`
unfoldable pub is_delivered : OutboundError → Bool
is_delivered (delivery s) = is_empty s
is_delivered _ = false

module _ (n : Network) where
  unfoldable pub group_by_domain : Groups → List Text → Result Groups OutboundError
  group_by_domain groups [] = ok groups
  group_by_domain groups (rcpt ∷ rcpts) = elim (recipient_domain rcpt) [
    | none ↦ err (delivery (literal "recipient " ++ n.quoted rcpt ++ literal " has no domain"))
    | some domain ↦ group_by_domain (upsert domain (pushed rcpt) groups) rcpts
  ]

  -- Every path of the source's function returns `Ok`.
  unfoldable pub mx_hosts : Text → n.World → List Text × n.World
  mx_hosts domain w = let (found, w') = n.mx_lookup domain w in (hosts_found domain found, w')

  -- `map_err`
  abbrev as_delivery : Result (Unit {0}) Text × n.World → Outcome n.World
  as_delivery (ok u, w) = (ok tt, w)
  as_delivery (err e, w) = (err (delivery e), w)

  -- Sending by a connection, if it was made; `smtp_message` has the three fields.
  unfoldable pub send_by : SignedMessage → Result n.Client Text × n.World → Outcome n.World
  send_by message (ok client, w) =
      as_delivery (n.send client message.envelope_from message.envelope_to message.raw w)
  send_by message (err e, w) = (err (delivery e), w)

  -- Without TLS on port 25, if the connection with it failed.
  unfoldable pub send_or_plain :
      Text → ℕ → SignedMessage → Result n.Client Text × n.World → Outcome n.World
  send_or_plain host port message (ok client, w) = send_by message (ok client, w)
  send_or_plain host port message (err e, w) =
      if port == 25 then send_by message (n.connect_plain host port w) else (err (delivery e), w)

  unfoldable pub deliver_by :
      Result (Unit {0}) Text → Text → ℕ → Bool → SignedMessage → n.World → Outcome n.World
  deliver_by (err e) host port implicit_tls message w = (err (delivery e), w)
  deliver_by (ok u) host port implicit_tls message w =
      let tried = n.connect host port implicit_tls w in
      if implicit_tls then send_by message tried else send_or_plain host port message tried

  unfoldable pub deliver_to_host : Text → ℕ → Bool → SignedMessage → n.World → Outcome n.World
  deliver_to_host host port implicit_tls message w =
      deliver_by (n.new host port) host port implicit_tls message w

  -- The loop over the hosts of one domain; what it leaves in `last`.
  unfoldable pub try_hosts :
      SignedMessage → OutboundError → List Text → n.World → OutboundError × n.World
  try_hosts hop last [] w = (last, w)
  try_hosts hop last (host ∷ hosts) w =
      let (tried, w') = deliver_to_host host 25 false hop w in
      elim tried [ ok u ↦ (delivery [], w') | err e ↦ try_hosts hop e hosts w' ]

  -- One domain: the last error, which is an empty one if the message was taken.
  unfoldable pub deliver_domain :
      SignedMessage → Text → List Text → n.World → OutboundError × n.World
  deliver_domain message domain rcpts w =
      let hop : SignedMessage = record message { envelope_to = rcpts } in
      let (hosts, w') = mx_hosts domain w in
      try_hosts hop (delivery (literal "no MX for " ++ domain)) hosts w'

  unfoldable pub deliver_groups : SignedMessage → Groups → n.World → Outcome n.World
  deliver_groups message [] w = (ok tt, w)
  deliver_groups message ((domain, rcpts) ∷ groups) w =
      let (last, w') = deliver_domain message domain rcpts w in
      let rest = deliver_groups message groups w' in
      if is_delivered last then rest else (err last, w')

  abbrev deliver_grouped : SignedMessage → Result Groups OutboundError → n.World → Outcome n.World
  deliver_grouped message (err e) w = (err e, w)
  deliver_grouped message (ok groups) w = deliver_groups message groups w

  unfoldable pub deliver_direct_mx : SignedMessage → n.World → Outcome n.World
  deliver_direct_mx message w = deliver_grouped message (group_by_domain [] message.envelope_to) w

  unfoldable pub deliver_smtp : SmtpMode → SignedMessage → n.World → Outcome n.World
  deliver_smtp direct_mx message w = deliver_direct_mx message w
  deliver_smtp (smarthost host port) message w = deliver_to_host host port (port == 465) message w

-- The trait `Transport`: one method, which changes its state.
pub record Transport : Type 1 where
  pub State : Type 0
  pub deliver : SignedMessage → State → Outcome State

abbrev record_sent : SignedMessage → List SignedMessage → Outcome (List SignedMessage)
record_sent message sent = (ok tt, sent ++ message ∷ [])

-- `RecordingTransport`, whose state is what was sent.
abbrev pub recording_transport : Transport
recording_transport = record { State = List SignedMessage; deliver = record_sent }

abbrev pub smtp_transport : Network → SmtpMode → Transport
smtp_transport n mode = record { State = n.World; deliver = deliver_smtp n mode }

module _ (c : Crypto) (m : Mime) (t : Transport) where
  unfoldable pub delivered :
      Result SignedMessage OutboundError → t.State → Result SignedMessage OutboundError × t.State
  delivered (err e) s = (err e, s)
  delivered (ok signed) s =
      let (sent, s') = t.deliver signed s in
      elim sent [ ok u ↦ (ok signed, s') | err e ↦ (err e, s') ]

  unfoldable pub sign_and_deliver :
      SendMessageRequest
      → SendContext
      → Keyring
      → Text
      → t.State
      → Result SignedMessage OutboundError × t.State
  sign_and_deliver req ctx keys message_id s =
      delivered (build_signed c m req ctx keys message_id) s
