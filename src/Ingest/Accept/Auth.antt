-- ===== src/Ingest/Accept/Auth.antt =====
-- crates/amk-ingest/src/accept.rs: `Authenticator`. The verdicts of mail-auth are the record `Resolver`.
use agent_mail_kit.Prelude.{Bool, false, Option, none, some, [], if◌then◌else◌}
use agent_mail_kit.Types.Str.{Text, literal, is_empty, eq_ignore_ascii_case}
use agent_mail_kit.Types.Str.Split.{rsplit_once}
use agent_mail_kit.Ingest.Errors.{Bytes}
use agent_mail_kit.Ingest.Lookup.{Envelope}

pub data SpfResult : Type 0 where
  pass fail neither : SpfResult

pub record Resolver : Type 0 where
  -- The client's address, the EHLO host and the sender.
  pub verify_spf : Text → Text → Text → SpfResult
  -- Whether a signature passes, if the bytes can be parsed.
  pub verify_dkim : Bytes → Option Bool

pub data Authenticator : Type 0 where
  live : Resolver → Authenticator
  stub_none stub_fail : Authenticator
  stub_envelope : Text → Authenticator

pub data AuthOutcome : Type 0 where
  passed unproven hardfail : AuthOutcome

abbrev domain_or_empty : Option (Text × Text) → Text
domain_or_empty none = []
domain_or_empty (some (local, d)) = d

unfoldable pub envelope_mail_from_domain : Text → Text
envelope_mail_from_domain mail_from = domain_or_empty (rsplit_once b'@' mail_from)

unfoldable pub stub_outcome : Authenticator → Envelope → Option AuthOutcome
stub_outcome (live resolver) envelope = none
stub_outcome stub_none envelope = some unproven
stub_outcome stub_fail envelope = some hardfail
stub_outcome (stub_envelope pass_domain) envelope =
    if eq_ignore_ascii_case (envelope_mail_from_domain envelope.mail_from) pass_domain
    then some passed
    else some unproven

abbrev dkim_pass : Option Bool → Bool
dkim_pass none = false
dkim_pass (some b) = b

unfoldable pub weigh : SpfResult → Option Bool → AuthOutcome
weigh fail dkim = hardfail
weigh pass dkim = passed
weigh neither dkim = if dkim_pass dkim then passed else unproven

unfoldable pub live_outcome : Resolver → Bytes → Envelope → AuthOutcome
live_outcome resolver raw envelope =
    let ehlo = if is_empty envelope.ehlo_host then literal "localhost" else envelope.ehlo_host in
    weigh (resolver.verify_spf envelope.client_ip ehlo envelope.mail_from)
      (resolver.verify_dkim raw)

abbrev unstubbed : Authenticator → Bytes → Envelope → AuthOutcome
unstubbed (live resolver) raw envelope = live_outcome resolver raw envelope
unstubbed _ raw envelope = unproven

unfoldable pub outcome : Authenticator → Bytes → Envelope → AuthOutcome
outcome auth raw envelope = elim (stub_outcome auth envelope) [
  | some stub ↦ stub
  | none ↦ unstubbed auth raw envelope
]
