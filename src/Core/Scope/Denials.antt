-- ===== src/Core/Scope/Denials.antt =====
-- crates/amk-core/src/scope.rs: the masked denial, and the errors of an unusable identity.
use agent_mail_kit.Prelude.{ℕ, String, List, [], ◌∷◌}
use agent_mail_kit.Types.ErrorCode.{not_found, status, GatewayError, gateway_forbidden}
use Prim.Native.String
-- `MASK_FIX`
use agent_mail_kit.Types.Envelope.{ErrorEnvelope, envelope, with_fix}

abbrev pub mask_fix : String
mask_fix =
    "Visibility depends on the credential's scope (organization, pod, or inbox), and some resources (e.g. restricted labels like spam or trash) are hidden without their label-read permission. The corresponding list endpoint returns only the ids visible to you."

pub data ResourceKind : Type 0 where
  organization pod inbox thread message draft attachment domain webhook api_key : ResourceKind

-- `ResourceKind::ALL`
abbrev pub all_kinds : List ResourceKind
all_kinds =
    organization ∷ pod ∷ inbox ∷ thread ∷ message ∷ draft ∷ attachment ∷ domain ∷ webhook ∷ api_key
    ∷ []

unfoldable pub noun : ResourceKind → String
noun organization = "Organization"
noun pod = "Pod"
noun inbox = "Inbox"
noun thread = "Thread"
noun message = "Message"
noun draft = "Draft"
noun attachment = "Attachment"
noun domain = "Domain"
noun webhook = "Webhook"
noun api_key = "API key"

pub record ScopeDenial : Type 0 where
  pub kind : ResourceKind

-- `ScopeDenial::new`
abbrev pub denial : ResourceKind → ScopeDenial
denial kind = record { kind = kind }

-- `ScopeDenial::status`
unfoldable pub denial_status : ScopeDenial → ℕ
denial_status d = status not_found

unfoldable pub into_envelope : ScopeDenial → ErrorEnvelope
into_envelope d = with_fix (envelope not_found (String.◌++◌ (noun d.kind) " not found")) mask_fix

pub data ScopeResolutionError : Type 0 where
  missing_pod_id missing_inbox_id narrower_id_than_scope scope_id_mismatch : ScopeResolutionError

-- `ScopeResolutionError::gateway_body`
unfoldable pub gateway_body : ScopeResolutionError → GatewayError
gateway_body e = gateway_forbidden
