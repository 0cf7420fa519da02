-- ===== src/Types/Send.antt =====
-- crates/amk-types/src/message.rs, the request side: the bodies of send, reply and reply-all, their
-- recipient fields and attachments. A header map is the list of its entries in the map's order.
use agent_mail_kit.Prelude.{Bool, true, false, ◌&&◌, not, Option, none, some, List, [], ◌∷◌, any}
use agent_mail_kit.Types.Str.{Text, is_empty}

pub data Addresses : Type 0 where
  one : Text → Addresses
  many : List Text → Addresses

unfoldable pub into_vec : Addresses → List Text
into_vec (one s) = s ∷ []
into_vec (many v) = v

unfoldable pub names_nobody : Addresses → Bool
names_nobody (one s) = is_empty s
names_nobody (many v) = is_empty v

pub record SendAttachment : Type 0 where
  pub filename : Option Text
  pub content_type : Option Text
  pub content_disposition : Option Text
  pub content_id : Option Text
  pub content : Option Text
  pub url : Option Text

abbrev pub is_some {ℓ} : {A : Type ℓ} → Option A → Bool
is_some none = false
is_some (some a) = true

-- The operator `^` on `bool`.
abbrev exclusive_or : Bool → Bool → Bool
exclusive_or true b = not b
exclusive_or false b = b

unfoldable pub has_exactly_one_source : SendAttachment → Bool
has_exactly_one_source attachment =
    exclusive_or (is_some attachment.content) (is_some attachment.url)

abbrev pub Headers : Type 0
Headers = List (Text × Text)

pub record SendMessageRequest : Type 0 where
  pub to : Option Addresses
  pub cc : Option Addresses
  pub bcc : Option Addresses
  pub reply_to : Option Addresses
  pub subject : Option Text
  pub text : Option Text
  pub html : Option Text
  pub labels : List Text
  pub attachments : List SendAttachment
  pub headers : Option Headers

pub record ReplyToMessageRequest : Type 0 where
  pub labels : List Text
  pub reply_to : Option Addresses
  pub to : Option Addresses
  pub cc : Option Addresses
  pub bcc : Option Addresses
  pub reply_all : Option Bool
  pub text : Option Text
  pub html : Option Text
  pub attachments : List SendAttachment
  pub headers : Option Headers

-- `flatten()` of the three fields, and `any(|a| !a.is_empty())`.
abbrev names_someone : Option Addresses → Bool
names_someone none = false
names_someone (some a) = not (names_nobody a)

unfoldable pub has_recipient : SendMessageRequest → Bool
has_recipient req = any names_someone (req.to ∷ req.cc ∷ req.bcc ∷ [])

abbrev is_requested : Option Bool → Bool
is_requested (some b) = b
is_requested none = false

unfoldable pub reply_all_conflicts_with_recipients : ReplyToMessageRequest → Bool
reply_all_conflicts_with_recipients req =
    is_requested req.reply_all && any names_someone (req.to ∷ req.cc ∷ req.bcc ∷ [])
