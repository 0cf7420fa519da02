-- ===== src/Outbound/Recipients.antt =====
-- crates/amk-outbound/src/build.rs: the mailbox of an address, the recipients of a reply-all, and
-- the subject of a reply.
pub mod ReplyAll
use agent_mail_kit.Prelude.{
  Bool, false, ◌||◌, Option, none, some, List, [], ◌∷◌, ◌++◌, ◌==◌, nat_eq, list_eq, contains,
  if◌then◌else◌,
}
use agent_mail_kit.Types.Str.{
  Text, literal, to_ascii_lowercase, eq_ignore_ascii_case, strip_suffix, trim,
}
use agent_mail_kit.Types.Str.Split.{rsplit_once}

-- `and_then(...).unwrap_or(addr)`
abbrev pub after_bracket : Text → Option (Text × Text) → Text
after_bracket addr none = addr
after_bracket addr (some (name, rest)) = elim (strip_suffix b'>' rest) [ none ↦ addr | some s ↦ s ]

unfoldable pub mailbox_addr : Text → Text
mailbox_addr addr = trim (after_bracket addr (rsplit_once b'<' addr))

unfoldable pub folded : Text → Text
folded addr = to_ascii_lowercase (mailbox_addr addr)

-- The two vectors of the loops.
pub record Gathered : Type 0 where
  pub seen : List Text
  pub kept : List Text

-- One turn of either loop.
unfoldable pub gather : Text → Gathered → Text → Gathered
gather me state addr =
    let taken : Gathered = record {
      seen = state.seen ++ folded addr ∷ [];
      kept = state.kept ++ mailbox_addr addr ∷ [];
    } in
    if folded addr == me || contains (folded addr) state.seen then state else taken

unfoldable pub gather_all : Text → Gathered → List Text → Gathered
gather_all me state [] = state
gather_all me state (addr ∷ addrs) = gather_all me (gather me state addr) addrs

unfoldable pub reply_all_recipients : Text → List Text → List Text → Text → List Text × List Text
reply_all_recipients parent_from parent_to parent_cc sending_inbox =
    let me = folded sending_inbox in
    let fresh : Gathered = record { seen = []; kept = [] } in
    let first = gather_all me fresh (parent_from ∷ parent_to) in
    let again : Gathered = record { seen = first.seen; kept = [] } in
    (first.kept, (gather_all me again parent_cc).kept)

-- `get(..3)`: where the three bytes are the prefix that is looked for, they are three characters.
abbrev first_three : Text → Option Text
first_three (a ∷ b ∷ c ∷ s) = some (a ∷ b ∷ c ∷ [])
first_three _ = none

abbrev is_reply_prefix : Option Text → Bool
is_reply_prefix none = false
is_reply_prefix (some p) = eq_ignore_ascii_case p (literal "re:")

unfoldable pub is_reply : Text → Bool
is_reply s = is_reply_prefix (first_three s)

unfoldable pub reply_subject : Option Text → Text
reply_subject none = literal "Re:"
reply_subject (some s) = if is_reply s then s else literal "Re: " ++ s
