-- ===== src/Tests/Linkage.antt =====
-- The theorems on threads at concrete messages.
use agent_mail_kit.Prelude.{◌≡◌, ◌≢◌, refl, true, some, [], ◌∷◌, list_beq, nat_eq, list_eq, arith}
use agent_mail_kit.Types.Str.{trim, is_whitespace, lower, eq_ignore_ascii_case}
use agent_mail_kit.Types.Ids.{MessageId, bracketed, eq_normalized}
use agent_mail_kit.Core.Threading.Links.{is_blank, canonical_link}
use agent_mail_kit.Core.Threading.Assigner.{ThreadCandidate, candidate, existing, assign}
use agent_mail_kit.Core.Threading.Assignments.{
  rule, own_link, is_carried, assign-eq-rule, assign_sound,
}
use agent_mail_kit.Core.Threading.MemoryIndex.{
  InMemoryThreadIndex, empty, insert, find_thread, as_index,
}
use agent_mail_kit.Core.Threading.Indexing.{assign_isolated, reply_joins}
use agent_mail_kit.Tests.Samples.{upper_inbox, lower_inbox, other_inbox, root_id, reply_id}

-- The root's id as a sender may write it: bare, with a space before it.
abbrev bare_root : MessageId
bare_root = b' ' ∷ b'r' ∷ []

abbrev reply : ThreadCandidate
reply = record (candidate upper_inbox) { message_id = some reply_id; in_reply_to = some bare_root }

abbrev rooted : InMemoryThreadIndex
rooted = insert empty lower_inbox root_id 4

canonical_link_bare : canonical_link bare_root ≡ some root_id
unfolding canonical_link is_blank trim is_whitespace bracketed list_beq
canonical_link_bare = refl

reply_joins_example : assign (as_index rooted) reply ≡ existing 4 root_id
unfolding eq_normalized eq_ignore_ascii_case lower canonical_link is_blank trim is_whitespace
    bracketed list_beq
reply_joins_example =
    reply_joins empty lower_inbox root_id 4 reply bare_root refl refl refl (λ e. ground arith)

assign_isolated_example :
    assign (as_index (insert rooted other_inbox root_id 9)) reply ≡ assign (as_index rooted) reply
unfolding eq_normalized eq_ignore_ascii_case lower
assign_isolated_example = assign_isolated rooted other_inbox root_id 9 reply refl

assign-eq-rule_example : assign (as_index rooted) reply ≡ rule (as_index rooted) reply
assign-eq-rule_example = assign-eq-rule (as_index rooted) reply

reply_assigned : assign (as_index rooted) reply ≡ existing 4 root_id
unfolding eq_normalized eq_ignore_ascii_case lower canonical_link is_blank trim is_whitespace
    bracketed list_beq
reply_assigned =
    reply_joins empty lower_inbox root_id 4 reply bare_root refl refl refl (λ e. ground arith)

assign_sound_example :
    (find_thread rooted upper_inbox root_id ≡ some 4)
    × (is_carried reply root_id ≡ true)
    × (own_link reply ≢ some root_id)
assign_sound_example = assign_sound (as_index rooted) reply 4 root_id reply_assigned
