-- ===== src/Core/Threading/Assignments.antt =====
-- crates/amk-core/src/threading.rs: what the default rule assigns.
use agent_mail_kit.Prelude.{
  ◌≡◌, refl, sym, ◌∙◌, ◌≢◌, Bool, true, false, ◌||◌, Option, none, some, List, [], ◌∷◌, arith, ◌==◌,
  nat_eq, list_eq, option_eq, option_beq_iff, contains, contains-cons, ==_refl, ==→eq, Option-cases,
  Bool-cases, inl, inr,
}
use agent_mail_kit.Types.Ids.{MessageId, ThreadId}
use agent_mail_kit.Core.Threading.Links.{canonical_link}
use agent_mail_kit.Core.Threading.Assigner.{
  ThreadIndex, ThreadCandidate, ThreadAssignment, existing, and_then, usable, by_parent, assign,
}
use agent_mail_kit.Core.Threading.Chains.{
  links, hits, by_hits, is_nonempty, by_references-eq-by_hits,
}

-- The message's own id, as a link; the direct parent; and the links of `References`.
abbrev pub own_link : ThreadCandidate → Option MessageId
own_link c = and_then c.message_id canonical_link

abbrev pub parent_link : ThreadCandidate → Option MessageId
parent_link c = and_then c.in_reply_to (usable (own_link c))

abbrev pub reference_links : ThreadCandidate → List MessageId
reference_links c = links (own_link c) c.references

-- The rule: a parent that resolves decides alone; otherwise the references that resolve decide, if they
-- name one thread.
unfoldable pub ruled :
    (MessageId → Option ThreadId) → List MessageId → Option MessageId → ThreadAssignment
ruled look refs none = by_hits (is_nonempty refs) (hits look refs)
ruled look refs (some link) = elim (look link) [
  | none ↦ by_hits true (hits look refs)
  | some t ↦ existing t link
]

unfoldable pub rule : ThreadIndex → ThreadCandidate → ThreadAssignment
rule index c = ruled (index.thread_of c.inbox_id) (reference_links c) (parent_link c)

by_parent-eq-ruled :
    (look : MessageId → Option ThreadId) (own : Option MessageId) (refs : List MessageId)
    (p : Option MessageId)
    → by_parent look own refs p ≡ ruled look (links own refs) p
unfolding by_parent ruled
by_parent-eq-ruled look own refs none = by_references-eq-by_hits look own false refs
by_parent-eq-ruled look own refs (some link) = elim (Option-cases (look link)) [
  | inl e ↦ rw (e, by_parent, ruled) (by_references-eq-by_hits look own true refs)
  | inr (t, e) ↦ rw (e, by_parent, ruled) refl
]

-- The assignment follows the rule, whatever the header lists and however often a link is repeated in
-- it: a resolvable parent decides, else the one thread that all resolvable references name; without
-- one the message opens a thread, and the reason says whether links were absent, unknown or ambiguous.
pub assign-eq-rule : (index : ThreadIndex) (c : ThreadCandidate) → assign index c ≡ rule index c
unfolding assign rule
assign-eq-rule index c =
    by_parent-eq-ruled (index.thread_of c.inbox_id) (own_link c) c.references (parent_link c)

-- A link that the message carries, and that is not its own id.
abbrev pub is_carried : ThreadCandidate → MessageId → Bool
is_carried c link = parent_link c == some link || contains link (reference_links c)

hits-head :
    (look : MessageId → Option ThreadId) (refs : List MessageId) (had : Bool) (t : ThreadId)
    (link : MessageId)
    → by_hits had (hits look refs) ≡ existing t link
    → (look link ≡ some t) × (contains link refs ≡ true)
unfolding hits
hits-head look [] true t link h = cc
hits-head look [] false t link h = cc
hits-head look (l ∷ ls) had t link h = elim (Option-cases (look l)) [
  | inl e ↦
      let (f, m) = hits-head look ls had t link (rw (e, hits) at h) in
      (f, ground (arith, m, contains-cons link l ls))
  | inr (u, e) ↦ ground (arith, e, h, contains-cons link l ls, ==_refl l)
]

ruled_sound :
    (look : MessageId → Option ThreadId) (refs : List MessageId) (p : Option MessageId)
    (t : ThreadId) (link : MessageId)
    → ruled look refs p ≡ existing t link
    → (look link ≡ some t) × ((p == some link || contains link refs) ≡ true)
unfolding ruled
ruled_sound look refs none t link h =
    let (f, m) = hits-head look refs (is_nonempty refs) t link h in (f, ground (arith, m))
ruled_sound look refs (some l) t link h = elim (Option-cases (look l)) [
  | inl e ↦
      let (f, m) = hits-head look refs true t link (rw (e, ruled) at h) in (f, ground (arith, m))
  | inr (u, e) ↦ ground (arith, e, h, option_beq_iff (some l) (some link))
]

usable-other :
    (own : Option MessageId) (raw link : MessageId)
    → usable own raw ≡ some link
    → (own == some link) ≡ false
unfolding usable
usable-other own raw link h = elim (Option-cases (canonical_link raw)) [
  | inl e ↦ cc (e)
  | inr (l, e) ↦ elim (Bool-cases (own == some l)) [
    | inl same ↦ ground (arith, e, same, h)
    | inr other ↦ ground (arith, e, other, h)
  ]
]

links-other :
    (own : Option MessageId) (raws : List MessageId) (link : MessageId)
    → contains link (links own raws) ≡ true
    → (own == some link) ≡ false
unfolding links
links-other own [] link h = absurd (unfold contains in cc)
links-other own (raw ∷ raws) link h = elim (Option-cases (usable own raw)) [
  | inl e ↦ links-other own raws link (rw (e, links) at h)
  | inr (l, e) ↦ elim (Bool-cases (l == link)) [
    | inl same ↦ rw (← (==→eq l link same)) (usable-other own raw l e)
    | inr other ↦
        links-other own raws link (ground (arith, e, h, contains-cons link l (links own raws)))
  ]
]

parent-other :
    (own : Option MessageId) (raw : Option MessageId) (link : MessageId)
    → and_then raw (usable own) ≡ some link
    → (own == some link) ≡ false
parent-other own none link h = cc
parent-other own (some r) link h = usable-other own r link h

carried-other :
    (c : ThreadCandidate) (link : MessageId) → is_carried c link ≡ true → own_link c ≢ some link
carried-other c link h e = elim (Bool-cases (parent_link c == some link)) [
  | inl same ↦ same_as_own (parent-other (own_link c) c.in_reply_to link (==→eq _ _ same))
  | inr other ↦ same_as_own (links-other (own_link c) c.references link (ground (arith, h, other)))
]
  where
    same_as_own : (own_link c == some link) ≡ false → ⊥
    same_as_own f = ground (arith, option_beq_iff (own_link c) (some link))

-- A message joins a thread only through a link that it carries itself in a linkage header, that is not
-- its own id, and that the index finds in its own inbox and in that very thread.
pub assign_sound :
    (index : ThreadIndex) (c : ThreadCandidate) (t : ThreadId) (link : MessageId)
    → assign index c ≡ existing t link
    → (index.thread_of c.inbox_id link ≡ some t)
      × (is_carried c link ≡ true)
      × (own_link c ≢ some link)
unfolding rule
assign_sound index c t link h =
    let (f, m) =
      ruled_sound (index.thread_of c.inbox_id) (reference_links c) (parent_link c) t link
        (sym (assign-eq-rule index c) ∙ h) in
    (f, m, carried-other c link m)
