-- ===== src/Core/Threading/Chains.antt =====
-- crates/amk-core/src/threading.rs: the loop over `References` finds the threads of the links, and
-- neither the set of visited links nor the order of repeats changes its answer.
use mathlib.Core.Path.{subst}
use agent_mail_kit.Prelude.{
  ◌≡◌, refl, sym, ◌∙◌, ap, Bool, true, false, ◌&&◌, ◌||◌, not, Option, none, some, List, [], ◌∷◌,
  arith, ◌==◌, nat_eq, list_eq, contains, all, all_of_contains, if◌then◌else◌, Option-cases,
  Bool-cases, inl, inr,
}
use agent_mail_kit.Types.Ids.{MessageId, ThreadId}
use agent_mail_kit.Core.Threading.Assigner.{
  no_linkage, unknown_linkage, ambiguous_linkage, ThreadAssignment, existing, new, Scan, usable,
  visit, scan, conclude, by_references,
}

-- The links that a list of header values carries, in order.
unfoldable pub links : Option MessageId → List MessageId → List MessageId
links own [] = []
links own (raw ∷ raws) = elim (usable own raw) [
  | none ↦ links own raws
  | some link ↦ link ∷ links own raws
]

module _ (look : MessageId → Option ThreadId) where
  -- The links that resolve, each with its thread.
  unfoldable pub hits : List MessageId → List (ThreadId × MessageId)
  hits [] = []
  hits (link ∷ ls) = elim (look link) [ none ↦ hits ls | some t ↦ (t, link) ∷ hits ls ]

  visits : Scan → List MessageId → Scan
  visits s [] = s
  visits s (link ∷ ls) = visits (visit look s link) ls

  scan-eq-visits :
      (own : Option MessageId) (s : Scan) (raws : List MessageId)
      → scan look own s raws ≡ visits s (links own raws)
  unfolding scan visits links
  scan-eq-visits own s [] = refl
  scan-eq-visits own s (raw ∷ raws) = elim (Option-cases (usable own raw)) [
    | inl e ↦ rw (e, scan, links) (scan-eq-visits own s raws)
    | inr (link, e) ↦ rw (e, scan, links) (scan-eq-visits own (visit look s link) raws)
  ]

  -- A link that was visited cannot change the state again: it resolves to nothing, to the thread that
  -- was found, or the answer is ambiguous already.
  known : Scan → MessageId → Bool
  known s link = elim (look link) [
    | none ↦ true
    | some t ↦ elim s.resolved [ none ↦ false | some (seen, _) ↦ seen == t || s.ambiguous ]
  ]

  record IsScan (s : Scan) : Type 0 where
    visited_known : all (known s) s.visited ≡ true
    open_end : s.resolved ≡ none → s.ambiguous ≡ false

  known-visit :
      (s : Scan) (link l : MessageId) → known s l ≡ true → known (visit look s link) l ≡ true
  unfolding known visit
  known-visit s link l h = ground arith

  known-visit_self :
      (s : Scan) (link : MessageId) → IsScan s → known (visit look s link) link ≡ true
  known-visit_self s link h = elim (Bool-cases (contains link s.visited)) [
    | inl old ↦
        known-visit s link link (all_of_contains (known s) link s.visited h.visited_known old)
    | inr fresh ↦ unfold known visit in ground (arith, fresh)
  ]

  all-known-visit :
      (s : Scan) (link : MessageId) (ls : List MessageId)
      → all (known s) ls ≡ true
      → all (known (visit look s link)) ls ≡ true
  all-known-visit s link [] h = refl
  all-known-visit s link (l ∷ ls) h =
      ground (arith, known-visit s link l, all-known-visit s link ls)

  visited-visit :
      (s : Scan) (link : MessageId)
      → (visit look s link).visited
        ≡ (if contains link s.visited then s.visited else link ∷ s.visited)
  unfolding visit
  visited-visit s link = ground arith

  all_if :
      (p : MessageId → Bool) (b : Bool) {l : MessageId} (ls : List MessageId)
      → all p ls ≡ true
      → p l ≡ true
      → all p (if b then ls else l ∷ ls) ≡ true
  all_if p true ls h k = h
  all_if p false ls h k = ground arith

  IsScan-visit : (s : Scan) (link : MessageId) → IsScan s → IsScan (visit look s link)
  IsScan-visit s link h = record {
    visited_known =
        subst (λ v. all (known (visit look s link)) v ≡ true) (sym (visited-visit s link))
          (all_if (known (visit look s link)) (contains link s.visited) s.visited
            (all-known-visit s link s.visited h.visited_known) (known-visit_self s link h));
    open_end = unfold visit in λ e. ground (arith, h.open_end);
  }

-- The answer that the resolved links give: none, one thread that they agree on, or an ambiguity.
abbrev pub by_hits : Bool → List (ThreadId × MessageId) → ThreadAssignment
by_hits had [] = if had then new unknown_linkage else new no_linkage
by_hits had ((t, link) ∷ rest) =
    if all (λ h. h.0 == t) rest then existing t link else new ambiguous_linkage

abbrev pub is_nonempty {ℓ} : {A : Type ℓ} → List A → Bool
is_nonempty [] = false
is_nonempty (x ∷ xs) = true

or_true : (b : Bool) → (b || true) ≡ true
or_true b = ground arith

-- The same, from a state in the middle of the loop.
verdict : Scan → Bool → List (ThreadId × MessageId) → ThreadAssignment
verdict s had hs = elim s.resolved [
  | none ↦ by_hits had hs
  | some (t, link) ↦
      if not s.ambiguous && all (λ h. h.0 == t) hs then existing t link else new ambiguous_linkage
]

module _ (look : MessageId → Option ThreadId) where
  verdict-visit :
      (s : Scan) (link : MessageId) (ls : List MessageId)
      → IsScan look s
      → verdict (visit look s link) true (hits look ls) ≡ verdict s true (hits look (link ∷ ls))
  unfolding verdict visit hits
  verdict-visit s link ls h = elim (Bool-cases (contains link s.visited)) [
    | inl old ↦
        let k = all_of_contains (known look s) link s.visited h.visited_known old in
        unfold known in ground (arith, old, k)
    | inr fresh ↦ ground (arith, fresh, h.open_end)
  ]

  had-visit : (s : Scan) (link : MessageId) → (visit look s link).had_link ≡ true
  unfolding visit
  had-visit s link = ground arith

  conclude-visits :
      (s : Scan) (ls : List MessageId)
      → IsScan look s
      → conclude (visits look s ls) ≡ verdict s (s.had_link || is_nonempty ls) (hits look ls)
  unfolding visits conclude verdict hits
  conclude-visits s [] h = ground (arith, h.open_end)
  conclude-visits s (link ∷ ls) h =
      conclude-visits (visit look s link) ls (IsScan-visit look s link h)
      ∙ ap (λ b. verdict (visit look s link) (b || is_nonempty ls) (hits look ls))
          (had-visit s link)
      ∙ verdict-visit s link ls h
      ∙ ap (λ b. verdict s b (hits look (link ∷ ls))) (sym (or_true s.had_link))

  pub by_references-eq-by_hits :
      (own : Option MessageId) (had : Bool) (references : List MessageId)
      → by_references look own had references
        ≡ by_hits (had || is_nonempty (links own references)) (hits look (links own references))
  unfolding by_references verdict
  by_references-eq-by_hits own had references =
      let start : Scan = record {
        had_link = had;
        visited = [];
        resolved = none;
        ambiguous = false;
      } in
      ap conclude (scan-eq-visits look own start references)
      ∙ conclude-visits start (links own references)
          (record { visited_known = refl; open_end = λ e. refl })
