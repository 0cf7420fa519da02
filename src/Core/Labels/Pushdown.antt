-- ===== src/Core/Labels/Pushdown.antt =====
-- crates/amk-core/src/labels.rs: the labels pushed down into a query decide what `admit` decides, and
-- how the three paths compare.
use agent_mail_kit.Prelude.{
  String, ◌≡◌, refl, Bool, ◌&&◌, ◌||◌, not, List, [], ◌∷◌, arith, string_eq, all, any, contains,
  contains-retain,
}
use agent_mail_kit.Types.Labels.{restricted, is_restricted}
use agent_mail_kit.Types.ApiKey.{KeyGrants}
use agent_mail_kit.Core.Labels.Flags.{IncludeFlags, has}
use agent_mail_kit.Core.Labels.Admission.{
  LabelAccess, list_access, search_access, by_id_access, requested, admits, excluded_labels,
}
use agent_mail_kit.Core.Labels.Verdicts.{visible, admits-eq-all-visible}

pub all_ext {ℓ} :
    {A : Type ℓ} (p q : A → Bool) (xs : List A) → ((x : A) → p x ≡ q x) → all p xs ≡ all q xs
all_ext p q [] h = refl
all_ext p q (x ∷ xs) h = ground (arith, h x, all_ext p q xs h)

pub admits_single : (l : String) (access : LabelAccess) → admits (l ∷ []) access ≡ visible access l
admits_single l access = rw (admits-eq-all-visible (l ∷ []) access) (ground arith)

excluded_lem :
    (access : LabelAccess) (l : String)
    → contains l (excluded_labels access) ≡ not (visible access l)
unfolding excluded_labels visible
excluded_lem access l = ground (
  arith,
  contains-retain (λ (k : String). not (admits (k ∷ []) access)) l restricted,
  admits_single l access,
)

-- A query that leaves out every row with an excluded label returns exactly the rows that are admitted:
-- a row is admitted just when it carries none of the excluded labels.
pub admits-eq-none_excluded :
    (labels : List String) (access : LabelAccess)
    → admits labels access ≡ not (any (λ l. contains l (excluded_labels access)) labels)
admits-eq-none_excluded labels access = rw (admits-eq-all-visible labels access) (go labels)
  where
    go :
        (ls : List String)
        → all (visible access) ls ≡ not (any (λ l. contains l (excluded_labels access)) ls)
    go [] = refl
    go (l ∷ ls) = ground (arith, excluded_lem access l, go ls)

search_by_id :
    (g : KeyGrants) (l : String) → visible (search_access g) l ≡ visible (by_id_access g) l
unfolding visible requested
search_by_id g l = refl

list_by_id :
    (g : KeyGrants) (flags : IncludeFlags) (l : String)
    → visible (list_access g flags) l
      ≡ (visible (by_id_access g) l && (not (is_restricted l) || has flags l))
unfolding visible requested
list_by_id g flags l = ground arith

-- Search and get-by-id admit the same items; a list admits those of them whose every restricted label
-- the request asked for.
pub list-admits :
    (labels : List String) (g : KeyGrants) (flags : IncludeFlags)
    → (admits labels (search_access g) ≡ admits labels (by_id_access g))
      × (admits labels (list_access g flags) ≡ (
          admits labels (by_id_access g) && all (λ l. not (is_restricted l) || has flags l) labels))
list-admits labels g flags =
    rw
      (
        admits-eq-all-visible labels (search_access g),
        admits-eq-all-visible labels (by_id_access g),
        admits-eq-all-visible labels (list_access g flags),
      )
      (same labels, asked labels)
  where
    same :
        (ls : List String) → all (visible (search_access g)) ls ≡ all (visible (by_id_access g)) ls
    same ls = all_ext _ _ ls (λ l. search_by_id g l)

    asked :
        (ls : List String)
        → all (visible (list_access g flags)) ls ≡ (
            all (visible (by_id_access g)) ls && all (λ l. not (is_restricted l) || has flags l) ls)
    asked [] = refl
    asked (l ∷ ls) = ground (arith, list_by_id g flags l, asked ls)
