-- ===== src/Types/ApiKey/Catalog.antt =====
-- crates/amk-types/src/api_key.rs: the catalog of flags and the fields of the object agree, and
-- what the object sends is what it grants.
use agent_mail_kit.Prelude.{
  String, ◌≡◌, refl, Bool, true, false, Option, none, some, List, [], ◌∷◌, arith, ◌==◌, string_eq,
  contains, Bool-cases, inl, inr,
}
use agent_mail_kit.Types.ApiKey.{
  ApiKeyPermissions, arms, select, get, KeyGrants, unrestricted, restricted, allows, wire_names,
  serialize, serialize_names, unwrap_or_false,
}

abbrev names : List (String × Option Bool) → List String
names [] = []
names ((n, v) ∷ rest) = n ∷ names rest

names-arms : (p : ApiKeyPermissions) → names (arms p) ≡ wire_names
unfolding arms
names-arms p = refl

select-some :
    (name : String) (l : List (String × Option Bool))
    → contains name (names l) ≡ true
    → (v : Option Bool) × (select name l ≡ some v)
unfolding select contains
select-some name [] h = cc
select-some name ((n, v) ∷ rest) h = elim (Bool-cases (n == name)) [
  | inl same ↦ (v, rw same refl)
  | inr other ↦ let (w, e) = select-some name rest (rw other at h) in (w, rw other e)
]

select-none :
    (name : String) (l : List (String × Option Bool))
    → contains name (names l) ≡ false
    → select name l ≡ none
unfolding select contains
select-none name [] h = refl
select-none name ((n, v) ∷ rest) h = ground (arith, select-none name rest)

-- A name is looked up with a result exactly when the catalog has it.
pub get-some :
    (p : ApiKeyPermissions) (name : String)
    → contains name wire_names ≡ true
    → (b : Bool) × (get p name ≡ some b)
unfolding get
get-some p name h =
    let (v, e) = select-some name (arms p) (rw names-arms h) in (unwrap_or_false v, rw (e, get))

pub get-none :
    (p : ApiKeyPermissions) (name : String) → contains name wire_names ≡ false → get p name ≡ none
unfolding get
get-none p name h = rw (select-none name (arms p) (rw names-arms h), get)

-- No credential is allowed a flag that the catalog does not define.
pub allows-known :
    (g : KeyGrants) (name : String) → allows g name ≡ true → contains name wire_names ≡ true
unfolding allows
allows-known unrestricted name h = h
allows-known (restricted p) name h = elim (Bool-cases (contains name wire_names)) [
  | inl known ↦ known
  | inr unknown ↦ cc (get-none p name unknown)
]

pub unrestricted-allows :
    (name : String) → contains name wire_names ≡ true → allows unrestricted name ≡ true
unfolding allows
unrestricted-allows name h = h

-- What the wire object says of each field: absent means not granted.
abbrev pub entries : List (String × Option Bool) → List (String × Bool)
entries [] = []
entries ((n, v) ∷ rest) = (n, unwrap_or_false v) ∷ entries rest

-- Serialising a permissions object never reaches the panic of its `expect`, and gives one entry for
-- each of the fields, in their order, with an absent field as `false`.
serialize-eq-entries : (p : ApiKeyPermissions) → serialize p ≡ some (entries (arms p))
unfolding serialize serialize_names get select arms
serialize-eq-entries p = refl
