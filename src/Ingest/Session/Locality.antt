-- ===== src/Ingest/Session/Locality.antt =====
-- crates/amk-ingest/src/smtp.rs, `rcpt_domain_is_local`: which addresses are local.
use agent_mail_kit.Prelude.{
  ◌≡◌, refl, true, false, Option, none, some, List, [], ◌∷◌, ◌++◌, ◌==◌, nat_eq, list_eq, any,
  contains, arith,
}
use agent_mail_kit.Types.Str.{Text, to_ascii_lowercase}
use agent_mail_kit.Types.Str.Split.{rsplit_once, rsplit_once_sound, rsplit_once_last}
use agent_mail_kit.Ingest.Session.{is_among, rcpt_domain_is_local}

-- What follows the last `@` of the address is a local domain, in lower case.
pub record IsLocal (local_domains : List Text) (address : Text) : Type 0 where
  pub local : Text
  pub domain : Text
  pub splits : address ≡ local ++ b'@' ∷ domain
  pub is_last : contains b'@' domain ≡ false
  pub is_listed : contains (to_ascii_lowercase domain) local_domains ≡ true

listed : (x : Text) (xs : List Text) → any (λ y. y == x) xs ≡ true → contains x xs ≡ true
unfolding contains
listed x [] h = cc
listed x (y ∷ ys) h = ground (arith, listed x ys)

listed-IsLocal :
    (local_domains : List Text) (address : Text) (found : Option (Text × Text))
    → rsplit_once b'@' address ≡ found
    → is_among local_domains found ≡ true
    → IsLocal local_domains address
listed-IsLocal local_domains address none e h = cc
listed-IsLocal local_domains address (some (local, domain)) e h = record {
  local = local;
  domain = domain;
  splits = rsplit_once_sound b'@' address local domain e;
  is_last = rsplit_once_last b'@' address local domain e;
  is_listed = listed (to_ascii_lowercase domain) local_domains h;
}

pub rcpt_domain_is_local_sound :
    (local_domains : List Text) (address : Text)
    → rcpt_domain_is_local local_domains address ≡ true
    → IsLocal local_domains address
unfolding rcpt_domain_is_local
rcpt_domain_is_local_sound local_domains address h = listed-IsLocal local_domains address _ refl h
