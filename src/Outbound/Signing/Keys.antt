-- ===== src/Outbound/Signing/Keys.antt =====
-- The keyring by domain, and what a signature is made with.
use agent_mail_kit.Prelude.{
  ◌≡◌, refl, true, Option, some, ◌==◌, nat_eq, list_eq, ok, ok_or, bind_ok, ok_or_ok, if◌then◌else◌,
}
use agent_mail_kit.Types.Str.{Text, to_ascii_lowercase}
use agent_mail_kit.Types.Str.Order.{upsert}
use agent_mail_kit.Types.Str.Order.Sorted.{ascends}
use agent_mail_kit.Types.Str.Order.Maps.{keys_of, upsert-ascends, entry_at-upsert}
use agent_mail_kit.Outbound.Errors.{Bytes}
use agent_mail_kit.Outbound.Signing.{
  Crypto, SigningKey, Keyring, parse_der, insert_der, key_for, names_to_sign, sign,
}

-- The keys are in the order of their domains, as the map keeps them.
abbrev pub IsOrdered : Keyring → Type 0
IsOrdered keys = ascends (keys_of keys) ≡ true

module _ (c : Crypto) where
  -- A key that is loaded for a domain, and can be, leaves the keyring in order; it is then found
  -- under every spelling of that domain in other case, and the keys of other domains are as before.
  pub key_for-insert_der :
      (keys : Keyring) (domain selector : Text) (der : Bytes) (key : c.RsaKey)
      → IsOrdered keys
      → parse_der c der ≡ some key
      → (after : Keyring) × (insert_der c keys domain selector der ≡ ok after)
        × IsOrdered after
        × ((other : Text)
            → key_for after other ≡ (
                if to_ascii_lowercase domain == to_ascii_lowercase other
                then some (record { selector = selector; der = der })
                else key_for keys other))
  unfolding insert_der key_for
  key_for-insert_der keys domain selector der key h e =
      let entry : SigningKey = record { selector = selector; der = der } in
      let place : Option SigningKey → SigningKey = λ old. entry in
      let stored = to_ascii_lowercase domain in
      (
        upsert stored place keys,
        rw (insert_der, e) refl,
        upsert-ascends stored place keys h,
        λ other. entry_at-upsert stored (to_ascii_lowercase other) place keys h,
      )

  -- What a signature was made from.
  pub record Signs (keys : Keyring) (domain : Text) (raw signature : Bytes) : Type 0 where
    pub entry : SigningKey
    pub key : c.RsaKey
    pub held : key_for keys domain ≡ some entry
    pub parses : parse_der c entry.der ≡ some key
    pub made :
        c.dkim_sign key (to_ascii_lowercase domain) entry.selector (names_to_sign c raw) raw
        ≡ some signature

  pub sign_sound :
      (keys : Keyring) (domain : Text) (raw : Bytes) {signature : Bytes}
      → sign c keys domain raw ≡ ok signature
      → Signs keys domain raw signature
  unfolding sign
  sign_sound keys domain raw h =
      let (entry, e1, h1) = bind_ok (ok_or (key_for keys domain) _) _ h in
      let (key, e2, h2) = bind_ok (ok_or (parse_der c entry.der) _) _ h1 in
      record {
        entry = entry;
        key = key;
        held = ok_or_ok (key_for keys domain) _ e1;
        parses = ok_or_ok (parse_der c entry.der) _ e2;
        made =
            ok_or_ok
              (c.dkim_sign key (to_ascii_lowercase domain) entry.selector (names_to_sign c raw) raw)
              _ h2;
      }
