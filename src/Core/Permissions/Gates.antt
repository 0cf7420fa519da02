-- ===== src/Core/Permissions/Gates.antt =====
-- The gates of permissions.rs: the flag, the unrestricted key, and scope before the flag.
use agent_mail_kit.Prelude.{String, ◌≡◌, refl, ◌↔◌, Bool, true, false, arith, ok, err, string_eq}
use agent_mail_kit.Types.ApiKey.{KeyGrants, allows}
use agent_mail_kit.Types.ApiKey.Catalog.{allows-known}
use agent_mail_kit.Types.ErrorCode.{status}
use agent_mail_kit.Core.Permissions.{Denial, is_known_flag, code, require, authorize}

-- An action is authorized exactly when its resource is in scope and its flag is one that the catalog
-- defines and the credential holds. Out of scope, every credential gets the same answer, whatever
-- flag it holds, with status 404; in scope and without the flag, the denial names the flag and has
-- status 403.
pub authorize_lem :
    (g : KeyGrants) (flag : String) (in_scope : Bool)
    → ((authorize g flag in_scope ≡ ok tt)
        ↔ ((in_scope ≡ true) × (is_known_flag flag ≡ true) × (allows g flag ≡ true)))
      × (in_scope ≡ false
          → (authorize g flag in_scope ≡ err Denial.not_found)
            × (status (code Denial.not_found) ≡ 404))
      × (in_scope ≡ true
          → allows g flag ≡ false
          → (authorize g flag in_scope ≡ err (Denial.missing_permission flag))
            × (status (code (Denial.missing_permission flag)) ≡ 403))
unfolding authorize require is_known_flag code status
authorize_lem g flag true =
    ((λ h. ground (arith, allows-known g flag), λ h. ground arith), λ h. cc, λ h k. ground arith)
authorize_lem g flag false = ((λ h. cc, λ h. cc), λ h. (refl, refl), λ h. cc)
