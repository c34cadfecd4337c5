-- ===== src/Vault/VaultAgent.antt =====
-- agents/vault/agent.py: the handler of `vault.secret.request` events. `iso` is the ISO-8601 text of a
-- time in seconds; the clock of the runtime counts seconds.
use cavi_erp.Prelude.{ℕ, String, Bool, true, false, none, List, [], ◌∷◌, if◌then◌else◌}
use cavi_erp.Prelude.Int.{pos}
use cavi_erp.Json.{Value, Object, str, arr, of_list}
use cavi_erp.Error
use cavi_erp.Error.{Error, Result, ok, err, message}
use cavi_erp.Exec.{Exec, raise, lift, gets, ◌>>=◌}
use cavi_erp.Services.{Services}
use cavi_erp.Agent.Event.{Event, item, text}
use cavi_erp.Agent.Runtime.{Agent, monotonic, now_iso, emit_new}
use cavi_erp.Vault.Credentials.{CredentialStore}
use cavi_erp.Vault.Token.{VendedToken, vend_token}

abbrev texts : List String → List Value
texts [] = []
texts (s ∷ l) = str s ∷ texts l

unfoldable pub granted_payload : (ℕ → String) → VendedToken → Object
granted_payload iso token =
    ("tenant_id", str token.tenant_id)
    ∷ ("erp_platform", str token.erp_platform)
    ∷ ("token_id", str token.token_id)
    ∷ ("scopes", arr (of_list (texts token.scopes)))
    ∷ ("expires_at", str (iso token.expires_at))
    ∷ ("issued_at", str (iso token.issued_at))
    ∷ []

unfoldable pub denied_payload : String → String → String → String → Object
denied_payload tenant_id erp_platform reason requested_at =
    ("tenant_id", str tenant_id)
    ∷ ("erp_platform", str erp_platform)
    ∷ ("reason", str reason)
    ∷ ("requested_at", str requested_at)
    ∷ []

-- `except (CredentialNotFound, VaultError)`
abbrev is_vault_error : Error → Bool
is_vault_error (Error.credential_not_found _) = true
is_vault_error (Error.unsupported_platform _) = true
is_vault_error (Error.token_expired _) = true
is_vault_error (Error.vault_error _) = true
is_vault_error _ = false

module _ (services : Services) (iso : ℕ → String) where
  unfoldable pub answer :
      Event → String → String → Result VendedToken → Exec (Agent CredentialStore) (Unit {0})
  answer e tenant_id platform (err reason) =
      if is_vault_error reason
      then (do
        requested_at ← now_iso services
        emit_new services "vault" "vault.secret.denied" (pos 1) e.correlation_id none
            (denied_payload tenant_id platform (message reason) requested_at))
      else raise reason
  answer e tenant_id platform (ok token) =
      emit_new services "vault" "vault.secret.granted" (pos 1) e.correlation_id none
        (granted_payload iso token)

  -- `handle`
  unfoldable pub on_event : Event → Exec (Agent CredentialStore) (Unit {0})
  on_event e = do
    tenant_id ← lift (Error.◌>>=◌ (item "tenant_id" e.payload) text)
    platform ← lift (Error.◌>>=◌ (item "erp_platform" e.payload) text)
    now ← monotonic services
    vended ← gets (λ s. vend_token tenant_id platform none none now s.own)
    answer e tenant_id platform vended
