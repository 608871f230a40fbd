-- ===== src/Sealing.antt =====
-- storage/sealing.py: secrets sealed at rest under CREDENTIAL_ENCRYPTION_KEY, and the column types that
-- seal on write and unseal on read. A result of `none` is CredentialKeyError.
pub mod Values
pub mod Columns
pub mod RoundTrip
mod Examples
use turncall.Prelude.{
  String, Bool, true, false, ◌≡◌, ◌≢◌, Option, none, some, str_eq, str_append, if◌then◌else◌,
  is_some,
}
use turncall.Json.{Json, Fields, null, text, ◌>>=◌, after}
use turncall.Secrets.Mapped.{map_secrets, map_tools, map_inline_target, map_dynamic_config}

-- The `cryptography` package's Fernet. A key is well formed or not; a token is made with randomness
-- that is fixed here, so that a result holds whatever it was; a text that is no token of the key is
-- refused (InvalidToken). The law is its documented one.
pub record Fernet : Type 0 where
  pub is_key : String → Bool
  pub encrypt : String → String → String
  pub decrypt : String → String → Option String
  pub decrypt_encrypt : (key value : String) → decrypt key (encrypt key value) ≡ some value

abbrev pub prefix : String
prefix = "tcs1:"

-- The configured key, empty where it is not set.
module _ (c : Fernet) (key : String) where
  -- `fernet` and `_cipher`: the key that a value is sealed under.
  unfoldable pub fernet : Option String
  fernet = if str_eq key "" then none else if c.is_key key then some key else none

  -- The token of a value that is sealed.
  unfoldable pub is_sealed : String → Bool
  is_sealed value = is_some (after prefix value)

  unfoldable pub opened_by : Option String → Option String
  opened_by none = none
  opened_by (some token) = c.decrypt key token

  unfoldable pub sealed_with : String → String
  unfolding opened_by
  sealed_with value = elim (opened_by (after prefix value)) [
    | some plain ↦ value
    | none ↦ str_append prefix (c.encrypt key value)
  ]

  -- The cipher's key is the configured one.
  unfoldable pub seal : String → Option String
  unfolding fernet sealed_with
  seal value = if str_eq value "" then some value else (fernet >>= λ _. some (sealed_with value))

  unfoldable pub unseal : String → Option String
  unfolding fernet
  unseal value = elim (after prefix value) [
    | none ↦ some value
    | some token ↦ fernet >>= λ _. c.decrypt key token
  ]

  -- `SealedText`: None stays None.
  unfoldable pub bind_text : Option String → Option (Option String)
  unfolding seal
  bind_text none = some none
  bind_text (some value) = seal value >>= λ s. some (some s)

  unfoldable pub result_text : Option String → Option (Option String)
  unfolding unseal
  result_text none = some none
  result_text (some value) = unseal value >>= λ s. some (some s)

-- `_SealedJSONB`: a column's own walk, applied with `seal` on the way in and `unseal` on the way out.
pub data Column : Type 0 where
  agent_config tools target metadata : Column

unfoldable pub walk : Column → (String → Option String) → Json → Option Json
walk agent_config fn = map_secrets fn
walk tools fn = map_tools fn
walk target fn = map_inline_target fn
walk metadata fn = map_dynamic_config fn

module _ (c : Fernet) (key : String) where
  unfoldable pub process_bind_param : Column → Json → Option Json
  unfolding walk seal
  process_bind_param column = walk column (seal c key)

  unfoldable pub process_result_value : Column → Json → Option Json
  unfolding walk unseal
  process_result_value column = walk column (unseal c key)
