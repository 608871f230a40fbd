-- ===== src/Secrets.antt =====
-- domain/config_secrets.py: the secrets of an agent config, masked on the way out and mapped, that is
-- sealed or unsealed, on the way to a row and back. `fn` may raise, which is `none`.
pub mod Mapped
pub mod Fused
pub mod Refined
pub mod Total
pub mod Same
pub mod Masked
pub mod Shown
pub mod Kept
mod Examples
use turncall.Prelude.{
  String, Bool, true, false, not, ◌&&◌, List, [], ◌∷◌, Option, none, some, str_eq, if◌then◌else◌, ℕ,
  suc, any, filter,
}
use turncall.Json.{
  Json, Items, Fields, null, text, arr, obj, nil, cons, end, field, get, put, map_fields, map_items,
  at, on_dict, on_list,
}

abbrev pub mask : String
mask = "***"

-- `MASK` for what is not None.
unfoldable pub mask_value : Json → Json
mask_value null = null
mask_value _ = text mask

-- `_mask_llm`, on the fields of a dict, with its recursion into the failover list in the same walk.
unfoldable mutual
  pub mask_llm : Fields → Fields
  mask_llm end = end
  mask_llm (field k v rest) = field k (mask_llm_field v k) (mask_llm rest)

  pub mask_llm_field : Json → String → Json
  mask_llm_field (arr xs) k =
      let backups = mask_failover xs in
      if str_eq k "api_key" then text mask else if str_eq k "failover" then arr backups else arr xs
  mask_llm_field null k = null
  mask_llm_field v k = if str_eq k "api_key" then text mask else v

  pub mask_failover : Items → Items
  mask_failover nil = nil
  mask_failover (cons e rest) = cons (mask_entry e) (mask_failover rest)

  pub mask_entry : Json → Json
  mask_entry (obj d) = obj (mask_llm d)
  mask_entry e = e

unfoldable pub mask_aws : Fields → Fields
unfolding mask_value
mask_aws d =
    map_fields (at "session_token" mask_value) (map_fields (at "secret_access_key" mask_value) d)

-- `_mask_mcp_server`: the values under both keys; an empty dict stays one.
unfoldable pub mask_all : Fields → Fields
mask_all = map_fields (λ k v. text mask)

unfoldable pub mask_mcp_server : Fields → Fields
unfolding mask_all
mask_mcp_server d =
    map_fields (at "env" (on_dict mask_all)) (map_fields (at "headers" (on_dict mask_all)) d)

-- One key of the config, as `sanitize_config` tests and masks it.
unfoldable pub sanitize_field : String → Json → Json
unfolding mask_llm mask_aws mask_mcp_server mask_value
sanitize_field k v =
    if str_eq k "llm"
    then on_dict mask_llm v
    else if str_eq k "aws"
    then on_dict mask_aws v
    else if str_eq k "server_url"
    then on_dict (map_fields (at "secret" mask_value)) v
    else if str_eq k "tools"
    then on_list (on_dict (map_fields (at "webhook_secret" mask_value))) v
    else if str_eq k "mcp_servers"
    then on_list (on_dict mask_mcp_server) v
    else v

unfoldable pub sanitize_config : Json → Json
unfolding sanitize_field
sanitize_config = on_dict (map_fields sanitize_field)

-- `sanitize_target`
unfoldable pub sanitize_target : Json → Json
unfolding sanitize_config
sanitize_target = on_dict (map_fields (at "agent" sanitize_config))
