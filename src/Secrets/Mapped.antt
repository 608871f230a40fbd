-- ===== src/Secrets/Mapped.antt =====
-- `map_secrets` of domain/config_secrets.py with its helpers: `fn` on every secret of a config.
use turncall.Prelude.{String, List, [], ◌∷◌, Option, none, some, contains, str_eq, if◌then◌else◌}
use turncall.Json.{
  Json, Items, Fields, text, arr, obj, nil, cons, end, field, get, ◌>>=◌, try_fields, try_at,
  try_dict, try_list,
}

-- The keys that hold a secret in the `aws` block, in `server_url` and in a tool.
abbrev pub aws_keys : List String
aws_keys = "access_key_id" ∷ "secret_access_key" ∷ "session_token" ∷ []

abbrev pub url_keys : List String
url_keys = "secret" ∷ []

abbrev pub tool_keys : List String
tool_keys = "webhook_secret" ∷ []

-- `v[key]`
unfoldable pub item : String → Json → Option Json
unfolding get
item k (obj d) = get k d
item k v = none

module _ (fn : String → Option String) where
  -- `_map_value`: only a text that is not empty reaches `fn`.
  unfoldable pub map_value : Json → Option Json
  map_value (text s) = if str_eq s "" then some (text s) else (fn s >>= λ t. some (text t))
  map_value v = some v

  -- `_map_keys`
  unfoldable pub map_keys : List String → Fields → Option Fields
  unfolding map_value
  map_keys keys = try_fields (λ k v. if contains k keys then map_value v else some v)

  -- `_map_llm`, with its recursion into the failover list in the same walk.
  unfoldable mutual
    pub map_llm : Fields → Option Fields
    map_llm end = some end
    map_llm (field k v rest) = do
      v' ← map_llm_field v k
      rest' ← map_llm rest
      some (field k v' rest')

    pub map_llm_field : Json → String → Option Json
    map_llm_field (arr xs) k =
        let backups = map_failover xs in
        if str_eq k "failover" then backups >>= (λ xs'. some (arr xs')) else some (arr xs)
    map_llm_field v k = if str_eq k "api_key" then map_value v else some v

    pub map_failover : Items → Option Items
    map_failover nil = some nil
    map_failover (cons e rest) = do
      e' ← map_entry e
      rest' ← map_failover rest
      some (cons e' rest')

    pub map_entry : Json → Option Json
    map_entry (obj d) = map_llm d >>= λ d'. some (obj d')
    map_entry e = some e

  -- `_map_mcp_server`
  unfoldable pub map_mcp_server : Fields → Option Fields
  unfolding map_value
  map_mcp_server = try_fields (λ k v.
      if contains k ("headers" ∷ "env" ∷ [])
      then try_dict (try_fields (λ _ w. map_value w)) v
      else some v)

  -- One key of the config, as `map_secrets` tests and maps it.
  unfoldable pub map_field : String → Json → Option Json
  unfolding map_llm map_keys map_mcp_server
  map_field k v =
      if str_eq k "llm"
      then try_dict map_llm v
      else if str_eq k "aws"
      then try_dict (map_keys aws_keys) v
      else if str_eq k "server_url"
      then try_dict (map_keys url_keys) v
      else if str_eq k "tools"
      then try_list (try_dict (map_keys tool_keys)) v
      else if str_eq k "mcp_servers"
      then try_list (try_dict map_mcp_server) v
      else some v

  unfoldable pub map_secrets : Json → Option Json
  unfolding map_field
  map_secrets = try_dict (try_fields map_field)

  -- `map_tools`: the list as the `tools` of a config, and what becomes of it there.
  unfoldable pub map_tools : Json → Option Json
  unfolding map_secrets item
  map_tools tools = map_secrets (obj (field "tools" tools end)) >>= item "tools"

  -- An eval target's inline agent, and the agent that a call's metadata keeps: a dict with a dict
  -- under `key` has its secrets mapped there, anything else is as it was.
  unfoldable pub map_under : String → Json → Option Json
  unfolding map_secrets
  map_under key = try_dict (try_fields (try_at key map_secrets))

  unfoldable pub map_inline_target : Json → Option Json
  unfolding map_under
  map_inline_target = map_under "agent"

  unfoldable pub map_dynamic_config : Json → Option Json
  unfolding map_under
  map_dynamic_config = map_under "dynamic_config"
