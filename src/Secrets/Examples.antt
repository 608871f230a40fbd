-- ===== src/Secrets/Examples.antt =====
-- A config's secrets mapped and masked, at concrete configs.
use turncall.Prelude.{String, ◌≡◌, refl, List, [], ◌∷◌, Option, none, some, str_append, map}
use turncall.Json.{
  Json, null, text, arr, obj, nil, cons, end, field, try_fields, map_fields, try_items,
}
use turncall.Secrets.{sanitize_config}
use turncall.Secrets.Mapped.{map_secrets}
use turncall.Secrets.Shown.{map_access_key, masked_hides}
use turncall.Secrets.Kept.{Tool, mask_tool, keep_masked_tool_secrets, learn}
use turncall.Secrets.Kept.Returned.{kept_as_stored}

abbrev one : String → Json → Json
one k v = obj (field k v end)

-- A provider's key with a backup's, AWS keys, a tool's secret and an MCP server's header.
abbrev config_of : String → Json
config_of s = obj (
    field "llm"
      (obj (
        field "model" (text "m") (
          field "api_key" (text s)
            (field "failover" (arr (cons (one "api_key" (text s)) nil)) end))))
      (field "aws" (obj (field "access_key_id" (text s) (field "secret_access_key" (text s) end))) (
        field "tools" (arr (cons (one "webhook_secret" (text s)) (cons (one "name" (text s)) nil)))
          (field "mcp_servers" (arr (cons (one "headers" (one "Authorization" (text s))) nil))
            end))))

-- Only the secrets change: the second tool has none.
abbrev marked : Json
marked = obj (
    field "llm"
      (obj (
        field "model" (text "m") (
          field "api_key" (text "!a")
            (field "failover" (arr (cons (one "api_key" (text "!a")) nil)) end))))
      (field "aws"
        (obj (field "access_key_id" (text "!a") (field "secret_access_key" (text "!a") end)))
        (field "tools"
          (arr (cons (one "webhook_secret" (text "!a")) (cons (one "name" (text "a")) nil)))
          (field "mcp_servers" (arr (cons (one "headers" (one "Authorization" (text "!a"))) nil))
            end))))

abbrev mark : String → Option String
mark s = some (str_append "!" s)

marks : map_secrets mark (config_of "a") ≡ some marked
unfolding map_secrets try_fields try_items
marks = refl

-- What is shown of it: the AWS access key id, and which keys there are.
shown :
    sanitize_config
      (one "aws" (obj (field "access_key_id" (text "k") (field "session_token" null end))))
    ≡ one "aws" (obj (field "access_key_id" (text "k") (field "session_token" null end)))
unfolding sanitize_config map_fields
shown = refl

shown_masked :
    sanitize_config (one "llm" (one "failover" (arr (cons (one "api_key" (text "k")) nil))))
    ≡ one "llm" (one "failover" (arr (cons (one "api_key" (text "***")) nil)))
unfolding sanitize_config map_fields
shown_masked = refl

masked_hides_example :
    map_access_key mark (sanitize_config (config_of "a")) ≡ some (sanitize_config marked)
masked_hides_example = masked_hides mark (config_of "a") marked marks

abbrev tool : String → Option String → Tool
tool n s = record { name = n; webhook_secret = s; others = end }

abbrev stored_tools : List Tool
stored_tools = tool "book" (some "b1") ∷ tool "look" none ∷ tool "pay" (some "p1") ∷ []

kept_as_stored_example :
    keep_masked_tool_secrets
      (map mask_tool stored_tools)
      (stored_tools ∷ (tool "book" (some "old") ∷ []) ∷ [])
    ≡ (stored_tools, [])
unfolding learn
kept_as_stored_example =
    kept_as_stored stored_tools ((tool "book" (some "old") ∷ []) ∷ [])
      (refl, refl, (refl, refl, (refl, refl, tt)))

-- A new tool that comes masked has nothing to keep: its index is returned.
unfilled_new :
    keep_masked_tool_secrets (tool "new" (some "***") ∷ []) (stored_tools ∷ [])
    ≡ (tool "new" (some "***") ∷ [], 0 ∷ [])
unfolding keep_masked_tool_secrets
unfilled_new = refl
