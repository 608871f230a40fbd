-- ===== src/Secrets/Same.antt =====
-- A mapping by an `fn` that takes each text as it is takes each config as it is.
use turncall.Prelude.{String, List, ◌≡◌, refl, Option, some, arith, str_eq, Bool-cases, inl, inr}
use turncall.Json.{Json, Items, Fields, text, arr, obj, nil, cons, end, field, try_fields, try_dict}
use turncall.Json.Passes.{Same, try_fields-Same, try_dict-Same, try_list-Same}
use turncall.Secrets.Mapped.{
  map_value, map_keys, map_llm, map_llm_field, map_failover, map_entry, map_mcp_server, map_field,
  map_secrets, aws_keys, url_keys, tool_keys,
}

module _ (f : String → Option String) (t : Same f) where
  map_value-Same : Same (map_value f)
  unfolding map_value
  map_value-Same (text s) = ground (arith, t s)
  map_value-Same _ = refl

  map_keys-Same : (keys : List String) → Same (map_keys f keys)
  unfolding map_keys
  map_keys-Same keys = try_fields-Same _ (λ k v. ground (arith, map_value-Same v))

  mutual
    unfolding map_llm

    map_llm-Same : (d : Fields) → map_llm f d ≡ some d
    map_llm-Same end = refl
    map_llm-Same (field k v rest) = rw (map_llm_field-Same v k, map_llm-Same rest)

    map_llm_field-Same : (v : Json) (k : String) → map_llm_field f v k ≡ some v
    map_llm_field-Same (arr xs) k = elim (Bool-cases (str_eq k "failover")) [
      | inl e ↦ rw (e, map_failover-Same xs)
      | inr e ↦ rw e
    ]
    map_llm_field-Same v k = elim (Bool-cases (str_eq k "api_key")) [
      | inl e ↦ rw e (map_value-Same v)
      | inr e ↦ rw e
    ]

    map_failover-Same : (xs : Items) → map_failover f xs ≡ some xs
    map_failover-Same nil = refl
    map_failover-Same (cons v rest) = rw (map_entry-Same v, map_failover-Same rest)

    map_entry-Same : (v : Json) → map_entry f v ≡ some v
    map_entry-Same (obj d) = rw (map_llm-Same d)
    map_entry-Same _ = refl

  values-Same : Same (try_dict (try_fields (λ _ w. map_value f w)))
  values-Same = try_dict-Same _ (try_fields-Same _ (λ k. map_value-Same))

  map_mcp_server-Same : Same (map_mcp_server f)
  unfolding map_mcp_server
  map_mcp_server-Same = try_fields-Same _ (λ k v. ground (arith, values-Same v))

  pub map_field-Same : (k : String) → Same (map_field f k)
  unfolding map_field
  map_field-Same k v = ground (
    arith,
    try_dict-Same _ map_llm-Same v,
    try_dict-Same _ (map_keys-Same aws_keys) v,
    try_dict-Same _ (map_keys-Same url_keys) v,
    try_list-Same _ (try_dict-Same _ (map_keys-Same tool_keys)) v,
    try_list-Same _ (try_dict-Same _ map_mcp_server-Same) v,
  )

  pub map_secrets-Same : Same (map_secrets f)
  unfolding map_secrets
  map_secrets-Same = try_dict-Same _ (try_fields-Same _ map_field-Same)
