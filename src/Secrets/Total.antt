-- ===== src/Secrets/Total.antt =====
-- A mapping of a config's secrets raises only where `fn` does.
use turncall.Prelude.{
  String, List, ◌≢◌, refl, Option, none, some, arith, str_eq, Bool-cases, inl, inr,
}
use turncall.Json.{
  Json, Items, Fields, text, arr, obj, nil, cons, end, field, ◌>>=◌, try_fields, try_dict,
}
use turncall.Json.Passes.{Total, try_fields-Total, try_dict-Total, try_list-Total}
use turncall.Secrets.Mapped.{
  map_value, map_keys, map_llm, map_llm_field, map_failover, map_entry, map_mcp_server, map_field,
  map_secrets, aws_keys, url_keys, tool_keys,
}

bind2-ne-none {ℓ κ μ} :
    {A : Type ℓ} {B : Type κ} {C : Type μ} (c : A → B → C) (v : Option A) (o : Option B)
    → v ≢ none
    → o ≢ none
    → (v >>= λ w. o >>= λ r. some (c w r)) ≢ none
bind2-ne-none c none o hv ho = λ q. hv refl
bind2-ne-none c (some w) none hv ho = λ q. ho refl
bind2-ne-none c (some w) (some r) hv ho = cc

bind-ne-none {ℓ κ} :
    {A : Type ℓ} {B : Type κ} (c : A → B) (o : Option A) → o ≢ none → (o >>= λ a. some (c a)) ≢ none
bind-ne-none c none h = λ q. h refl
bind-ne-none c (some a) h = cc

module _ (f : String → Option String) (t : Total f) where
  map_value-Total : Total (map_value f)
  unfolding map_value
  map_value-Total (text s) = ground (arith, t s)
  map_value-Total _ = cc

  map_keys-Total : (keys : List String) → Total (map_keys f keys)
  unfolding map_keys
  map_keys-Total keys = try_fields-Total _ (λ k v. ground (arith, map_value-Total v))

  mutual
    unfolding map_llm

    map_llm-Total : (d : Fields) → map_llm f d ≢ none
    map_llm-Total end = cc
    map_llm-Total (field k v rest) =
        bind2-ne-none (field k) (map_llm_field f v k) (map_llm f rest) (map_llm_field-Total v k)
          (map_llm-Total rest)

    map_llm_field-Total : (v : Json) (k : String) → map_llm_field f v k ≢ none
    map_llm_field-Total (arr xs) k = elim (Bool-cases (str_eq k "failover")) [
      | inl e ↦ rw e (bind-ne-none arr (map_failover f xs) (map_failover-Total xs))
      | inr e ↦ rw e (λ q. cc)
    ]
    map_llm_field-Total v k = elim (Bool-cases (str_eq k "api_key")) [
      | inl e ↦ rw e (map_value-Total v)
      | inr e ↦ rw e (λ q. cc)
    ]

    map_failover-Total : (xs : Items) → map_failover f xs ≢ none
    map_failover-Total nil = cc
    map_failover-Total (cons v rest) =
        bind2-ne-none cons (map_entry f v) (map_failover f rest) (map_entry-Total v)
          (map_failover-Total rest)

    map_entry-Total : (v : Json) → map_entry f v ≢ none
    map_entry-Total (obj d) = bind-ne-none obj (map_llm f d) (map_llm-Total d)
    map_entry-Total _ = cc

  values-Total : Total (try_dict (try_fields (λ _ w. map_value f w)))
  values-Total = try_dict-Total _ (try_fields-Total _ (λ k. map_value-Total))

  map_mcp_server-Total : Total (map_mcp_server f)
  unfolding map_mcp_server
  map_mcp_server-Total = try_fields-Total _ (λ k v. ground (arith, values-Total v))

  pub map_field-Total : (k : String) → Total (map_field f k)
  unfolding map_field
  map_field-Total k v = ground (
    arith,
    try_dict-Total _ map_llm-Total v,
    try_dict-Total _ (map_keys-Total aws_keys) v,
    try_dict-Total _ (map_keys-Total url_keys) v,
    try_list-Total _ (try_dict-Total _ (map_keys-Total tool_keys)) v,
    try_list-Total _ (try_dict-Total _ map_mcp_server-Total) v,
  )

  pub map_secrets-Total : Total (map_secrets f)
  unfolding map_secrets
  map_secrets-Total = try_dict-Total _ (try_fields-Total _ map_field-Total)
