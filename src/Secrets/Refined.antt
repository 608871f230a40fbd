-- ===== src/Secrets/Refined.antt =====
-- A mapping of a config's secrets goes on to give what it gave when `fn` is replaced by one that
-- gives the same wherever it gave something.
use turncall.Prelude.{
  String, List, ◌≡◌, refl, Option, none, some, arith, str_eq, Bool-cases, inl, inr,
}
use turncall.Json.{Json, Items, Fields, text, arr, obj, nil, cons, end, field, ◌>>=◌}
use turncall.Json.Passes.{Refines, try_fields-Refines, try_dict-Refines, try_list-Refines}
use turncall.Secrets.Mapped.{
  map_value, map_keys, map_llm, map_llm_field, map_failover, map_entry, map_mcp_server, map_field,
  map_secrets, aws_keys, url_keys, tool_keys,
}

-- What one result gives, the other gives.
abbrev Gives {ℓ} : {A : Type ℓ} → Option A → Option A → Type ℓ
Gives {A} o o' = (a : A) → o ≡ some a → o' ≡ some a

cons-Gives :
    (v v' : Option Json) (o o' : Option Items)
    → Gives v v'
    → Gives o o'
    → Gives (v >>= λ w. o >>= λ r. some (cons w r)) (v' >>= λ w. o' >>= λ r. some (cons w r))
cons-Gives none v' o o' hv ho a e = cc
cons-Gives (some w) v' none o' hv ho a e = cc
cons-Gives (some w) v' (some r) o' hv ho a e = ground (arith, hv w, ho r)

field-Gives :
    (k : String) (v v' : Option Json) (o o' : Option Fields)
    → Gives v v'
    → Gives o o'
    → Gives (v >>= λ w. o >>= λ r. some (field k w r)) (v' >>= λ w. o' >>= λ r. some (field k w r))
field-Gives k none v' o o' hv ho a e = cc
field-Gives k (some w) v' none o' hv ho a e = cc
field-Gives k (some w) v' (some r) o' hv ho a e = ground (arith, hv w, ho r)

-- A result put under a constructor.
under-Gives {ℓ κ} :
    {A : Type ℓ} {B : Type κ} (c : A → B) (o o' : Option A)
    → Gives o o'
    → Gives (o >>= λ a. some (c a)) (o' >>= λ a. some (c a))
under-Gives c none o' h b e = cc
under-Gives c (some a) o' h b e = rw (h a refl) e

module _ (f g : String → Option String) (h : Refines f g) where
  map_value-Refines : Refines (map_value f) (map_value g)
  unfolding map_value
  map_value-Refines (text s) b e = grind (arith, h)
  map_value-Refines _ b e = e

  map_keys-Refines : (keys : List String) → Refines (map_keys f keys) (map_keys g keys)
  unfolding map_keys
  map_keys-Refines keys = try_fields-Refines _ _ (λ k v b e. ground (arith, map_value-Refines v b))

  mutual
    unfolding map_llm

    map_llm-Refines : (d : Fields) → Gives (map_llm f d) (map_llm g d)
    map_llm-Refines end = λ b e. e
    map_llm-Refines (field k v rest) =
        field-Gives k (map_llm_field f v k) (map_llm_field g v k) (map_llm f rest) (map_llm g rest)
          (map_llm_field-Refines v k) (map_llm-Refines rest)

    map_llm_field-Refines :
        (v : Json) (k : String) → Gives (map_llm_field f v k) (map_llm_field g v k)
    map_llm_field-Refines (arr xs) k = elim (Bool-cases (str_eq k "failover")) [
      | inl e ↦
          rw e (under-Gives arr (map_failover f xs) (map_failover g xs) (map_failover-Refines xs))
      | inr e ↦ rw e (λ b q. q)
    ]
    map_llm_field-Refines v k = elim (Bool-cases (str_eq k "api_key")) [
      | inl e ↦ rw e (map_value-Refines v)
      | inr e ↦ rw e (λ b q. q)
    ]

    map_failover-Refines : (xs : Items) → Gives (map_failover f xs) (map_failover g xs)
    map_failover-Refines nil = λ b e. e
    map_failover-Refines (cons v rest) =
        cons-Gives (map_entry f v) (map_entry g v) (map_failover f rest) (map_failover g rest)
          (map_entry-Refines v) (map_failover-Refines rest)

    map_entry-Refines : (v : Json) → Gives (map_entry f v) (map_entry g v)
    map_entry-Refines (obj d) = under-Gives obj (map_llm f d) (map_llm g d) (map_llm-Refines d)
    map_entry-Refines _ = λ b e. e

  map_mcp_server-Refines : Refines (map_mcp_server f) (map_mcp_server g)
  unfolding map_mcp_server
  map_mcp_server-Refines = try_fields-Refines _ _ (λ k v b e.
      ground (arith, try_dict-Refines _ _ (try_fields-Refines _ _ (λ j. map_value-Refines)) v b))

  pub map_field-Refines : (k : String) → Refines (map_field f k) (map_field g k)
  unfolding map_field
  map_field-Refines k v = elim (Bool-cases (str_eq k "llm")) [
    | inl e ↦ rw (e, map_field) (try_dict-Refines _ _ map_llm-Refines v)
    | inr e ↦
        rw (e, map_field)
          (elim (Bool-cases (str_eq k "aws")) [
            | inl e ↦ rw (e, map_field) (try_dict-Refines _ _ (map_keys-Refines aws_keys) v)
            | inr e ↦
                rw (e, map_field)
                  (elim (Bool-cases (str_eq k "server_url")) [
                    | inl e ↦ rw (e, map_field) (try_dict-Refines _ _ (map_keys-Refines url_keys) v)
                    | inr e ↦
                        rw (e, map_field)
                          (elim (Bool-cases (str_eq k "tools")) [
                            | inl e ↦
                                rw (e, map_field)
                                  (try_list-Refines _ _
                                    (try_dict-Refines _ _ (map_keys-Refines tool_keys)) v)
                            | inr e ↦
                                rw (e, map_field)
                                  (elim (Bool-cases (str_eq k "mcp_servers")) [
                                    | inl e ↦
                                        rw (e, map_field)
                                          (try_list-Refines _ _
                                            (try_dict-Refines _ _ map_mcp_server-Refines) v)
                                    | inr e ↦ rw (e, map_field) (λ b q. q)
                                  ])
                          ])
                  ])
          ])
  ]

  pub map_secrets-Refines : Refines (map_secrets f) (map_secrets g)
  unfolding map_secrets
  map_secrets-Refines = try_dict-Refines _ _ (try_fields-Refines _ _ map_field-Refines)
