-- ===== src/Secrets/Fused.antt =====
-- Two mappings of a config's secrets in a row are one, and one that raises less maps the same.
use turncall.Prelude.{
  String, List, false, ◌≡◌, refl, Option, some, arith, str_eq, Bool-cases, Option-cases,
  if◌then◌else◌, none, inl, inr,
}
use turncall.Json.{
  Json, Items, Fields, text, arr, obj, nil, cons, end, field, ◌>>=◌, try_fields, try_dict, try_list,
}
use turncall.Json.Passes.{and_then, Fuses, try_fields-Fuses, try_dict-Fuses, try_list-Fuses}
use turncall.Secrets.Mapped.{
  map_value, map_keys, map_llm, map_llm_field, map_failover, map_entry, map_mcp_server, map_field,
  map_secrets, aws_keys, url_keys, tool_keys,
}

-- A text that is not empty does not become empty.
abbrev pub KeepsNonempty : (String → Option String) → Type 0
KeepsNonempty f = (s t : String) → str_eq s "" ≡ false → f s ≡ some t → str_eq t "" ≡ false

-- The field of a provider's block that holds a list.
map_llm_list :
    (f : String → Option String) (xs : Items) (k : String)
    → map_llm_field f (arr xs) k
      ≡ (if str_eq k "failover" then map_failover f xs >>= (λ ys. some (arr ys)) else some (arr xs))
unfolding map_llm
map_llm_list f xs k = refl

map_entry_dict :
    (f : String → Option String) (d : Fields)
    → map_entry f (obj d) ≡ (map_llm f d >>= λ b. some (obj b))
unfolding map_llm
map_entry_dict f d = refl

-- A step on the head and on what follows it, and then another on what they make.
cons_step :
    (v : Option Json) (o : Option Items) (g : Json → Option Json) (gs h : Items → Option Items)
    → ((w : Json) (r : Items) → h (cons w r) ≡ (g w >>= λ w'. gs r >>= λ r'. some (cons w' r')))
    → {v' : Option Json} {o' : Option Items} → (v >>= g) ≡ v'
    → (o >>= gs) ≡ o'
    → ((v >>= λ w. o >>= λ r. some (cons w r)) >>= h) ≡ (v' >>= λ w. o' >>= λ r. some (cons w r))
cons_step none o g gs h p ev eo = ground arith
cons_step (some w) none g gs h p ev eo = ground arith
cons_step (some w) (some r) g gs h p ev eo = ground (arith, p w r)

field_step :
    (k : String) (v : Option Json) (o : Option Fields) (g : Json → Option Json)
    (gs h : Fields → Option Fields)
    → ((w : Json) (r : Fields)
        → h (field k w r) ≡ (g w >>= λ w'. gs r >>= λ r'. some (field k w' r')))
    → {v' : Option Json} {o' : Option Fields} → (v >>= g) ≡ v'
    → (o >>= gs) ≡ o'
    → ((v >>= λ w. o >>= λ r. some (field k w r)) >>= h)
      ≡ (v' >>= λ w. o' >>= λ r. some (field k w r))
field_step k none o g gs h p ev eo = ground arith
field_step k (some w) none g gs h p ev eo = ground arith
field_step k (some w) (some r) g gs h p ev eo = ground (arith, p w r)

module _ (f g : String → Option String) (keeps : KeepsNonempty f) where
  map_value-Fuses : Fuses (map_value f) (map_value g) (map_value (and_then f g))
  unfolding map_value
  map_value-Fuses (text s) = grind (arith, keeps)
  map_value-Fuses _ = refl

  map_keys-Fuses :
      (keys : List String)
      → Fuses (map_keys f keys) (map_keys g keys) (map_keys (and_then f g) keys)
  unfolding map_keys
  map_keys-Fuses keys = try_fields-Fuses _ _ _ (λ k v. ground (arith, map_value-Fuses v))

  failover_field :
      (k : String) (xs : Items)
      → and_then (map_failover f) (map_failover g) xs ≡ map_failover (and_then f g) xs
      → (map_llm_field f (arr xs) k >>= λ w. map_llm_field g w k)
        ≡ map_llm_field (and_then f g) (arr xs) k
  failover_field k xs e = elim (Option-cases (map_failover f xs)) [
    | inl h ↦ rw (map_llm_list f, map_llm_list (and_then f g)) (ground (arith, map_llm_list g xs k))
    | inr (ys, h) ↦
        rw (map_llm_list f, map_llm_list (and_then f g))
          (ground (arith, map_llm_list g xs k, map_llm_list g ys k))
  ]

  dict_entry :
      (d : Fields)
      → and_then (map_llm f) (map_llm g) d ≡ map_llm (and_then f g) d
      → and_then (map_entry f) (map_entry g) (obj d) ≡ map_entry (and_then f g) (obj d)
  dict_entry d e = elim (Option-cases (map_llm f d)) [
    | inl h ↦ rw (map_entry_dict f, map_entry_dict (and_then f g)) (ground arith)
    | inr (b, h) ↦
        rw (map_entry_dict f, map_entry_dict (and_then f g)) (ground (arith, map_entry_dict g b))
  ]

  mutual
    unfolding map_llm map_value

    map_llm-Fuses : (d : Fields) → and_then (map_llm f) (map_llm g) d ≡ map_llm (and_then f g) d
    map_llm-Fuses end = refl
    map_llm-Fuses (field k v rest) =
        field_step k (map_llm_field f v k) (map_llm f rest) (λ w. map_llm_field g w k) (map_llm g)
          (map_llm g) (λ w r. refl) (map_llm_field-Fuses v k) (map_llm-Fuses rest)

    map_llm_field-Fuses :
        (v : Json) (k : String)
        → (map_llm_field f v k >>= λ w. map_llm_field g w k) ≡ map_llm_field (and_then f g) v k
    map_llm_field-Fuses (arr xs) k = failover_field k xs (map_failover-Fuses xs)
    map_llm_field-Fuses (text s) k = ground (arith, map_value-Fuses (text s))
    map_llm_field-Fuses _ k = ground arith

    map_failover-Fuses :
        (xs : Items)
        → and_then (map_failover f) (map_failover g) xs ≡ map_failover (and_then f g) xs
    map_failover-Fuses nil = refl
    map_failover-Fuses (cons e rest) =
        cons_step (map_entry f e) (map_failover f rest) (map_entry g) (map_failover g)
          (map_failover g) (λ w r. refl) (map_entry-Fuses e) (map_failover-Fuses rest)

    map_entry-Fuses :
        (e : Json) → and_then (map_entry f) (map_entry g) e ≡ map_entry (and_then f g) e
    map_entry-Fuses (obj d) = dict_entry d (map_llm-Fuses d)
    map_entry-Fuses _ = refl

  map_values-Fuses :
      Fuses
        (try_dict (try_fields (λ _ w. map_value f w)))
        (try_dict (try_fields (λ _ w. map_value g w)))
        (try_dict (try_fields (λ _ w. map_value (and_then f g) w)))
  map_values-Fuses = try_dict-Fuses _ _ _ (try_fields-Fuses _ _ _ (λ k. map_value-Fuses))

  map_mcp_server-Fuses : Fuses (map_mcp_server f) (map_mcp_server g) (map_mcp_server (and_then f g))
  unfolding map_mcp_server
  map_mcp_server-Fuses = try_fields-Fuses _ _ _ (λ k v. ground (arith, map_values-Fuses v))

  block-Fuses :
      (keys : List String)
      → Fuses
          (try_dict (map_keys f keys))
          (try_dict (map_keys g keys))
          (try_dict (map_keys (and_then f g) keys))
  block-Fuses keys = try_dict-Fuses _ _ _ (map_keys-Fuses keys)

  llm-Fuses :
      Fuses (try_dict (map_llm f)) (try_dict (map_llm g)) (try_dict (map_llm (and_then f g)))
  llm-Fuses = try_dict-Fuses _ _ _ map_llm-Fuses

  tools-Fuses :
      (keys : List String)
      → Fuses
          (try_list (try_dict (map_keys f keys)))
          (try_list (try_dict (map_keys g keys)))
          (try_list (try_dict (map_keys (and_then f g) keys)))
  tools-Fuses keys = try_list-Fuses _ _ _ (block-Fuses keys)

  servers-Fuses :
      Fuses
        (try_list (try_dict (map_mcp_server f)))
        (try_list (try_dict (map_mcp_server g)))
        (try_list (try_dict (map_mcp_server (and_then f g))))
  servers-Fuses = try_list-Fuses _ _ _ (try_dict-Fuses _ _ _ map_mcp_server-Fuses)

  pub map_field-Fuses :
      (k : String) → Fuses (map_field f k) (map_field g k) (map_field (and_then f g) k)
  unfolding map_field
  map_field-Fuses k v = elim (Bool-cases (str_eq k "llm")) [
    | inl e ↦ rw (e, map_field) (llm-Fuses v)
    | inr e ↦
        rw (e, map_field)
          (elim (Bool-cases (str_eq k "aws")) [
            | inl e ↦ rw (e, map_field) (block-Fuses aws_keys v)
            | inr e ↦
                rw (e, map_field)
                  (elim (Bool-cases (str_eq k "server_url")) [
                    | inl e ↦ rw (e, map_field) (block-Fuses url_keys v)
                    | inr e ↦
                        rw (e, map_field)
                          (elim (Bool-cases (str_eq k "tools")) [
                            | inl e ↦ rw (e, map_field) (tools-Fuses tool_keys v)
                            | inr e ↦
                                rw (e, map_field)
                                  (elim (Bool-cases (str_eq k "mcp_servers")) [
                                    | inl e ↦ rw (e, map_field) (servers-Fuses v)
                                    | inr e ↦ rw (e, map_field)
                                  ])
                          ])
                  ])
          ])
  ]

  pub map_secrets-Fuses : Fuses (map_secrets f) (map_secrets g) (map_secrets (and_then f g))
  unfolding map_secrets
  map_secrets-Fuses = try_dict-Fuses _ _ _ (try_fields-Fuses _ _ _ map_field-Fuses)
