-- ===== src/Secrets/Shown.antt =====
-- A sanitized config shows nothing of what `map_secrets` reaches but the AWS access key id.
use mathlib.Core.Path.{subst}
use turncall.Prelude.{
  String, [], ◌∷◌, true, ◌≡◌, sym, ap, Option, some, arith, str_eq, contains, Bool-cases, inl, inr,
  if◌then◌else◌, eq_iff,
}
use turncall.Json.{Json, Fields, obj, map_fields, try_fields, try_dict, try_at, at, on_dict}
use turncall.Secrets.{mask_value, mask_aws, sanitize_field, sanitize_config}
use turncall.Secrets.Mapped.{map_value, map_keys, map_field, map_secrets, aws_keys}
use turncall.Secrets.Masked.{
  Shows, fields-Shows, dict-Hidden, list-Hidden, value-Hidden, key-Hidden, mcp_server-Hidden,
  map_fields_twice, bind-eq-some, llm-Hidden,
}

-- `f` on the AWS access key id alone: it names the key and does not unlock it.
unfoldable pub map_access_key : (String → Option String) → Json → Option Json
unfolding map_keys
map_access_key f =
    try_dict (try_fields (try_at "aws" (try_dict (map_keys f ("access_key_id" ∷ [])))))

dict-Shows :
    (f a : Fields → Option Fields) (m : Fields → Fields)
    → Shows f a m
    → Shows (try_dict f) (try_dict a) (on_dict m)
dict-Shows f a m h (obj d) w e = let (d', ed, ew) = bind-eq-some obj (f d) w e in rw (ew, h d d' ed)
dict-Shows f a m h _ w e = ground arith

-- What holds at a literal key holds at a key that is equal to it.
at_key {ℓ} : (P : String → Type ℓ) {k literal : String} → str_eq k literal ≡ true → P literal → P k
at_key P q h = subst P (sym ((eq_iff _ _).0 q)) h

module _ (f : String → Option String) where
  aws_mask : String → Json → Json
  aws_mask k v = at "session_token" mask_value k (at "secret_access_key" mask_value k v)

  abbrev AwsField : String → Type 0
  AwsField k =
      Shows (λ v. if contains k aws_keys then map_value f v else some v)
        (λ v. if contains k ("access_key_id" ∷ []) then map_value f v else some v) (aws_mask k)

  AwsField-Shows : (k : String) → AwsField k
  unfolding aws_mask
  AwsField-Shows k = elim (Bool-cases (str_eq k "access_key_id")) [
    | inl q ↦ at_key AwsField q (λ v w e. e)
    | inr q ↦ λ v w e. ground (arith, value-Hidden f v w)
  ]

  aws-Shows : Shows (map_keys f aws_keys) (map_keys f ("access_key_id" ∷ [])) mask_aws
  unfolding map_keys mask_aws aws_mask
  aws-Shows d d' e =
      rw (map_fields_twice _ _ d, map_fields_twice _ _ d')
        (fields-Shows _ _ _ AwsField-Shows d d' e)

  abbrev ConfigField : String → Type 0
  ConfigField k =
      Shows (map_field f k) (try_at "aws" (try_dict (map_keys f ("access_key_id" ∷ []))) k)
        (sanitize_field k)

  field-Shows : (k : String) → ConfigField k
  unfolding map_field sanitize_field
  field-Shows k = elim (Bool-cases (str_eq k "llm")) [
    | inl q ↦ at_key ConfigField q (λ v w e. ap some (dict-Hidden _ _ (llm-Hidden f) v w e))
    | inr llm ↦ elim (Bool-cases (str_eq k "aws")) [
      | inl q ↦ at_key ConfigField q (dict-Shows _ _ _ aws-Shows)
      | inr aws ↦ elim (Bool-cases (str_eq k "server_url")) [
        | inl q ↦
            at_key ConfigField q (λ v w e. ap some (dict-Hidden _ _ (key-Hidden f "secret") v w e))
        | inr url ↦ elim (Bool-cases (str_eq k "tools")) [
          | inl q ↦ at_key ConfigField q (λ v w e.
              ap some (list-Hidden _ _ (dict-Hidden _ _ (key-Hidden f "webhook_secret")) v w e))
          | inr tools ↦ elim (Bool-cases (str_eq k "mcp_servers")) [
            | inl q ↦
                at_key ConfigField q
                  (λ v w e. ap some (list-Hidden _ _ (dict-Hidden _ _ (mcp_server-Hidden f)) v w e))
            | inr servers ↦ λ v w e. ground arith
          ]
        ]
      ]
    ]
  ]

  -- A config whose secrets are rewritten in any way, sealed or replaced, is shown as it was but for
  -- the AWS access key id.
  pub masked_hides :
      (c c' : Json)
      → map_secrets f c ≡ some c'
      → map_access_key f (sanitize_config c) ≡ some (sanitize_config c')
  unfolding map_secrets map_access_key sanitize_config
  masked_hides c c' e =
      dict-Shows (try_fields (map_field f)) _ (map_fields sanitize_field)
        (fields-Shows (map_field f) _ sanitize_field field-Shows) c c' e
