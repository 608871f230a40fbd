-- ===== src/Sealing/Examples.antt =====
-- Documents written and read under concrete keys, with a cipher that puts the key before the value.
use turncall.Prelude.{String, true, ◌≡◌, refl, none, some, str_append}
use turncall.Json.{Json, text, obj, end, field, ◌>>=◌, after, try_fields}
use turncall.Secrets.Mapped.{map_secrets}
use turncall.Sealing.{Fernet, agent_config, fernet, walk, process_bind_param, process_result_value}
use turncall.Sealing.Values.{after-append}
use turncall.Sealing.RoundTrip.{unsealed, no_secret, reads_back, no_key_no_write}

abbrev plain_cipher : Fernet
plain_cipher = record {
  is_key = λ _. true;
  encrypt = λ key value. str_append key value;
  decrypt = λ key token. after key token;
  decrypt_encrypt = λ key value. after-append key value;
}

abbrev config_with : String → Json
config_with s =
    obj (field "llm" (obj (field "api_key" (text s) end)) (field "name" (text "desk") end))

sealed_config :
    process_bind_param plain_cipher "k1" agent_config (config_with "a")
    ≡ some (config_with "tcs1:k1a")
unfolding process_bind_param map_secrets try_fields after
sealed_config = refl

-- A user's secret that only looks sealed is sealed like any other, and read back.
reads_back_example :
    (process_bind_param plain_cipher "k1" agent_config (config_with "tcs1:zz")
      >>= process_result_value plain_cipher "k1" agent_config)
    ≡ some (config_with "tcs1:zz")
unfolding walk map_secrets unsealed try_fields after fernet
reads_back_example = reads_back plain_cipher "k1" agent_config (config_with "tcs1:zz") refl refl

no_key_no_write_example :
    (config_with "" ≡ config_with "")
    × (walk agent_config no_secret (config_with "") ≡ some (config_with ""))
unfolding process_bind_param map_secrets try_fields fernet
no_key_no_write_example =
    no_key_no_write plain_cipher "" agent_config (config_with "") (config_with "") refl refl

-- With a secret and no key nothing is written.
refused : process_bind_param plain_cipher "" agent_config (config_with "a") ≡ none
unfolding process_bind_param map_secrets try_fields after
refused = refl
