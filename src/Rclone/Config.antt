-- ===== src/Rclone/Config.antt =====
-- internal/rclone/config.go: the rclone.conf that is generated from the flags.
pub mod Lines
pub mod Backends
use pv_migrate.Common.{
  ℕ, ◌++◌, ◌||◌, ◌&&◌, not, Bool, true, false, List, [], ◌∷◌, Bytes, codes, str_eq, if◌then◌else◌,
  is_empty, Option, some, none, Result, ok, err, ◌>>=◌, ◌>>◌, map_err, ◌==◌, trim_space,
}

-- `ConfigOptions`
pub record ConfigOptions : Type 0 where
  pub backend : Bytes
  pub provider : Bytes
  pub endpoint : Bytes
  pub region : Bytes
  pub access_key : Bytes
  pub secret_key : Bytes
  pub storage_account : Bytes
  pub storage_key : Bytes
  pub gcs_service_account_json : Bytes
  pub gcs_bucket_policy_only : Option Bool

-- The errors of `GenerateConfig`; a value's with the name of its flag.
pub data ConfigError : Type 0 where
  empty_backend half_key_pair : ConfigError
  unsupported_backend : Bytes → ConfigError
  line_break : Bytes → ConfigError
  outer_space : Bytes → ConfigError
  bad_json : Bytes → ConfigError

abbrev pub backend_s3 : Bytes
backend_s3 = codes "s3"

abbrev pub backend_azure : Bytes
backend_azure = codes "azure"

abbrev pub backend_gcs : Bytes
backend_gcs = codes "gcs"

-- The fields of `writtenFields`, for S3 and for Azure.
abbrev pub s3_fields : ConfigOptions → List (Bytes × Bytes)
s3_fields o =
    (codes "s3-provider", o.provider)
    ∷ (codes "endpoint", o.endpoint)
    ∷ (codes "region", o.region)
    ∷ (codes "access-key", o.access_key)
    ∷ (codes "secret-key", o.secret_key)
    ∷ []

abbrev pub azure_fields : ConfigOptions → List (Bytes × Bytes)
azure_fields o =
    (codes "storage-account", o.storage_account) ∷ (codes "storage-key", o.storage_key) ∷ []

-- `writtenFields`
unfoldable pub written_fields : ConfigOptions → List (Bytes × Bytes)
unfolding str_eq
written_fields o =
    if str_eq o.backend backend_s3
    then s3_fields o
    else if str_eq o.backend backend_azure
    then azure_fields o
    else []

-- `strings.ContainsAny` for a carriage return, a line feed and a zero byte.
unfoldable pub contains_break : Bytes → Bool
contains_break [] = false
contains_break (c ∷ s) = (c == 13 || (c == 10 || c == 0)) || contains_break s

-- `validateConfigValue`
unfoldable pub validate_config_value : Bytes → Bytes → Result ConfigError (Unit {0})
unfolding contains_break trim_space str_eq
validate_config_value name value =
    if is_empty value
    then ok tt
    else if contains_break value
    then err (line_break name)
    else if not (str_eq (trim_space value) value)
    then err (outer_space name)
    else ok tt

-- The loop of `validate`
unfoldable pub validate_fields : List (Bytes × Bytes) → Result ConfigError (Unit {0})
unfolding validate_config_value
validate_fields [] = ok tt
validate_fields ((name, value) ∷ fields) = do
  validate_config_value name value
  validate_fields fields

-- `validate`
unfoldable pub validate : ConfigOptions → Result ConfigError (Unit {0})
unfolding validate_fields written_fields
validate o = validate_fields (written_fields o)

-- A line that is written to the builder.
abbrev pub line : Bytes → Bytes
line s = s ++ (10 ∷ [])

-- An entry that is written unless its value is empty.
abbrev pub entry_unless_empty : Bytes → Bytes → Bytes
entry_unless_empty key value = if is_empty value then [] else line (key ++ value)

abbrev pub provider_or_default : ConfigOptions → Bytes
provider_or_default o = if is_empty o.provider then codes "Other" else o.provider

-- The switch of `generateS3Config` over the two keys.
unfoldable pub s3_keys : Bytes → Bytes → Result ConfigError Bytes
s3_keys access_key secret_key =
    if not (is_empty access_key) && not (is_empty secret_key)
    then ok (
        line (codes "access_key_id = " ++ access_key)
        ++ line (codes "secret_access_key = " ++ secret_key))
    else if not (is_empty access_key) || not (is_empty secret_key)
    then err half_key_pair
    else ok (line (codes "env_auth = true"))

-- `generateS3Config`
unfoldable pub generate_s3_config : ConfigOptions → Result ConfigError Bytes
unfolding s3_keys
generate_s3_config o = do
  keys ← s3_keys o.access_key o.secret_key
  ok (
      line (codes "[remote]")
      ++ (line (codes "type = s3")
          ++ (line (codes "provider = " ++ provider_or_default o)
              ++ (entry_unless_empty (codes "endpoint = ") o.endpoint
                  ++ (entry_unless_empty (codes "region = ") o.region
                      ++ (keys ++ line (codes "no_check_bucket = true")))))))

-- `generateAzureConfig`
unfoldable pub generate_azure_config : ConfigOptions → Bytes
generate_azure_config o =
    line (codes "[remote]")
    ++ (line (codes "type = azureblob")
        ++ (entry_unless_empty (codes "account = ") o.storage_account
            ++ (if is_empty o.storage_key
                then line (codes "env_auth = true")
                else line (codes "key = " ++ o.storage_key))))

-- The bucket policy is written unless it is switched off.
abbrev pub writes_policy : Option Bool → Bool
writes_policy none = true
writes_policy (some b) = b

-- The credentials of `generateGCSConfig`, with `json.Compact` as a parameter.
unfoldable pub gcs_credentials : (Bytes → Result Bytes Bytes) → Bytes → Result ConfigError Bytes
gcs_credentials compact credentials =
    if is_empty credentials then ok (line (codes "env_auth = true")) else (do
      compacted ← map_err bad_json (compact credentials)
      ok (line (codes "service_account_credentials = " ++ compacted)))

-- `generateGCSConfig`
unfoldable pub generate_gcs_config :
    (Bytes → Result Bytes Bytes) → ConfigOptions → Result ConfigError Bytes
unfolding gcs_credentials
generate_gcs_config compact o = do
  credentials ← gcs_credentials compact o.gcs_service_account_json
  ok (
      line (codes "[remote]")
      ++ (line (codes "type = google cloud storage")
          ++ ((if writes_policy o.gcs_bucket_policy_only
                then line (codes "bucket_policy_only = true")
                else [])
              ++ credentials)))

-- The switch of `GenerateConfig` over the backend.
unfoldable pub generate_for :
    (Bytes → Result Bytes Bytes) → ConfigOptions → Result ConfigError Bytes
unfolding str_eq generate_s3_config generate_azure_config generate_gcs_config
generate_for compact o =
    if str_eq o.backend backend_s3
    then generate_s3_config o
    else if str_eq o.backend backend_azure
    then ok (generate_azure_config o)
    else if str_eq o.backend backend_gcs
    then generate_gcs_config compact o
    else if is_empty o.backend
    then err empty_backend
    else err (unsupported_backend o.backend)

-- `GenerateConfig`
unfoldable pub generate_config :
    (Bytes → Result Bytes Bytes) → ConfigOptions → Result ConfigError Bytes
unfolding validate generate_for
generate_config compact o = do validate o; generate_for compact o
