-- ===== src/Rclone/Config/Backends.antt =====
-- The lines of a generated rclone.conf, for each backend.
use pv_migrate.Common.{
  ◌++◌, ◌&&◌, Bool, true, false, List, [], ◌∷◌, ◌≡◌, refl, sym, ap, ◌∙◌, arith, Bytes, codes,
  str_eq, if◌then◌else◌, is_empty, Result, ok, err, split_byte, Bool-cases, inl, inr, >>=-eq-ok,
  ok-injective, map_err, map_err-eq-ok, subst,
}
use pv_migrate.Rclone.Config.{
  ConfigOptions, validate, written_fields, line, generate_azure_config, writes_policy,
  gcs_credentials, generate_gcs_config, generate_for, generate_config, bad_json, backend_s3,
  backend_azure, backend_gcs, s3_fields, azure_fields,
}
use pv_migrate.Rclone.Config.Lines.{
  is_one_line, is_one_line-append, split_byte-line, split_byte-entry, AllOneLine,
  validate_fields-ok, last_line, entry_lines, is_half, s3_lines, generate_s3_config-ok,
}

abbrev pub azure_lines : ConfigOptions → List Bytes
azure_lines o =
    codes "[remote]"
    ∷ codes "type = azureblob"
    ∷ (entry_lines (codes "account = ") o.storage_account
        ++ (if is_empty o.storage_key
            then codes "env_auth = true"
            else codes "key = " ++ o.storage_key)
          ∷ []
          ∷ [])

azure_key :
    (key : Bytes)
    → is_one_line key ≡ true
    → split_byte 10
        (if is_empty key then line (codes "env_auth = true") else line (codes "key = " ++ key))
      ≡ (if is_empty key then codes "env_auth = true" else codes "key = " ++ key) ∷ [] ∷ []
azure_key [] h = last_line (codes "env_auth = true") refl
azure_key (c ∷ s) h =
    last_line (codes "key = " ++ (c ∷ s)) (is_one_line-append (codes "key = ") (c ∷ s) refl h)

generate_azure_config-lines :
    (o : ConfigOptions)
    → is_one_line o.storage_account ≡ true
    → is_one_line o.storage_key ≡ true
    → split_byte 10 (generate_azure_config o) ≡ azure_lines o
unfolding generate_azure_config
generate_azure_config-lines o ha hk =
    split_byte-line (codes "[remote]") _ refl
    ∙ ap (λ ls. codes "[remote]" ∷ ls)
        (split_byte-line (codes "type = azureblob") _ refl
          ∙ ap (λ ls. codes "type = azureblob" ∷ ls)
              (split_byte-entry (codes "account = ") o.storage_account _ refl ha
                ∙ ap (λ ls. entry_lines (codes "account = ") o.storage_account ++ ls)
                    (azure_key o.storage_key hk)))

-- The line of the credentials, with the compacted text.
abbrev pub credentials_line : (Bytes → Result Bytes Bytes) → Bytes → Bytes
credentials_line compact credentials =
    if is_empty credentials then codes "env_auth = true" else elim (compact credentials) [
      | ok compacted ↦ codes "service_account_credentials = " ++ compacted
      | err e ↦ []
    ]

abbrev pub gcs_lines : (Bytes → Result Bytes Bytes) → ConfigOptions → List Bytes
gcs_lines compact o =
    codes "[remote]"
    ∷ codes "type = google cloud storage"
    ∷ ((if writes_policy o.gcs_bucket_policy_only
          then codes "bucket_policy_only = true" ∷ []
          else [])
        ++ credentials_line compact o.gcs_service_account_json ∷ [] ∷ [])

-- The lines that a configuration has, by its backend.
abbrev pub config_lines : (Bytes → Result Bytes Bytes) → ConfigOptions → List Bytes
config_lines compact o =
    if str_eq o.backend backend_s3
    then s3_lines o
    else if str_eq o.backend backend_azure
    then azure_lines o
    else gcs_lines compact o

abbrev pub has_half_pair : ConfigOptions → Bool
has_half_pair o = str_eq o.backend backend_s3 && is_half o.access_key o.secret_key

policy_line :
    (b : Bool) (rest : Bytes)
    → split_byte 10 ((if b then line (codes "bucket_policy_only = true") else []) ++ rest)
      ≡ (if b then codes "bucket_policy_only = true" ∷ [] else []) ++ split_byte 10 rest
policy_line true rest = split_byte-line (codes "bucket_policy_only = true") rest refl
policy_line false rest = refl

s3_values :
    (o : ConfigOptions)
    → str_eq o.backend backend_s3 ≡ true
    → AllOneLine (written_fields o)
    → (is_one_line o.provider ≡ true)
      × (is_one_line o.endpoint ≡ true)
      × (is_one_line o.region ≡ true)
      × (is_one_line o.access_key ≡ true)
      × (is_one_line o.secret_key ≡ true)
unfolding written_fields
s3_values o e fields =
    let same : written_fields o ≡ s3_fields o = ground arith in
    let (hp, (he, (hr, (ha, (hk, done))))) = subst AllOneLine same fields in (hp, he, hr, ha, hk)

azure_values :
    (o : ConfigOptions)
    → str_eq o.backend backend_s3 ≡ false
    → str_eq o.backend backend_azure ≡ true
    → AllOneLine (written_fields o)
    → (is_one_line o.storage_account ≡ true) × (is_one_line o.storage_key ≡ true)
unfolding written_fields
azure_values o e e₁ fields =
    let same : written_fields o ≡ azure_fields o = ground arith in
    let (ha, (hk, done)) = subst AllOneLine same fields in (ha, hk)

module _ (compact : Bytes → Result Bytes Bytes)
    (compact-IsOneLine : (json s : Bytes) → compact json ≡ ok s → is_one_line s ≡ true) where
  gcs_credentials-ok :
      (json s : Bytes)
      → gcs_credentials compact json ≡ ok s
      → split_byte 10 s ≡ credentials_line compact json ∷ [] ∷ []
  unfolding gcs_credentials
  gcs_credentials-ok [] s h =
      ap (split_byte 10) (sym (ok-injective h)) ∙ last_line (codes "env_auth = true") refl
  gcs_credentials-ok (c ∷ json) s h =
      let (text, made, h₁) = >>=-eq-ok (map_err bad_json (compact (c ∷ json))) _ h in
      let compacted = map_err-eq-ok bad_json (compact (c ∷ json)) made in
      let entry = codes "service_account_credentials = " ++ text in
      ap (split_byte 10) (sym (ok-injective h₁))
      ∙ last_line entry (
          is_one_line-append (codes "service_account_credentials = ") text refl
            (compact-IsOneLine (c ∷ json) text compacted))
      ∙ ap
          (λ r.
            elim r [ ok x ↦ codes "service_account_credentials = " ++ x | err e ↦ [] ] ∷ [] ∷ [])
          (sym compacted)

  generate_gcs_config-ok :
      (o : ConfigOptions) (s : Bytes)
      → generate_gcs_config compact o ≡ ok s
      → split_byte 10 s ≡ gcs_lines compact o
  unfolding generate_gcs_config
  generate_gcs_config-ok o s h =
      let (credentials, made, h₁) =
        >>=-eq-ok (gcs_credentials compact o.gcs_service_account_json) _ h in
      ap (split_byte 10) (sym (ok-injective h₁))
      ∙ split_byte-line (codes "[remote]") _ refl
      ∙ ap (λ ls. codes "[remote]" ∷ ls)
          (split_byte-line (codes "type = google cloud storage") _ refl
            ∙ ap (λ ls. codes "type = google cloud storage" ∷ ls)
                (policy_line (writes_policy o.gcs_bucket_policy_only) credentials
                  ∙ ap
                      (λ ls.
                        (if writes_policy o.gcs_bucket_policy_only
                          then codes "bucket_policy_only = true" ∷ []
                          else [])
                        ++ ls)
                      (gcs_credentials-ok o.gcs_service_account_json credentials made)))

  by_backend :
      (o : ConfigOptions) (s : Bytes)
      → AllOneLine (written_fields o)
      → generate_for compact o ≡ ok s
      → (split_byte 10 s ≡ config_lines compact o) × (has_half_pair o ≡ false)
  unfolding generate_for
  by_backend o s fields made = elim (Bool-cases (str_eq o.backend backend_s3)) [
    | inl e ↦
        let (hp, he, hr, ha, hk) = s3_values o e fields in
        let (whole, pair) = generate_s3_config-ok o s hp he hr ha hk (ground arith) in ground arith
    | inr e ↦ elim (Bool-cases (str_eq o.backend backend_azure)) [
      | inl e₁ ↦
          let (ha, hk) = azure_values o e e₁ fields in
          let whole = generate_azure_config-lines o ha hk in ground arith
      | inr e₁ ↦ elim (Bool-cases (str_eq o.backend backend_gcs)) [
        | inl e₂ ↦ let whole = generate_gcs_config-ok o s (ground arith) in ground arith
        | inr e₂ ↦ ground arith
      ]
    ]
  ]

  -- If the compacted JSON is one line, then a configuration that is generated has exactly the lines of its
  -- backend and its options: no value adds a line of its own, and no key pair is half given.
  pub generate_config-lines :
      (o : ConfigOptions) (s : Bytes)
      → generate_config compact o ≡ ok s
      → (split_byte 10 s ≡ config_lines compact o) × (has_half_pair o ≡ false)
  unfolding generate_config validate
  generate_config-lines o s h =
      let (u, valid, made) = >>=-eq-ok (validate o) _ h in
      by_backend o s (validate_fields-ok (written_fields o) valid) made
