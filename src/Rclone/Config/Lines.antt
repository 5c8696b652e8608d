-- ===== src/Rclone/Config/Lines.antt =====
-- The lines of a generated rclone.conf.
use pv_migrate.Common.{
  ◌++◌, ◌&&◌, ◌||◌, not, Bool, true, false, List, [], ◌∷◌, ◌≡◌, refl, sym, ap, ◌∙◌, arith, Bytes,
  codes, if◌then◌else◌, is_empty, ok, ◌==◌, split_byte, Bool-cases, inl, inr, append_assoc,
  >>=-eq-ok, ok-injective, append-nil,
}
use pv_migrate.Rclone.Config.{
  ConfigOptions, contains_break, validate_config_value, validate_fields, line, entry_unless_empty,
  provider_or_default, s3_keys, generate_s3_config,
}

abbrev pub is_one_line : Bytes → Bool
is_one_line [] = true
is_one_line (c ∷ s) = not (c == 10) && is_one_line s

pub is_one_line-append :
    (s t : Bytes) → is_one_line s ≡ true → is_one_line t ≡ true → is_one_line (s ++ t) ≡ true
is_one_line-append [] t h h' = h'
is_one_line-append (c ∷ s) t h h' = ground (arith, is_one_line-append s t)

contains_break-is_one_line : (s : Bytes) → contains_break s ≡ false → is_one_line s ≡ true
unfolding contains_break
contains_break-is_one_line [] h = refl
contains_break-is_one_line (c ∷ s) h = ground (arith, contains_break-is_one_line s)

pub split_byte-line :
    (s rest : Bytes)
    → is_one_line s ≡ true
    → split_byte 10 (line s ++ rest) ≡ s ∷ split_byte 10 rest
unfolding split_byte
split_byte-line [] rest h = refl
split_byte-line (c ∷ s) rest h = ground (arith, split_byte-line s rest)

-- An accepted value is one line.
validate_config_value-ok :
    (name value : Bytes) → validate_config_value name value ≡ ok tt → is_one_line value ≡ true
unfolding validate_config_value
validate_config_value-ok name [] h = refl
validate_config_value-ok name (c ∷ s) h = ground (arith, contains_break-is_one_line (c ∷ s))

abbrev pub entry_lines : Bytes → Bytes → List Bytes
entry_lines key value = if is_empty value then [] else (key ++ value) ∷ []

pub split_byte-entry :
    (key value rest : Bytes)
    → is_one_line key ≡ true
    → is_one_line value ≡ true
    → split_byte 10 (entry_unless_empty key value ++ rest)
      ≡ entry_lines key value ++ split_byte 10 rest
split_byte-entry key [] rest k v = refl
split_byte-entry key (c ∷ s) rest k v =
    split_byte-line (key ++ (c ∷ s)) rest (is_one_line-append key (c ∷ s) k v)

-- Each of the named values is one line.
abbrev pub AllOneLine : List (Bytes × Bytes) → Type 0
AllOneLine [] = Unit {0}
AllOneLine (f ∷ fs) = (is_one_line f.1 ≡ true) × AllOneLine fs

pub validate_fields-ok : (fs : List (Bytes × Bytes)) → validate_fields fs ≡ ok tt → AllOneLine fs
unfolding validate_fields
validate_fields-ok [] h = tt
validate_fields-ok ((name, value) ∷ fs) h =
    let (u, f, h₁) = >>=-eq-ok (validate_config_value name value) _ h in
    (validate_config_value-ok name value f, validate_fields-ok fs h₁)

abbrev pub key_lines : Bytes → Bytes → List Bytes
key_lines access_key secret_key =
    if is_empty access_key
    then codes "env_auth = true" ∷ []
    else (codes "access_key_id = " ++ access_key)
      ∷ (codes "secret_access_key = " ++ secret_key)
      ∷ []

abbrev pub is_half : Bytes → Bytes → Bool
is_half access_key secret_key =
    (is_empty access_key && not (is_empty secret_key))
    || (not (is_empty access_key) && is_empty secret_key)

s3_keys-ok :
    (a k s rest : Bytes)
    → is_one_line a ≡ true
    → is_one_line k ≡ true
    → s3_keys a k ≡ ok s
    → (split_byte 10 (s ++ rest) ≡ key_lines a k ++ split_byte 10 rest) × (is_half a k ≡ false)
unfolding s3_keys
s3_keys-ok [] [] s rest ha hk h = (
  ap (λ x. split_byte 10 (x ++ rest)) (sym (ok-injective h))
      ∙ split_byte-line (codes "env_auth = true") rest refl,
  refl,
)
s3_keys-ok [] (c ∷ k) s rest ha hk h = cc
s3_keys-ok (c ∷ a) [] s rest ha hk h = cc
s3_keys-ok (c ∷ a) (d ∷ k) s rest ha hk h =
    let access = codes "access_key_id = " ++ (c ∷ a) in
    let secret = codes "secret_access_key = " ++ (d ∷ k) in
    (
      ap (λ x. split_byte 10 (x ++ rest)) (sym (ok-injective h))
          ∙ ap (split_byte 10) (append_assoc (line access) (line secret) rest)
          ∙ split_byte-line access (line secret ++ rest)
              (is_one_line-append (codes "access_key_id = ") (c ∷ a) refl ha)
          ∙ ap (λ ls. access ∷ ls)
              (split_byte-line secret rest
                (is_one_line-append (codes "secret_access_key = ") (d ∷ k) refl hk)),
      refl,
    )

abbrev pub s3_lines : ConfigOptions → List Bytes
s3_lines o =
    codes "[remote]"
    ∷ codes "type = s3"
    ∷ (codes "provider = " ++ provider_or_default o)
    ∷ (entry_lines (codes "endpoint = ") o.endpoint
        ++ (entry_lines (codes "region = ") o.region
            ++ (key_lines o.access_key o.secret_key ++ codes "no_check_bucket = true" ∷ [] ∷ [])))

pub last_line : (s : Bytes) → is_one_line s ≡ true → split_byte 10 (line s) ≡ s ∷ [] ∷ []
last_line s h =
    ap (split_byte 10) (sym (append-nil (line s)))
    ∙ split_byte-line s [] h
    ∙ (unfold split_byte in refl)

provider-is_one_line :
    (o : ConfigOptions)
    → is_one_line o.provider ≡ true
    → is_one_line (codes "provider = " ++ provider_or_default o) ≡ true
provider-is_one_line o h = elim (Bool-cases (is_empty o.provider)) [
  | inl e ↦ ground arith
  | inr e ↦ ground (arith, is_one_line-append (codes "provider = ") o.provider refl h)
]

pub generate_s3_config-ok :
    (o : ConfigOptions) (s : Bytes)
    → is_one_line o.provider ≡ true
    → is_one_line o.endpoint ≡ true
    → is_one_line o.region ≡ true
    → is_one_line o.access_key ≡ true
    → is_one_line o.secret_key ≡ true
    → generate_s3_config o ≡ ok s
    → (split_byte 10 s ≡ s3_lines o) × (is_half o.access_key o.secret_key ≡ false)
unfolding generate_s3_config
generate_s3_config-ok o s hp he hr ha hk h =
    let (keys, made, h₁) = >>=-eq-ok (s3_keys o.access_key o.secret_key) _ h in
    let end = line (codes "no_check_bucket = true") in
    let (two, whole) = s3_keys-ok o.access_key o.secret_key keys end ha hk made in
    (
      ap (split_byte 10) (sym (ok-injective h₁))
          ∙ split_byte-line (codes "[remote]") _ refl
          ∙ ap (λ ls. codes "[remote]" ∷ ls)
              (split_byte-line (codes "type = s3") _ refl
                ∙ ap (λ ls. codes "type = s3" ∷ ls)
                    (split_byte-line (codes "provider = " ++ provider_or_default o) _
                        (provider-is_one_line o hp)
                      ∙ ap (λ ls. (codes "provider = " ++ provider_or_default o) ∷ ls)
                          (split_byte-entry (codes "endpoint = ") o.endpoint _ refl he
                            ∙ ap (λ ls. entry_lines (codes "endpoint = ") o.endpoint ++ ls)
                                (split_byte-entry (codes "region = ") o.region _ refl hr
                                  ∙ ap (λ ls. entry_lines (codes "region = ") o.region ++ ls)
                                      (two
                                        ∙ ap (λ ls. key_lines o.access_key o.secret_key ++ ls)
                                            (last_line (codes "no_check_bucket = true") refl)))))),
      whole,
    )
