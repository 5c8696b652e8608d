-- ===== src/Archive/Target.antt =====
-- internal/archive/target.go: where an archive lives, and the format it is in.
pub mod Colon
pub mod Location
pub mod Tokens
pub mod Suffix
use pv_migrate.Common.{
  ℕ, ◌++◌, ◌||◌, not, ◌&&◌, Bool, true, false, List, [], ◌∷◌, Bytes, codes, if◌then◌else◌, is_empty,
  Option, some, none, Result, ok, err, ◌>>=◌, map, has_suffix, cut_prefix, cut, contains, ◌==◌,
}
use pv_migrate.Archive.{compression_none, compression_zstd, compression_gzip}

-- `Target`
pub record Target : Type 0 where
  pub claim : Bytes
  pub bucket : Bytes
  pub path : Bytes
  pub compression : Bytes

-- The errors of `ParseTarget`.
pub data TargetError : Type 0 where
  empty_value : TargetError
  lone_percent : TargetError
  unknown_token : ℕ → TargetError
  needs_bucket_and_path : TargetError
  empty_claim : TargetError
  no_path : TargetError
  unknown_extension : Bytes → TargetError

-- `InCluster`
unfoldable pub in_cluster : Target → Bool
in_cluster t = not (is_empty t.claim)

-- `InBucket`
unfoldable pub in_bucket : Target → Bool
in_bucket t = not (is_empty t.bucket)

abbrev pub s3_scheme : Bytes
s3_scheme = codes "s3://"

abbrev pub suffixes : List (Bytes × Bytes)
suffixes =
    (codes ".tar.zst", compression_zstd)
    ∷ (codes ".tzst", compression_zstd)
    ∷ (codes ".tar.gz", compression_gzip)
    ∷ (codes ".tgz", compression_gzip)
    ∷ (codes ".tar", compression_none)
    ∷ []

-- `Extensions`
abbrev pub extensions : List Bytes
extensions = map (λ candidate. candidate.0) suffixes

-- The loop of `compressionFromPath`
unfoldable pub first_suffix : List (Bytes × Bytes) → Bytes → Option Bytes
unfolding has_suffix
first_suffix [] path = none
first_suffix ((ext, compression) ∷ candidates) path =
    if has_suffix path ext then some compression else first_suffix candidates path

-- `compressionFromPath`
unfoldable pub compression_from_path : Bytes → Result TargetError Bytes
unfolding first_suffix
compression_from_path path = elim (first_suffix suffixes path) [
  | some compression ↦ ok compression
  | none ↦ err (unknown_extension path)
]

-- `timeTokens`: the layout of a token.
unfoldable pub time_tokens : ℕ → Option Bytes
time_tokens c =
    if c == b'Y'
    then some (codes "2006")
    else if c == b'm'
    then some (codes "01")
    else if c == b'd'
    then some (codes "02")
    else if c == b'H'
    then some (codes "15")
    else if c == b'M'
    then some (codes "04")
    else if c == b'S'
    then some (codes "05")
    else none

-- A text before a result.
abbrev pub after : Bytes → Result TargetError Bytes → Result TargetError Bytes
after s rest = do t ← rest; ok (s ++ t)

-- The bytes of a token, with `now.Format` as a parameter.
unfoldable pub token_text : (Bytes → Bytes) → ℕ → Result TargetError Bytes
unfolding time_tokens
token_text format c =
    if c == b'%'
    then ok (codes "%")
    else elim (time_tokens c) [ some layout ↦ ok (format layout) | none ↦ err (unknown_token c) ]

-- `expandTime`
unfoldable pub expand_time : (Bytes → Bytes) → Bytes → Result TargetError Bytes
unfolding token_text
expand_time format [] = ok []
expand_time format (c ∷ []) = if c == b'%' then err lone_percent else ok (c ∷ [])
expand_time format (c ∷ d ∷ s) =
    let plain = expand_time format (d ∷ s) in
    let rest = expand_time format s in
    if c == b'%' then (do t ← token_text format d; after t rest) else after (c ∷ []) plain

-- The bucket form of `splitLocation`, after the scheme.
unfoldable pub split_bucket : Bytes → Result TargetError Target
unfolding cut
split_bucket rest = elim (cut rest (codes "/")) [
  | none ↦ err needs_bucket_and_path
  | some (bucket, key) ↦
      (if is_empty bucket || is_empty key
        then err needs_bucket_and_path
        else ok (record { claim = []; bucket = bucket; path = key; compression = [] }))
]

abbrev pub bare : Bytes → Target
bare value = record { claim = []; bucket = []; path = value; compression = [] }

-- The claim and the bare form of `splitLocation`.
unfoldable pub split_claim : Bytes → Result TargetError Target
unfolding cut contains
split_claim value = elim (cut value (codes ":")) [
  | none ↦ ok (bare value)
  | some (claim, path) ↦
      (if contains claim (codes "/")
        then ok (bare value)
        else if is_empty claim
        then err empty_claim
        else ok (record { claim = claim; bucket = []; path = path; compression = [] }))
]

-- `splitLocation`
unfoldable pub split_location : Bytes → Result TargetError Target
unfolding cut_prefix split_bucket split_claim
split_location value = elim (cut_prefix value s3_scheme) [
  | some rest ↦ split_bucket rest
  | none ↦ split_claim value
]

abbrev pub with_format : Target → Bytes → Target
with_format t c = record { claim = t.claim; bucket = t.bucket; path = t.path; compression = c }

-- The last steps of `ParseTarget`, on a target that was split.
unfoldable pub with_compression : Target → Result TargetError Target
unfolding compression_from_path
with_compression t =
    if is_empty t.path
    then err no_path
    else (do compression ← compression_from_path t.path; ok (with_format t compression))

-- `ParseTarget`, with `now.Format` as a parameter.
unfoldable pub parse_target : (Bytes → Bytes) → Bytes → Result TargetError Target
unfolding expand_time split_location with_compression
parse_target format value = if is_empty value then err empty_value else (do
  expanded ← expand_time format value
  target ← split_location expanded
  with_compression target)
