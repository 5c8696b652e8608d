-- ===== src/Archive/Target/Location.antt =====
-- Where an archive lives: the parts of a target, put together again.
use pv_migrate.Archive.Target.Colon.{names_claim}
use pv_migrate.Common.{
  ◌++◌, ◌&&◌, false, [], ◌∷◌, ◌≡◌, Bytes, codes, contains, has_prefix, if◌then◌else◌, ◌>>=◌, not,
}
use pv_migrate.Archive.Target.{Target, s3_scheme, in_bucket, in_cluster}

-- A location as it is written.
abbrev pub location : Target → Bytes
location t =
    if in_bucket t
    then s3_scheme ++ (t.bucket ++ (b'/' ∷ t.path))
    else if in_cluster t
    then t.claim ++ (b':' ∷ t.path)
    else t.path

-- A target names a bucket exactly if its location has the scheme, and a claim exactly if the location
-- has no scheme and comes to a colon before any slash. Neither the claim nor the bucket holds what ends it.
pub record IsPlaced (t : Target) : Type 0 where
  pub bucket_scheme : in_bucket t ≡ has_prefix (location t) s3_scheme
  pub claim_named : in_cluster t ≡ not (in_bucket t) && names_claim (location t)
  pub one_place : (in_bucket t && in_cluster t) ≡ false
  pub claim_colon : contains t.claim (codes ":") ≡ false
  pub claim_slash : contains t.claim (codes "/") ≡ false
  pub bucket_slash : contains t.bucket (codes "/") ≡ false

abbrev Reads : Bytes → Target → Type 0
Reads s t = (location t ≡ s) × IsPlaced t

in_a_bucket : Bytes → Bytes → Target
in_a_bucket b k = record { claim = []; bucket = b; path = k; compression = [] }

on_a_claim : Bytes → Bytes → Target
on_a_claim c p = record { claim = c; bucket = []; path = p; compression = [] }
