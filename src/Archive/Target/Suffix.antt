-- ===== src/Archive/Target/Suffix.antt =====
-- The extension of an archive's name.
use pv_migrate.Common.{
  ℕ, ◌++◌, true, false, [], ◌∷◌, ◌≡◌, ◌≢◌, refl, arith, Bytes, codes, ok, has_suffix, str_eq,
  str_eq_refl, str_eq_sound, Bool-cases, inl, inr,
}
use pv_migrate.Archive.{extension, compression_none, compression_zstd, compression_gzip}
use pv_migrate.Archive.Target.{compression_from_path, first_suffix}

abbrev last_byte : ℕ → Bytes → ℕ
last_byte d [] = d
last_byte d (c ∷ s) = last_byte c s

last_byte-append :
    (d : ℕ) (p : Bytes) (c : ℕ) (s : Bytes) → last_byte d (p ++ c ∷ s) ≡ last_byte c s
last_byte-append d [] c s = refl
last_byte-append d (b ∷ p) c s = last_byte-append b p c s

has_suffix-last_byte :
    (d : ℕ) (s : Bytes) (c : ℕ) (p : Bytes)
    → has_suffix s (c ∷ p) ≡ true
    → last_byte d s ≡ last_byte c p
unfolding has_suffix str_eq
has_suffix-last_byte d [] c p h = cc
has_suffix-last_byte d (b ∷ s) c p h = elim (Bool-cases (str_eq (b ∷ s) (c ∷ p))) [
  | inl e ↦ ground (arith, str_eq_sound (b ∷ s) (c ∷ p) e)
  | inr e ↦ ground (arith, has_suffix-last_byte b s c p)
]

has_suffix-other :
    (s : Bytes) (b : ℕ) (q : Bytes) (c : ℕ) (p : Bytes)
    → last_byte b q ≢ last_byte c p
    → has_suffix (s ++ b ∷ q) (c ∷ p) ≡ false
has_suffix-other s b q c p h =
    ground (arith, last_byte-append 0 s b q, has_suffix-last_byte 0 (s ++ b ∷ q) c p)

has_suffix-append : (s p : Bytes) → has_suffix (s ++ p) p ≡ true
unfolding has_suffix
has_suffix-append [] [] = unfold str_eq in refl
has_suffix-append [] (c ∷ p) = ground (arith, str_eq_refl (c ∷ p))
has_suffix-append (b ∷ s) p = ground (arith, has_suffix-append s p)

none_lem : (s : Bytes) → compression_from_path (s ++ codes ".tar") ≡ ok compression_none
unfolding compression_from_path first_suffix
none_lem s =
    let other = has_suffix-other s b'.' (codes "tar") in
    let zst = other b'.' (codes "tar.zst") (ground arith) in
    let tzst = other b'.' (codes "tzst") (ground arith) in
    let gz = other b'.' (codes "tar.gz") (ground arith) in
    let tgz = other b'.' (codes "tgz") (ground arith) in
    ground (arith, has_suffix-append s (codes ".tar"))

zstd_lem : (s : Bytes) → compression_from_path (s ++ codes ".tar.zst") ≡ ok compression_zstd
unfolding compression_from_path first_suffix
zstd_lem s = ground (arith, has_suffix-append s (codes ".tar.zst"))

gzip_lem : (s : Bytes) → compression_from_path (s ++ codes ".tar.gz") ≡ ok compression_gzip
unfolding compression_from_path first_suffix
gzip_lem s =
    let other = has_suffix-other s b'.' (codes "tar.gz") in
    let zst = other b'.' (codes "tar.zst") (ground arith) in
    let tzst = other b'.' (codes "tzst") (ground arith) in
    ground (arith, has_suffix-append s (codes ".tar.gz"))

-- A name that ends in a compression's own extension is read back as that compression.
pub compression_from_path-extension :
    (s compression ext : Bytes)
    → extension compression ≡ ok ext
    → compression_from_path (s ++ ext) ≡ ok compression
unfolding extension
compression_from_path-extension s compression ext h =
    let if_none = str_eq_sound compression compression_none in
    let if_zstd = str_eq_sound compression compression_zstd in
    let if_gzip = str_eq_sound compression compression_gzip in
    elim (Bool-cases (str_eq compression compression_none)) [
      | inl e ↦ ground (arith, none_lem s)
      | inr e ↦ elim (Bool-cases (str_eq compression compression_zstd)) [
        | inl e₁ ↦ ground (arith, zstd_lem s)
        | inr e₁ ↦ ground (arith, gzip_lem s)
      ]
    ]
