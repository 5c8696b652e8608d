-- ===== src/Archive/Levels.antt =====
-- Which compressions and levels of internal/archive/cmd.go are accepted.
use pv_migrate.Common.{
  ◌||◌, ◌&&◌, Bool, true, false, Bytes, str_eq, str_eq_sound, str_eq_refl, ok, ℤ, pos, negsuc, ◌≡◌,
  ◌↔◌, arith, leb, refl, Bool-cases, inl, inr, ◌==◌,
}
use pv_migrate.Archive.{
  compression_none, compression_zstd, compression_gzip, check_level_range, compress_program,
  check_level,
}

-- The levels of each compression: none takes only 0, and 0 stands for the default of the others.
abbrev pub takes_level : Bytes → ℤ → Bool
takes_level compression (negsuc n) = false
takes_level compression (pos n) =
    (str_eq compression compression_none && n == 0)
    || ((str_eq compression compression_zstd && leb n 19)
        || (str_eq compression compression_gzip && leb n 9))

exclusive : (c a b : Bytes) → str_eq a b ≡ false → str_eq c a && str_eq c b ≡ false
exclusive c a b h = elim (Bool-cases (str_eq c a)) [
  | inl e ↦ rw (str_eq_sound c a e) (rw (str_eq_refl a) h)
  | inr e ↦ rw e refl
]

-- The acceptance, once the three comparisons of the compression's name are known.
level_lem :
    (compression : Bytes) (level : ℤ)
    → str_eq compression compression_none && str_eq compression compression_zstd ≡ false
    → str_eq compression compression_none && str_eq compression compression_gzip ≡ false
    → str_eq compression compression_zstd && str_eq compression compression_gzip ≡ false
    → (check_level compression level ≡ ok tt) ↔ (takes_level compression level ≡ true)
unfolding check_level compress_program check_level_range
level_lem compression (pos n) nz ng zg = (λ h. ground arith, λ h. ground arith)
level_lem compression (negsuc n) nz ng zg = (λ h. ground arith, λ h. ground arith)

-- A level is accepted exactly if the compression is one of the three and takes it.
pub check_level-ok :
    (compression : Bytes) (level : ℤ)
    → (check_level compression level ≡ ok tt) ↔ (takes_level compression level ≡ true)
unfolding str_eq
check_level-ok compression level =
    let nz = exclusive compression compression_none compression_zstd refl in
    let ng = exclusive compression compression_none compression_gzip refl in
    let zg = exclusive compression compression_zstd compression_gzip refl in
    level_lem compression level nz ng zg
