-- ===== src/Archive/Target/Tokens.antt =====
-- The timestamp tokens of an archive's name.
use pv_migrate.Common.{
  ℕ, false, [], ◌∷◌, ◌≡◌, refl, arith, Bytes, codes, ok, ◌==◌, replace_byte, Bool-cases, inl, inr,
}
use pv_migrate.Archive.Target.{expand_time, token_text}

expand_time-plain :
    (format : Bytes → Bytes) (c : ℕ) (s t : Bytes)
    → (c == b'%') ≡ false
    → expand_time format s ≡ ok t
    → expand_time format (c ∷ s) ≡ ok (c ∷ t)
unfolding expand_time
expand_time-plain format c [] t h e = ground arith
expand_time-plain format c (d ∷ s) t h e = ground arith

-- Whatever the clock says, a text in which every percent sign is doubled names itself.
pub expand_time-replace_byte :
    (format : Bytes → Bytes) (s : Bytes)
    → expand_time format (replace_byte b'%' (codes "%%") s) ≡ ok s
unfolding expand_time replace_byte token_text
expand_time-replace_byte format [] = refl
expand_time-replace_byte format (c ∷ s) =
    let rest = expand_time-replace_byte format s in
    elim (Bool-cases (c == b'%')) [
      | inl e ↦ ground arith
      | inr e ↦
          ground (arith, expand_time-plain format c (replace_byte b'%' (codes "%%") s) s e rest)
    ]
