-- ===== src/Archive/Target/Colon.antt =====
-- The claim's name in front of a colon, as the text of a location shows it.
use pv_migrate.Common.{
  ℕ, ◌++◌, Bool, true, false, [], ◌∷◌, ◌≡◌, refl, sym, subst, arith, Bytes, codes, some, none, cut,
  cut_prefix, contains, has_prefix, if◌then◌else◌, Bool-cases, Option-cases, inl, inr, ◌==◌,
}

-- A text that comes to a colon before any slash.
abbrev pub names_claim : Bytes → Bool
names_claim [] = false
names_claim (c ∷ s) = if c == b':' then true else if c == b'/' then false else names_claim s

-- The text before the first separator, and the text behind it.
pub cut_sound :
    (s : Bytes) (c : ℕ) (a b : Bytes)
    → cut s (c ∷ []) ≡ some (a, b)
    → (s ≡ a ++ c ∷ b) × (contains a (c ∷ []) ≡ false)
unfolding cut cut_prefix contains has_prefix
cut_sound [] c a b h = cc
cut_sound (d ∷ s) c a b h = elim (Bool-cases (d == c)) [
  | inl e ↦ ground arith
  | inr e ↦ elim (Option-cases (cut s (c ∷ []))) [
    | inl no_more ↦ ground arith
    | inr ((a', b'), more) ↦ ground (arith, cut_sound s c a' b' more)
  ]
]

pub names_claim-append :
    (c p : Bytes)
    → contains c (codes ":") ≡ false
    → contains c (codes "/") ≡ false
    → names_claim (c ++ b':' ∷ p) ≡ true
unfolding contains has_prefix cut_prefix
names_claim-append [] p colon slash = refl
names_claim-append (d ∷ c) p colon slash = ground (arith, names_claim-append c p)

names_claim-slash :
    (c p : Bytes)
    → contains c (codes ":") ≡ false
    → contains c (codes "/") ≡ true
    → names_claim (c ++ b':' ∷ p) ≡ false
unfolding contains has_prefix cut_prefix
names_claim-slash [] p colon slash = ground arith
names_claim-slash (d ∷ c) p colon slash = ground (arith, names_claim-slash c p)

pub cut-names_claim : (s : Bytes) → cut s (codes ":") ≡ none → names_claim s ≡ false
unfolding cut cut_prefix
cut-names_claim [] h = refl
cut-names_claim (d ∷ s) h = elim (Option-cases (cut s (codes ":"))) [
  | inl no_more ↦ ground (arith, cut-names_claim s no_more)
  | inr ((a, b), more) ↦ ground (arith, h, more)
]

pub slash-names_claim :
    (s c p : Bytes)
    → cut s (codes ":") ≡ some (c, p)
    → contains c (codes "/") ≡ true
    → names_claim s ≡ false
slash-names_claim s c p colon slash =
    let (parts, first) = cut_sound s b':' c p colon in
    subst (λ x. names_claim x ≡ false) (sym parts) (names_claim-slash c p first slash)

pub unprefixed : (s p : Bytes) → cut_prefix s p ≡ none → has_prefix s p ≡ false
unfolding has_prefix
unprefixed s p h = ground (arith, h)
