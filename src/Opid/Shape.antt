-- ===== src/Opid/Shape.antt =====
-- Which identifiers are accepted.
use pv_migrate.Common.{
  ℕ, ◌||◌, ◌&&◌, not, Bool, true, false, List, [], ◌∷◌, Bytes, if◌then◌else◌, is_empty, ok, leb,
  length, ◌==◌, ◌≡◌, ◌↔◌, refl, arith, split_byte, cons_head, Bool-cases, inl, inr,
}
use pv_migrate.Opid.{is_alphanumeric, matches_valid, validate, max_length}

abbrev pub all_alphanumeric : Bytes → Bool
all_alphanumeric [] = true
all_alphanumeric (c ∷ s) = is_alphanumeric c && all_alphanumeric s

-- A segment between two hyphens.
abbrev pub is_segment : Bytes → Bool
is_segment s = not (is_empty s) && all_alphanumeric s

abbrev pub all_segments : List Bytes → Bool
all_segments [] = true
all_segments (p ∷ ps) = is_segment p && all_segments ps

-- The segments of the rest of a text, of which the first may have begun before.
abbrev rest_matches : Bool → List Bytes → Bool
rest_matches inside [] = inside
rest_matches inside (p ∷ ps) =
    (inside || not (is_empty p)) && (all_alphanumeric p && all_segments ps)

cons_head-longer :
    (c : ℕ) (ps : List Bytes) → (p : Bytes) × (qs : List Bytes) × (cons_head c ps ≡ p ∷ qs)
cons_head-longer c [] = (c ∷ [], [], refl)
cons_head-longer c (p ∷ ps) = (c ∷ p, ps, refl)

split_byte-longer : (s : Bytes) → (p : Bytes) × (ps : List Bytes) × (split_byte b'-' s ≡ p ∷ ps)
unfolding split_byte
split_byte-longer [] = ([], [], refl)
split_byte-longer (c ∷ s) = elim (Bool-cases (c == b'-')) [
  | inl e ↦ rw e ([], split_byte b'-' s, refl)
  | inr e ↦ rw e (cons_head-longer c (split_byte b'-' s))
]

matches-step :
    (c : ℕ) (inside more next_segment : Bool) (ps : List Bytes) (p : Bytes) (qs : List Bytes)
    → ps ≡ p ∷ qs
    → more ≡ rest_matches true ps
    → next_segment ≡ rest_matches false ps
    → (if is_alphanumeric c then more else if c == b'-' && inside then next_segment else false)
      ≡ rest_matches inside (if c == b'-' then [] ∷ ps else cons_head c ps)
matches-step c inside more next_segment [] p qs e h k = absurd (cc)
matches-step c inside more next_segment (q ∷ ps) p qs e h k = ground arith

rest_matches-matches_valid :
    (s : Bytes) (inside : Bool) → matches_valid inside s ≡ rest_matches inside (split_byte b'-' s)
unfolding matches_valid split_byte
rest_matches-matches_valid [] inside = ground arith
rest_matches-matches_valid (c ∷ s) inside =
    let (p, qs, e) = split_byte-longer s in
    matches-step c inside (matches_valid true s) (matches_valid false s) (split_byte b'-' s) p qs e
      (rest_matches-matches_valid s true) (rest_matches-matches_valid s false)

all_segments-matches_valid : (s : Bytes) → matches_valid false s ≡ all_segments (split_byte b'-' s)
all_segments-matches_valid s =
    let (p, ps, e) = split_byte-longer s in
    let m = rest_matches-matches_valid s false in ground (arith, m, e)

-- An identifier is accepted exactly if it has at most 24 bytes and consists of segments of lowercase
-- letters and digits, none empty, with one hyphen between two of them.
pub validate-ok :
    (id : Bytes)
    → (validate id ≡ ok tt)
      ↔ (leb (length id) max_length && all_segments (split_byte b'-' id) ≡ true)
unfolding validate
validate-ok [] = unfold split_byte in (λ h. ground arith, λ h. ground arith)
validate-ok (c ∷ s) =
    let m = all_segments-matches_valid (c ∷ s) in (λ h. ground arith, λ h. ground arith)
