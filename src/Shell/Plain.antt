-- ===== src/Shell/Plain.antt =====
-- What `CheckSingleLine` promises of the bytes that it lets through.
use pv_migrate.Common.{
  join, itoa, itoa-IsNumeral, IsNumeral, ℤ, codes, if◌then◌else◌, >>=-eq-ok, Bool, true, false, leb,
  not, ◌&&◌, ◌||◌, ℕ, zero, suc, ◌≤◌, ◌<◌, ◌≢◌, ◌⊎◌, inl, inr, List, [], ◌∷◌, ◌++◌, Option, none,
  some, Bytes, ◌≡◌, refl, arith, All, All-append, Bool-cases, Option-cases, sym, ap, ◌∙◌, ◌==◌, ok,
  replace_byte,
}
use pv_migrate.Shell.Utf8.{Decoder, start, want, next_byte, decode, runes, emit}
use pv_migrate.Shell.{
  quote, quote_mark, quoted_mark, first_unplain, check_fields, check_single_line,
}

-- A tab, or a byte that is no control character.
abbrev pub IsPlain : ℕ → Type 0
IsPlain b = (b ≡ 9) ⊎ ((0x20 ≤ b) × (b ≢ 0x7f))

abbrev IsOpen : Decoder → Type 0
IsOpen start = Unit
IsOpen (want n lo hi bits) = 0x80 ≤ lo

next_byte-IsPlain :
    (d d' : Decoder) (b : ℕ) (out : List ℕ)
    → next_byte d b ≡ some (d', out)
    → IsOpen d
    → first_unplain out ≡ none
    → IsPlain b × IsOpen d'
unfolding next_byte first_unplain
next_byte-IsPlain start d' b out h o f = ground arith
next_byte-IsPlain (want zero lo hi bits) d' b out h o f = ground arith
next_byte-IsPlain (want (suc n) lo hi bits) d' b out h o f = ground arith

first_unplain-append :
    (rs us : List ℕ)
    → first_unplain (rs ++ us) ≡ none
    → (first_unplain rs ≡ none) × (first_unplain us ≡ none)
unfolding first_unplain
first_unplain-append [] us h = (refl, h)
first_unplain-append (r ∷ rs) us h = ground (arith, first_unplain-append rs us)

emit-eq-some :
    (o : Option (Decoder × List ℕ)) (f : Decoder → Option (List ℕ)) {rs : List ℕ}
    → emit o f ≡ some rs
    → (d : Decoder) × (out : List ℕ) × (us : List ℕ) × (o ≡ some (d, out))
      × (f d ≡ some us)
      × (rs ≡ out ++ us)
emit-eq-some none f h = absurd (cc)
emit-eq-some (some (d, out)) f h = elim (Option-cases (f d)) [
  | inl e ↦ absurd (ground arith)
  | inr (us, e) ↦ (d, out, us, refl, e, ground arith)
]

decode-cons :
    (d : Decoder) (b : ℕ) (s : Bytes) → decode d (b ∷ s) ≡ emit (next_byte d b) (λ d'. decode d' s)
unfolding decode
decode-cons start b s = refl
decode-cons (want n lo hi bits) b s = refl

decode-IsPlain :
    (s : Bytes) (d : Decoder) (rs : List ℕ)
    → decode d s ≡ some rs
    → first_unplain rs ≡ none
    → IsOpen d
    → All IsPlain s
decode-IsPlain [] d rs h f o = tt
decode-IsPlain (b ∷ s) d rs h f o =
    let (d', out, us, e, e', split) =
      emit-eq-some (next_byte d b) (λ d'. decode d' s) (sym (decode-cons d b s) ∙ h) in
    let (f_out, f_us) = first_unplain-append out us (ap first_unplain (sym split) ∙ f) in
    let (plain, o') = next_byte-IsPlain d d' b out e o f_out in
    (plain, decode-IsPlain s d' us e' f_us o')

-- A value that passes the check holds no control byte but a tab: no line break, no NUL, no DEL.
pub check_single_line-IsPlain :
    (name value : Bytes) → check_single_line name value ≡ ok tt → All IsPlain value
unfolding check_single_line runes
check_single_line-IsPlain name value h = elim (Option-cases (decode start value)) [
  | inl e ↦ absurd (ground arith)
  | inr (rs, e) ↦ elim (Option-cases (first_unplain rs)) [
    | inl f ↦ decode-IsPlain value start rs e f tt
    | inr (r, f) ↦ absurd (ground arith)
  ]
]

ascii_runes : (s : Bytes) → All (λ b. b < 0x80) s → decode start s ≡ some s
unfolding decode
ascii_runes [] h = refl
ascii_runes (b ∷ s) (hb, hs) = ground (arith, ascii_runes s hs)

first_unplain-ascii : (s : Bytes) → All (λ b. b < 0x80) s → All IsPlain s → first_unplain s ≡ none
unfolding first_unplain
first_unplain-ascii [] h p = refl
first_unplain-ascii (b ∷ s) (hb, hs) (pb, ps) = ground (arith, first_unplain-ascii s hs ps)

-- An ASCII value passes the check if it holds no control byte but tabs.
pub check_single_line-ascii :
    (name value : Bytes)
    → All (λ b. b < 0x80) value
    → All IsPlain value
    → check_single_line name value ≡ ok tt
unfolding check_single_line runes
check_single_line-ascii name value h p =
    ground (arith, ascii_runes value h, first_unplain-ascii value h p)

replace_byte-IsPlain :
    (s : Bytes) → All IsPlain s → All IsPlain (replace_byte quote_mark quoted_mark s)
unfolding replace_byte
replace_byte-IsPlain [] h = tt
replace_byte-IsPlain (c ∷ s) (hc, hs) = elim (Bool-cases (c == quote_mark)) [
  | inl e ↦ rw e (All-append IsPlain quoted_mark _ (omega arith) (replace_byte-IsPlain s hs))
  | inr e ↦ rw e (hc, replace_byte-IsPlain s hs)
]

-- Quoting adds no control byte.
pub quote-IsPlain : (s : Bytes) → All IsPlain s → All IsPlain (quote s)
unfolding quote
quote-IsPlain [] h = omega arith
quote-IsPlain (c ∷ s) h =
    (omega arith, All-append IsPlain _ _ (replace_byte-IsPlain (c ∷ s) h) (omega arith))

-- Fields that all pass the check are all plain.
pub check_fields-IsPlain :
    (fields : List (Bytes × Bytes))
    → check_fields fields ≡ ok tt
    → All (λ f. All IsPlain f.1) fields
unfolding check_fields
check_fields-IsPlain [] h = tt
check_fields-IsPlain ((name, value) ∷ fields) h =
    let (u, e, e') = >>=-eq-ok (check_single_line name value) (λ _. check_fields fields) h in
    (check_single_line-IsPlain name value e, check_fields-IsPlain fields e')

-- Plain texts, checked by evaluation.
abbrev pub all_plain : Bytes → Bool
all_plain [] = true
all_plain (c ∷ s) = (c == 9 || (leb 0x20 c && not (c == 0x7f))) && all_plain s

pub all_plain_sound : (s : Bytes) → all_plain s ≡ true → All IsPlain s
all_plain_sound [] h = tt
all_plain_sound (c ∷ s) h = (ground arith, all_plain_sound s (ground arith))

abbrev pub each_plain : List Bytes → Bool
each_plain [] = true
each_plain (t ∷ texts) = all_plain t && each_plain texts

pub each_plain_sound : (texts : List Bytes) → each_plain texts ≡ true → All (All IsPlain) texts
each_plain_sound [] h = tt
each_plain_sound (t ∷ texts) h =
    (all_plain_sound t (ground arith), each_plain_sound texts (ground arith))

-- Plain texts joined by a plain separator are plain.
pub join-IsPlain :
    (sep : Bytes) (texts : List Bytes)
    → All IsPlain sep
    → All (All IsPlain) texts
    → All IsPlain (join sep texts)
unfolding join
join-IsPlain sep [] h hs = tt
join-IsPlain sep (t ∷ []) h hs = hs.0
join-IsPlain sep (t ∷ t' ∷ texts) h (ht, hs) =
    All-append IsPlain t _ ht (All-append IsPlain sep _ h (join-IsPlain sep (t' ∷ texts) h hs))

pub numeral-IsPlain : (s : Bytes) → All IsNumeral s → All IsPlain s
numeral-IsPlain [] h = tt
numeral-IsPlain (c ∷ s) (h, hs) = (omega arith, numeral-IsPlain s hs)

pub if-IsPlain :
    (b : Bool) (texts : List Bytes)
    → each_plain texts ≡ true
    → All (All IsPlain) (if b then texts else [])
if-IsPlain true texts h = each_plain_sound texts h
if-IsPlain false texts h = tt

-- The port option of ssh, where there is one.
pub port_flag-IsPlain :
    (b : Bool) (z : ℤ) → All (All IsPlain) (if b then [] else codes "-p" ∷ itoa z ∷ [])
port_flag-IsPlain true z = tt
port_flag-IsPlain false z =
    (all_plain_sound (codes "-p") refl, (numeral-IsPlain (itoa z) (itoa-IsNumeral z), tt))
