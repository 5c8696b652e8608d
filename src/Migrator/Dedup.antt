-- ===== src/Migrator/Dedup.antt =====
-- The strategies of a request, each once and in the order asked for.
use pv_migrate.Common.{
  ◌++◌, ◌||◌, ◌&&◌, true, false, not, List, [], ◌∷◌, Bytes, str_eq, str_eq_refl, str_eq_sound, ◌≡◌,
  refl, ap, ◌∙◌, arith, Bool-cases, inl, inr, if◌then◌else◌, append_assoc, append-nil,
}
use pv_migrate.Migrator.{mem, dedup, dedup_from}

-- The values of a list that are not among those seen, each at its first place.
abbrev first_places : List Bytes → List Bytes → List Bytes
first_places seen [] = []
first_places seen (v ∷ s) =
    let old = first_places seen s in
    let fresh = first_places (v ∷ seen) s in if mem v seen then old else v ∷ fresh

dedup_from-first_places :
    (s seen result : List Bytes) → dedup_from seen result s ≡ result ++ first_places seen s
unfolding dedup_from
dedup_from-first_places [] seen result = rw append-nil
dedup_from-first_places (v ∷ s) seen result = elim (Bool-cases (mem v seen)) [
  | inl e ↦ rw e (dedup_from-first_places s seen result)
  | inr e ↦
      rw e
        (dedup_from-first_places s (v ∷ seen) (result ++ v ∷ []) ∙ append_assoc result (v ∷ []) _)
]

-- No value stands twice.
abbrev pub Distinct : List Bytes → Type 0
Distinct [] = Unit
Distinct (v ∷ s) = (mem v s ≡ false) × Distinct s

mem_same : (x v : Bytes) (s : List Bytes) → str_eq x v ≡ true → mem x s ≡ mem v s
mem_same x v s e = ap (λ y. mem y s) (str_eq_sound x v e)

mem-first_places :
    (x : Bytes) (s seen : List Bytes) → mem x (first_places seen s) ≡ (mem x s && not (mem x seen))
mem-first_places x [] seen = refl
mem-first_places x (v ∷ s) seen =
    let old = mem-first_places x s seen in
    let fresh = mem-first_places x s (v ∷ seen) in
    elim (Bool-cases (str_eq x v)) [
      | inl e ↦ let same = mem_same x v seen e in ground arith
      | inr e ↦ ground arith
    ]

Distinct-first_places : (s seen : List Bytes) → Distinct (first_places seen s)
Distinct-first_places [] seen = tt
Distinct-first_places (v ∷ s) seen = elim (Bool-cases (mem v seen)) [
  | inl e ↦ rw e (Distinct-first_places s seen)
  | inr e ↦ rw e (
    ground (arith, mem-first_places v s (v ∷ seen), str_eq_refl v),
    Distinct-first_places s (v ∷ seen),
  )
]

first_places-Distinct :
    (s seen : List Bytes)
    → Distinct s
    → ((x : Bytes) → mem x s ≡ true → mem x seen ≡ false)
    → first_places seen s ≡ s
first_places-Distinct [] seen h k = refl
first_places-Distinct (v ∷ s) seen (h, hs) k =
    let fresh = k v (ground (arith, str_eq_refl v)) in
    rw fresh (ap (λ r. v ∷ r) (first_places-Distinct s (v ∷ seen) hs unseen))
  where
    unseen : (x : Bytes) → mem x s ≡ true → mem x (v ∷ seen) ≡ false
    unseen x m = elim (Bool-cases (str_eq x v)) [
      | inl e ↦ let same = mem_same x v s e in absurd (ground arith)
      | inr e ↦ ground (arith, k x (ground arith))
    ]

dedup-first_places : (s : List Bytes) → dedup s ≡ first_places [] s
unfolding dedup
dedup-first_places s = dedup_from-first_places s [] []

-- The strategies tried are those asked for, none twice, and a list without repeats is kept as it is,
-- its order included.
pub dedup_lem :
    (s : List Bytes)
    → ((x : Bytes) → mem x (dedup s) ≡ mem x s) × Distinct (dedup s) × (Distinct s → dedup s ≡ s)
dedup_lem s = (
  λ x. rw dedup-first_places (ground (arith, mem-first_places x s [])),
  rw dedup-first_places (Distinct-first_places s []),
  λ h. dedup-first_places s ∙ first_places-Distinct s [] h (λ x m. refl),
)

first_places-snoc :
    (s seen : List Bytes) (v : Bytes)
    → first_places seen (s ++ v ∷ [])
      ≡ (if mem v s || mem v seen then first_places seen s else first_places seen s ++ v ∷ [])
first_places-snoc [] seen v = ground arith
first_places-snoc (w ∷ s) seen v =
    let old = first_places-snoc s seen v in
    let fresh = first_places-snoc s (w ∷ seen) v in
    elim (Bool-cases (str_eq v w)) [
      | inl e ↦ let same = mem_same v w seen e in ground arith
      | inr e ↦ ground arith
    ]

-- One more name at the end of the request is tried last, unless it was asked for before.
pub dedup-snoc :
    (s : List Bytes) (v : Bytes)
    → dedup (s ++ v ∷ []) ≡ (if mem v s then dedup s else dedup s ++ v ∷ [])
dedup-snoc s v =
    rw (dedup-first_places (s ++ v ∷ []), dedup-first_places s)
      (ground (arith, first_places-snoc s [] v))
