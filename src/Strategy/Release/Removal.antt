-- ===== src/Strategy/Release/Removal.antt =====
-- What a cleanup leaves behind.
use pv_migrate.Common.{
  ◌++◌, Bool, true, false, List, [], ◌∷◌, Bytes, Result, ok, err, All, ◌≡◌, refl, arith,
  Result-cases, inl, inr, sym, ◌⊎◌, subst,
}
use pv_migrate.Strategy.Release.{
  Side, source, dest, Uninstalled, refused, Helm, cleanup_for_pvc, cleanup_side, cleanup, Report,
  reported,
}

abbrev pub is_refused : Uninstalled → Bool
is_refused (refused e) = true
is_refused _ = false

-- What Helm documents of an uninstall, for a view of the releases that a state has: a release is gone if it
-- was removed or not found, and no release comes into being.
pub record Removes {W : Type 0} (helm : Helm W) (has : W → Side → Bytes → Bool) : Type 0 where
  pub gone :
      (side : Side) (name : Bytes) (w : W)
      → is_refused (helm.uninstall side name w).0 ≡ false
      → has (helm.uninstall side name w).1 side name ≡ false
  pub creates_none :
      (side other : Side) (name release : Bytes) (w : W)
      → has w other release ≡ false
      → has (helm.uninstall side name w).1 other release ≡ false

append-nil_both {ℓ} : {A : Type ℓ} (xs ys : List A) → xs ++ ys ≡ [] → (xs ≡ []) × (ys ≡ [])
append-nil_both [] ys h = (refl, h)
append-nil_both (x ∷ xs) ys h = cc

module _ {W : Type 0} (helm : Helm W) (has : W → Side → Bytes → Bool) (law : Removes helm has) where
  cleanup_for_pvc-creates_none :
      (name : Bytes) (side other : Side) (release : Bytes) (w : W)
      → has w other release ≡ false
      → has (cleanup_for_pvc helm name side w).1 other release ≡ false
  unfolding cleanup_for_pvc
  cleanup_for_pvc-creates_none name side other release w h = elim (Result-cases (helm.init side)) [
    | inl (e, failed) ↦ ground (arith, failed, h)
    | inr (done, fine) ↦ ground (arith, fine, law.creates_none side other name release w h)
  ]

  abbrev is_err : Result Bytes Bool → Bool
  is_err (err e) = true
  is_err (ok b) = false

  cleanup_for_pvc-gone :
      (name : Bytes) (side : Side) (w : W)
      → is_err (cleanup_for_pvc helm name side w).0 ≡ false
      → has (cleanup_for_pvc helm name side w).1 side name ≡ false
  unfolding cleanup_for_pvc
  cleanup_for_pvc-gone name side w h = elim (Result-cases (helm.init side)) [
    | inl (e, failed) ↦ ground (arith, failed, h)
    | inr (done, fine) ↦ ground (arith, fine, h, law.gone side name w)
  ]

  cleanup_side-creates_none :
      (side : Side) (names : List Bytes) (other : Side) (release : Bytes) (w : W)
      → has w other release ≡ false
      → has (cleanup_side helm side names w).1 other release ≡ false
  unfolding cleanup_side
  cleanup_side-creates_none side [] other release w h = h
  cleanup_side-creates_none side (name ∷ names) other release w h =
      cleanup_side-creates_none side names other release (cleanup_for_pvc helm name side w).1
        (cleanup_for_pvc-creates_none name side other release w h)

  -- The release is gone, or an error of the report is its own.
  reported-errors :
      (side : Side) (name : Bytes) (answer : Result Bytes Bool) (report : Report helm)
      → (reported helm side name answer report).1 ≡ []
      → (is_err answer ≡ false) × (report.1 ≡ [])
  reported-errors side name (err e) report h = cc
  reported-errors side name (ok true) report h = (refl, h)
  reported-errors side name (ok false) report h = (refl, h)

  Gone : Side → W → List Bytes → Type 0
  Gone side w = All (λ name. has w side name ≡ false)

  cleanup_side-Gone :
      (side : Side) (names : List Bytes) (w : W)
      → (cleanup_side helm side names w).0.1 ≡ []
      → Gone side (cleanup_side helm side names w).1 names
  unfolding cleanup_side Gone
  cleanup_side-Gone side [] w h = tt
  cleanup_side-Gone side (name ∷ names) w h =
      let answer = cleanup_for_pvc helm name side w in
      let (fine, rest) =
        reported-errors side name answer.0 (cleanup_side helm side names answer.1).0 h in
      (
        cleanup_side-creates_none side names side name answer.1
            (cleanup_for_pvc-gone name side w fine),
        cleanup_side-Gone side names answer.1 rest,
      )

  Gone-after :
      (side other : Side) (names more : List Bytes) (w : W)
      → Gone other w more
      → Gone other (cleanup_side helm side names w).1 more
  unfolding Gone
  Gone-after side other names [] w h = tt
  Gone-after side other names (release ∷ more) w (h, hs) = (
    cleanup_side-creates_none side names other release w h,
    Gone-after side other names more w hs,
  )

  abbrev pub IsIn : Bytes → List Bytes → Type 0
  IsIn name [] = ⊥
  IsIn name (n ∷ ns) = (n ≡ name) ⊎ IsIn name ns

  -- The release can be removed, whatever the state.
  abbrev pub IsRemovable : Side → Bytes → Type 0
  IsRemovable side name =
      (helm.init side ≡ ok tt) × ((w : W) → is_refused (helm.uninstall side name w).0 ≡ false)

  removable-gone :
      (side : Side) (name : Bytes) (w : W)
      → IsRemovable side name
      → has (cleanup_for_pvc helm name side w).1 side name ≡ false
  unfolding cleanup_for_pvc
  removable-gone side name w (fine, never_refused) =
      ground (arith, fine, never_refused w, law.gone side name w)

  cleanup_side-removable :
      (side : Side) (name : Bytes) (names : List Bytes) (w : W)
      → IsRemovable side name
      → IsIn name names
      → has (cleanup_side helm side names w).1 side name ≡ false
  unfolding cleanup_side
  cleanup_side-removable side name [] w can there = elim there [ ]
  cleanup_side-removable side name (n ∷ ns) w can (inl same) =
      cleanup_side-creates_none side ns side name (cleanup_for_pvc helm n side w).1 (
        subst (λ m. has (cleanup_for_pvc helm m side w).1 side name ≡ false) (sym same)
          (removable-gone side name w can))
  cleanup_side-removable side name (n ∷ ns) w can (inr further) =
      cleanup_side-removable side name ns (cleanup_for_pvc helm n side w).1 can further

  -- After a cleanup that reports no error, no release of the attempt is left on either side.
  pub cleanup-gone :
      (names : List Bytes) (w : W)
      → (cleanup helm names w).0.1 ≡ []
      → All (λ name. has (cleanup helm names w).1 source name ≡ false) names
        × All (λ name. has (cleanup helm names w).1 dest name ≡ false) names
  unfolding cleanup Gone
  cleanup-gone names w h =
      let at_source = cleanup_side helm source names w in
      let (fine, fine_too) =
        append-nil_both at_source.0.1 (cleanup_side helm dest names at_source.1).0.1 h in
      (
        Gone-after dest source names names at_source.1 (cleanup_side-Gone source names w fine),
        cleanup_side-Gone dest names at_source.1 fine_too,
      )

  -- A release that can be removed is gone on both sides, whatever errors the others meet before or behind it.
  pub cleanup-removable :
      (name : Bytes) (names : List Bytes) (w : W)
      → IsRemovable source name
      → IsRemovable dest name
      → IsIn name names
      → (has (cleanup helm names w).1 source name ≡ false)
        × (has (cleanup helm names w).1 dest name ≡ false)
  unfolding cleanup
  cleanup-removable name names w can can_too there =
      let at_source = cleanup_side helm source names w in
      (
        cleanup_side-creates_none dest names source name at_source.1
            (cleanup_side-removable source name names w can there),
        cleanup_side-removable dest name names at_source.1 can_too there,
      )
