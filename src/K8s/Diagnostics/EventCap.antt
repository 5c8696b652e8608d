-- ===== src/K8s/Diagnostics/EventCap.antt =====
-- The events that are shown of one object.
use pv_migrate.Common.{
  ◌++◌, ℕ, suc, ◌-◌, false, ◌&&◌, List, [], ◌∷◌, Bytes, is_empty, if◌then◌else◌, str_eq, leb,
  length, take, ok, ◌≡◌, refl, arith, Bool-cases, inl, inr, ap, sym, ◌∙◌, append_assoc, append-nil,
  str_eq_sound, ◌≤◌, ◌<◌, zero, ◌+◌, length-append,
}
use pv_migrate.K8s.Diagnostics.{events_from, append_at, warning_events_by_uid, no_events, ByUid}
use pv_migrate.K8s.Diagnostics.Facts.{EventRecord, format_event}

-- The warnings about one object.
abbrev pub warnings_of : Bytes → List EventRecord → List Bytes
warnings_of uid [] = []
warnings_of uid (e ∷ es) =
    if e.is_warning && str_eq uid e.uid
    then format_event e ∷ warnings_of uid es
    else warnings_of uid es

take-cons {ℓ} :
    {A : Type ℓ} (n : ℕ) (x : A) (xs : List A) → 0 < n → take n (x ∷ xs) ≡ x ∷ take (n - 1) xs
take-cons zero x xs h = elim h [ ]
take-cons (suc n) x xs h = ap (λ m. x ∷ take m xs) (omega arith)

take-nil {ℓ} : {A : Type ℓ} (n : ℕ) → take n (◌++◌ {A = A} [] []) ≡ []
take-nil zero = refl
take-nil (suc n) = refl

take-none {ℓ} : {A : Type ℓ} (n : ℕ) (xs : List A) → n ≡ 0 → take n xs ≡ []
take-none zero xs h = refl
take-none (suc n) xs h = cc

-- The loop, with what the map holds of the object so far.
events_from-take :
    (uid : Bytes) (by_uid : ByUid) (es : List EventRecord)
    → is_empty uid ≡ false
    → length (by_uid uid) ≤ 3
    → events_from by_uid es uid ≡ by_uid uid ++ take (3 - length (by_uid uid)) (warnings_of uid es)
unfolding events_from
events_from-take uid by_uid [] named capped =
    sym (ap (λ ws. by_uid uid ++ ws) (take-nil (3 - length (by_uid uid))) ∙ append-nil (by_uid uid))
events_from-take uid by_uid (e ∷ es) named capped =
    let held = by_uid uid in
    let next = append_at e.uid (format_event e) by_uid in
    let rest = events_from-take uid by_uid es named capped in
    elim (Bool-cases (str_eq uid e.uid)) [
      | inr other ↦
          let same : next uid ≡ held = ground (arith, other) in
          let later = events_from-take uid next es named (rw same capped) in
          ground (arith, other, rest, later, same)
      | inl about ↦
          let at_uid = str_eq_sound uid e.uid about in
          let there : by_uid e.uid ≡ held = ap by_uid (sym at_uid) in
          let measured : length (by_uid e.uid) ≡ length held = ap length there in
          let has_uid : is_empty e.uid ≡ false = ap is_empty (sym at_uid) ∙ named in
          let after = warnings_of uid es in
          elim (Bool-cases (leb 3 (length held))) [
            | inl full ↦
                let no_room : 3 - length held ≡ 0 = ground (arith, full) in
                ground (
                  arith,
                  about,
                  measured,
                  rest,
                  take-none (3 - length held) after no_room,
                  take-none (3 - length held) (format_event e ∷ after) no_room,
                )
            | inr room ↦
                let grown : next uid ≡ held ++ format_event e ∷ [] = ground (arith, about, there) in
                let longer : length (next uid) ≡ length held + 1 =
                  ap length grown ∙ length-append held (format_event e ∷ []) in
                let later = events_from-take uid next es named (ground (arith, room, longer)) in
                let shrunk : 3 - length (next uid) ≡ 3 - length held - 1 = omega (arith, longer) in
                let tail = take (3 - length held - 1) after in
                let all : events_from next es uid ≡ (held ++ format_event e ∷ []) ++ tail =
                  later ∙ ap (λ n. next uid ++ take n after) shrunk ∙ ap (λ ls. ls ++ tail) grown in
                ground (
                  arith,
                  about,
                  measured,
                  has_uid,
                  room,
                  all ∙ append_assoc held (format_event e ∷ []) tail,
                  rest,
                  take-cons (3 - length held) (format_event e) after (ground (arith, room)),
                )
          ]
    ]

-- Of each object that has an identifier, the first three warnings are shown, in the order of the list.
pub warning_events_by_uid-take :
    (es : List EventRecord) (uid : Bytes)
    → is_empty uid ≡ false
    → warning_events_by_uid (ok es) uid ≡ take 3 (warnings_of uid es)
unfolding warning_events_by_uid
warning_events_by_uid-take es uid named = events_from-take uid no_events es named (omega arith)
