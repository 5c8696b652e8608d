-- ===== src/Migrator/Run/Names.antt =====
-- The names of the releases that a run creates, against the limit of Helm.
use pv_migrate.Common.{
  ◌+◌, ◌++◌, ◌≤◌, ◌&&◌, Bool, true, List, [], ◌∷◌, Bytes, codes, ◌≡◌, refl, sym, length,
  length-append, arith, ok, leb, subst, inl, inr, Bool-cases, str_eq, str_eq_sound,
}
use pv_migrate.Opid.{validate}
use pv_migrate.Strategy.Topology.{Topology, release_names}
use pv_migrate.Migrator.{mem}
use pv_migrate.Migrator.Ladder.{new_attempt}
use pv_migrate.Migrator.Run.{strategy_names}

valid-short : (id : Bytes) → validate id ≡ ok tt → length id ≤ 24
unfolding validate
valid-short id h = ground arith

abbrev all_short : List Bytes → Bool
all_short [] = true
all_short (n ∷ ns) = leb (length n) 12 && all_short ns

mem-short :
    (name : Bytes) (names : List Bytes)
    → mem name names ≡ true
    → all_short names ≡ true
    → length name ≤ 12
mem-short name [] h k = absurd (ground arith)
mem-short name (n ∷ names) h k = elim (Bool-cases (str_eq name n)) [
  | inl e ↦ subst (λ x. length x ≤ 12) (sym (str_eq_sound name n e)) (ground arith)
  | inr e ↦ mem-short name names (ground arith) (ground arith)
]

length-release_prefix :
    (id name suffix : Bytes)
    → length ((new_attempt id name).release_prefix ++ suffix)
      ≡ 12 + length id + length name + length suffix
unfolding new_attempt
length-release_prefix id name suffix =
    let a = length-append id (codes "-") in
    let b = length-append (id ++ codes "-") name in
    let c = length-append (id ++ codes "-" ++ name) suffix in ground arith

-- For an identifier that is accepted and any of the strategies, the prefix of the releases and both
-- names of a two-release strategy fit in the 53 bytes that Helm allows.
pub length-release_names :
    {Q : Type 0} (t : Topology Q) (id name : Bytes)
    → validate id ≡ ok tt
    → mem name strategy_names ≡ true
    → (length (new_attempt id name).release_prefix ≤ 53)
      × (length (release_names t (new_attempt id name).release_prefix).0 ≤ 53)
      × (length (release_names t (new_attempt id name).release_prefix).1 ≤ 53)
unfolding release_names
length-release_names t id name h m =
    let short = valid-short id h in
    let brief = mem-short name strategy_names m refl in
    let src = length-release_prefix id name (codes "-src") in
    let dest = length-release_prefix id name (codes "-dest") in
    let shorter = length-append (new_attempt id name).release_prefix (codes "-src") in
    elim (Bool-cases t.push) [
      | inl e ↦ rw e (ground arith, ground arith, ground arith)
      | inr e ↦ rw e (ground arith, ground arith, ground arith)
    ]
