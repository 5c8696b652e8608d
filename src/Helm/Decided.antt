-- ===== src/Helm/Decided.antt =====
-- The policies that are turned off, decided for each section by itself.
use pv_migrate.Common.{
  Bool, ◌||◌, [], ◌∷◌, Option, none, some, Bytes, is_empty, Result, if◌then◌else◌, str_eq,
  str_eq_sound, ◌≡◌, refl, arith, Bool-cases, inl, inr, ap,
}
use pv_migrate.Helm.{
  Value, table, flag, Table, empty, entry, namespace_to_check, network_policies_allowed, policy_off,
  Cache, look_up, check_once, disable_section, disable_network_policies, Checked, answer, text,
  number, items,
}

-- Each namespace is asked for as if it were the first.
abbrev pub decided : (Bytes → Result Bytes Bool) → Value → Value
decided can_create (table section) =
    let ns = namespace_to_check section in
    if is_empty ns || network_policies_allowed can_create ns
    then table section
    else table (policy_off section)
decided can_create value = value

abbrev pub all_decided : (Bytes → Result Bytes Bool) → Table → Table
all_decided can_create empty = empty
all_decided can_create (entry component value rest) =
    entry component (decided can_create value) (all_decided can_create rest)

-- The cache holds what the cluster answers.
abbrev pub Answered : (Bytes → Result Bytes Bool) → Cache → Type 0
Answered can_create [] = Unit
Answered can_create ((ns, allowed) ∷ cache) =
    (allowed ≡ network_policies_allowed can_create ns) × Answered can_create cache

look_up-Answered :
    (can_create : Bytes → Result Bytes Bool) (cache : Cache) (ns : Bytes) (allowed : Bool)
    → Answered can_create cache
    → look_up cache ns ≡ some allowed
    → allowed ≡ network_policies_allowed can_create ns
unfolding look_up
look_up-Answered can_create [] ns allowed held h = cc
look_up-Answered can_create ((n, a) ∷ cache) ns allowed (this, held) h =
    elim (Bool-cases (str_eq n ns)) [
      | inl same ↦
          ground (
            arith,
            same,
            h,
            this,
            ap (network_policies_allowed can_create) (str_eq_sound n ns same),
          )
      | inr other ↦ look_up-Answered can_create cache ns allowed held (ground (arith, other, h))
    ]

-- One check answers as the cluster does, and the cache stays true.
abbrev AnswersOf : (Bytes → Result Bytes Bool) → Bytes → Checked → Type 0
AnswersOf can_create ns c = (c.0 ≡ network_policies_allowed can_create ns) × Answered can_create c.1

answer-AnswersOf :
    (can_create : Bytes → Result Bytes Bool) (ns : Bytes) (cache : Cache) (known : Option Bool)
    → Answered can_create cache
    → look_up cache ns ≡ known
    → AnswersOf can_create ns (answer can_create ns cache known)
answer-AnswersOf can_create ns cache none held h = (refl, (refl, held))
answer-AnswersOf can_create ns cache (some allowed) held h =
    (look_up-Answered can_create cache ns allowed held h, held)

check_once-AnswersOf :
    (can_create : Bytes → Result Bytes Bool) (ns : Bytes) (cache : Cache)
    → Answered can_create cache
    → AnswersOf can_create ns (check_once can_create ns cache)
unfolding check_once
check_once-AnswersOf can_create ns cache held =
    answer-AnswersOf can_create ns cache (look_up cache ns) held refl

disable_section-decided :
    (can_create : Bytes → Result Bytes Bool) (value : Value) (cache : Cache)
    → Answered can_create cache
    → ((disable_section can_create value cache).0 ≡ decided can_create value)
      × Answered can_create (disable_section can_create value cache).1
unfolding disable_section
disable_section-decided can_create (table section) cache held =
    let ns = namespace_to_check section in
    let (said, kept) = check_once-AnswersOf can_create ns cache held in
    elim (Bool-cases (is_empty ns)) [
      | inl off ↦ rw off (refl, held)
      | inr asked ↦ rw asked (ground (arith, said), kept)
    ]
disable_section-decided can_create (text s) cache held = (refl, held)
disable_section-decided can_create (flag b) cache held = (refl, held)
disable_section-decided can_create (number z) cache held = (refl, held)
disable_section-decided can_create (items vs) cache held = (refl, held)

-- Asking for a namespace once makes no difference: each section has the policy that its own namespace calls
-- for.
pub disable_network_policies-all_decided :
    (can_create : Bytes → Result Bytes Bool) (values : Table) (cache : Cache)
    → Answered can_create cache
    → (disable_network_policies can_create values cache).0 ≡ all_decided can_create values
unfolding disable_network_policies
disable_network_policies-all_decided can_create empty cache held = refl
disable_network_policies-all_decided can_create (entry component value rest) cache held =
    let (same, kept) = disable_section-decided can_create value cache held in
    let later =
      disable_network_policies-all_decided can_create rest
        (disable_section can_create value cache).1 kept in
    rw (same, later) refl
