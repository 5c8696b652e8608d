-- ===== src/Helm/Asked.antt =====
-- What turning a policy off changes, and how often the cluster is asked.
use pv_migrate.K8s.Tail.{count}
use pv_migrate.Common.{
  ◌++◌, ◌+◌, Bool, true, false, ◌&&◌, ◌||◌, not, List, [], ◌∷◌, Option, none, some, Bytes, is_empty,
  Result, if◌then◌else◌, str_eq, str_eq_refl, str_eq_sound, ◌≡◌, refl, arith, Bool-cases, inl, inr,
  ap, sym, ◌∙◌,
}
use pv_migrate.Helm.{
  Value, table, text, flag, number, items, Table, empty, entry, get, put, as_table, is_flag,
  key_enabled, key_network_policy, network_policy_on, namespace_to_check, policy_off, Cache,
  look_up, check_once, disable_section, disable_network_policies, answer, policy_or_new,
  is_policy_on,
}

pub get-put : (key : Bytes) (value : Value) (t : Table) → get (put key value t) key ≡ some value
unfolding get put
get-put key value empty = ground (arith, str_eq_refl key)
get-put key value (entry k v t) = ground (arith, str_eq_refl key, get-put key value t)

pub get-put_other :
    (key other : Bytes) (value : Value) (t : Table)
    → str_eq key other ≡ false
    → get (put key value t) other ≡ get t other
unfolding get put
get-put_other key other value empty h = ground (arith, h)
get-put_other key other value (entry k v t) h = elim (Bool-cases (str_eq k key)) [
  | inl same ↦
      let here : str_eq k other ≡ false = ap (λ x. str_eq x other) (str_eq_sound k key same) ∙ h in
      ground (arith, same, here)
  | inr differs ↦ ground (arith, differs, h, get-put_other key other value t h)
]

-- A section whose policy is turned off has it off, and is otherwise what it was.
pub policy_off-network_policy_on :
    (section : Table) (key : Bytes)
    → (network_policy_on (policy_off section) ≡ false)
      × (str_eq key_network_policy key ≡ false → get (policy_off section) key ≡ get section key)
unfolding network_policy_on policy_off
policy_off-network_policy_on section key =
    let policy = policy_or_new (as_table (get section key_network_policy)) in
    let off = put key_enabled (flag false) policy in
    (
      ap (λ v. is_policy_on (as_table v)) (get-put key_network_policy (table off) section)
          ∙ ap (λ v. not (is_flag false v)) (get-put key_enabled (flag false) policy),
      get-put_other key_network_policy key (table off) section,
    )

-- Whether some section leaves the namespace to be decided.
abbrev pub needs : Bytes → Value → Bool
needs ns (table section) = str_eq (namespace_to_check section) ns
needs ns value = false

abbrev pub some_needs : Bytes → Table → Bool
some_needs ns empty = false
some_needs ns (entry component value rest) = needs ns value || some_needs ns rest

abbrev pub is_known : Option Bool → Bool
is_known none = false
is_known (some allowed) = true

str_eq_swap : (s t : Bytes) → str_eq s t ≡ false → str_eq t s ≡ false
str_eq_swap s t h = elim (Bool-cases (str_eq t s)) [
  | inl same ↦
      absurd (ground (arith, h, ap (λ x. str_eq x t) (sym (str_eq_sound t s same)), str_eq_refl t))
  | inr differs ↦ differs
]

-- The namespace is known afterwards if it was known or is needed, and it is asked for if it is needed and
-- was not known.
abbrev AsksOnce : Bytes → Cache → (needed : Bool) → Cache → List Bytes → Type 0
AsksOnce ns cache needed next asked =
    (is_known (look_up next ns) ≡ (is_known (look_up cache ns) || needed))
    × (count ns asked ≡ (if not (is_known (look_up cache ns)) && needed then 1 else 0))

answer-AsksOnce :
    (can_create : Bytes → Result Bytes Bool) (ns checked : Bytes) (cache : Cache)
    (known : Option Bool)
    → look_up cache checked ≡ known
    → let c = answer can_create checked cache known in AsksOnce ns cache (str_eq checked ns) c.1 c.2
unfolding look_up count
answer-AsksOnce can_create ns checked cache none h = elim (Bool-cases (str_eq checked ns)) [
  | inl same ↦
      let e = str_eq_sound checked ns same in
      let missing : look_up cache ns ≡ none = ap (look_up cache) (sym e) ∙ h in
      let refl_ns : str_eq ns checked ≡ true = ap (str_eq ns) e ∙ str_eq_refl ns in
      (ground (arith, same, missing), ground (arith, same, missing, refl_ns))
  | inr other ↦
      let differs : str_eq ns checked ≡ false = str_eq_swap checked ns other in
      (ground (arith, other), ground (arith, other, differs))
]
answer-AsksOnce can_create ns checked cache (some allowed) h =
    elim (Bool-cases (str_eq checked ns)) [
      | inl same ↦
          let there : look_up cache ns ≡ some allowed =
            ap (look_up cache) (sym (str_eq_sound checked ns same)) ∙ h in
          (ground (arith, same, there), ground (arith, same, there))
      | inr other ↦ (ground (arith, other), ground (arith, other))
    ]

str_eq-empty : (s t : Bytes) → is_empty s ≡ true → is_empty t ≡ false → str_eq s t ≡ false
unfolding str_eq
str_eq-empty [] [] hs ht = cc
str_eq-empty [] (b ∷ t) hs ht = refl
str_eq-empty (a ∷ s) t hs ht = cc

disable_section-AsksOnce :
    (can_create : Bytes → Result Bytes Bool) (ns : Bytes) (value : Value) (cache : Cache)
    → is_empty ns ≡ false
    → let c = disable_section can_create value cache in AsksOnce ns cache (needs ns value) c.1 c.2
unfolding disable_section count check_once
disable_section-AsksOnce can_create ns (table section) cache named =
    let checked = namespace_to_check section in
    let once = answer-AsksOnce can_create ns checked cache (look_up cache checked) refl in
    elim (Bool-cases (is_empty checked)) [
      | inl off ↦
          let apart : str_eq checked ns ≡ false = str_eq-empty checked ns off named in
          (ground (arith, off, apart), ground (arith, off, apart))
      | inr on ↦ (ground (arith, on, once.0), ground (arith, on, once.1))
    ]
disable_section-AsksOnce can_create ns (text s) cache named = ground arith
disable_section-AsksOnce can_create ns (flag b) cache named = ground arith
disable_section-AsksOnce can_create ns (number z) cache named = ground arith
disable_section-AsksOnce can_create ns (items vs) cache named = ground arith

count-append :
    (line : Bytes) (xs ys : List Bytes) → count line (xs ++ ys) ≡ count line xs + count line ys
unfolding count
count-append line [] ys = omega arith
count-append line (x ∷ xs) ys = omega (arith, count-append line xs ys)

-- The cluster is asked for a namespace once if a section needs it that no answer is known for, and else not
-- at all.
pub disable_network_policies-asks_once :
    (can_create : Bytes → Result Bytes Bool) (ns : Bytes) (values : Table) (cache : Cache)
    → is_empty ns ≡ false
    → count ns (disable_network_policies can_create values cache).1
      ≡ (if not (is_known (look_up cache ns)) && some_needs ns values then 1 else 0)
unfolding disable_network_policies count
disable_network_policies-asks_once can_create ns empty cache named = ground arith
disable_network_policies-asks_once can_create ns (entry component value rest) cache named =
    let c = disable_section can_create value cache in
    let (known, asked) = disable_section-AsksOnce can_create ns value cache named in
    let later = disable_network_policies-asks_once can_create ns rest c.1 named in
    count-append ns c.2 (disable_network_policies can_create rest c.1).1
    ∙ ground (arith, known, asked, later)
