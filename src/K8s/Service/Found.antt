-- ===== src/K8s/Service/Found.antt =====
-- Which address and which port are found.
use pv_migrate.Common.{
  ℕ, Bool, true, false, ◌||◌, List, [], ◌∷◌, Option, none, some, Bytes, Result, ok, err, ◌≡◌, refl,
  arith, ◌⊎◌, inl, inr, ◌≢◌, Bool-cases, subst, sym, str_eq,
}
use pv_migrate.K8s.Service.{
  Service, ServicePort, ServiceEvent, service_address, get_service_address,
  wait_for_node_port_service, find_node_port, get_node_port, ssh_port_or, is_ssh_port,
  node_port_type, load_balancer,
}

-- The first address among the services before any object that is none.
abbrev pub first_address : List ServiceEvent → Option Bytes
first_address [] = none
first_address (none ∷ events) = none
first_address (some s ∷ events) = elim (service_address s) [
  | some address ↦ some address
  | none ↦ first_address events
]

abbrev pub found {ℓ} : {A : Type ℓ} → Result Bytes A → Option A
found (err e) = none
found (ok a) = some a

-- A service's address is that of the first event at which it has one.
pub get_service_address-first_address :
    (ns name ended : Bytes) (events : List ServiceEvent)
    → found (get_service_address ns name ended events) ≡ first_address events
unfolding get_service_address
get_service_address-first_address ns name ended [] = refl
get_service_address-first_address ns name ended (none ∷ events) = refl
get_service_address-first_address ns name ended (some s ∷ events) =
    ground (arith, get_service_address-first_address ns name ended events)

abbrev pub IsPortOf : ServicePort → List ServicePort → Type 0
IsPortOf p [] = ⊥
IsPortOf p (q ∷ qs) = (p ≡ q) ⊎ IsPortOf p qs

abbrev some_ssh : List ServicePort → Bool
some_ssh [] = false
some_ssh (p ∷ ps) = is_ssh_port p || some_ssh ps

-- A port of the list or the given one, and one for ssh where the list has one.
abbrev Chosen : ServicePort → List ServicePort → ServicePort → Type 0
Chosen p ps chosen =
    ((chosen ≡ p) ⊎ IsPortOf chosen ps) × (some_ssh ps ≡ true → is_ssh_port chosen ≡ true)

ssh_port_or-Chosen : (p : ServicePort) (ps : List ServicePort) → Chosen p ps (ssh_port_or p ps)
ssh_port_or-Chosen p [] = (inl refl, λ h. ground (arith, h))
ssh_port_or-Chosen p (q ∷ qs) = elim (Bool-cases (is_ssh_port q)) [
  | inl ssh ↦
      let step : ssh_port_or p (q ∷ qs) ≡ q = ground (arith, ssh) in
      subst (Chosen p (q ∷ qs)) (sym step) (inr (inl refl), λ h. ssh)
  | inr other ↦
      let step : ssh_port_or p (q ∷ qs) ≡ ssh_port_or p qs = ground (arith, other) in
      let (held, ssh) = ssh_port_or-Chosen p qs in
      subst (Chosen p (q ∷ qs)) (sym step) (
        elim held [ inl e ↦ inl e | inr further ↦ inr (inr further) ],
        λ h. ssh (ground (arith, h, other)),
      )
]

-- The port that a service is reached at on a node.
abbrev pub NodePortOf : ℕ → Service → Type 0
NodePortOf n s =
    (n ≢ 0)
    × ((p : ServicePort) × IsPortOf p s.ports
        × (p.node_port ≡ n)
        × (some_ssh s.ports ≡ true → is_ssh_port p ≡ true))

ports-cases :
    (ps : List ServicePort)
    → (ps ≡ []) ⊎ ((p : ServicePort) × (qs : List ServicePort) × (ps ≡ p ∷ qs))
ports-cases [] = inl refl
ports-cases (p ∷ qs) = inr (p, qs, refl)

find_node_port-NodePortOf : (s : Service) (n : ℕ) → find_node_port s ≡ ok n → NodePortOf n s
unfolding find_node_port
find_node_port-NodePortOf s n h = elim (ports-cases s.ports) [
  | inl none_there ↦ let no : ⊥ = ground (arith, h, none_there) in elim no [ ]
  | inr (p, ps, e) ↦
      let port = ssh_port_or p (p ∷ ps) in
      let (held, ssh) = ssh_port_or-Chosen p (p ∷ ps) in
      let allocated : port.node_port ≡ n = ground (arith, h, e) in
      let there : IsPortOf port (p ∷ ps) = elim held [
        | inl same ↦ inl same
        | inr further ↦ further
      ] in
      (ground (arith, h, e), rw e (port, there, allocated, ssh))
]

abbrev pub first_event : List ServiceEvent → Option Service
first_event (some s ∷ events) = some s
first_event _ = none

abbrev pub has_node_ports : Service → Bool
has_node_ports s = str_eq s.type node_port_type || str_eq s.type load_balancer

-- The node port is not zero; it is a port of the service that the watch delivered first, and one for ssh
-- if the service has one; that service has node ports.
pub get_node_port-NodePortOf :
    (ns name ended : Bytes) (events : List ServiceEvent) (n : ℕ)
    → get_node_port ns name ended events ≡ ok n
    → (s : Service) × (first_event events ≡ some s) × (has_node_ports s ≡ true) × NodePortOf n s
unfolding get_node_port wait_for_node_port_service
get_node_port-NodePortOf ns name ended [] n h = cc
get_node_port-NodePortOf ns name ended (none ∷ events) n h = cc
get_node_port-NodePortOf ns name ended (some s ∷ events) n h =
    (s, refl, ground (arith, h), find_node_port-NodePortOf s n (ground (arith, h)))
