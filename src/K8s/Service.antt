-- ===== src/K8s/Service.antt =====
-- The addresses of services and nodes (internal/k8s/service.go), over the events that a watch delivers: a
-- service, or an object that is none.
pub mod Found
use pv_migrate.Common.{
  ◌++◌, ℕ, Bool, true, false, ◌&&◌, ◌||◌, not, List, [], ◌∷◌, Option, none, some, Bytes, codes,
  is_empty, Result, ok, err, if◌then◌else◌, str_eq, ◌==◌,
}

pub record Ingress : Type 0 where
  pub hostname : Bytes
  pub ip : Bytes

pub record ServicePort : Type 0 where
  pub name : Bytes
  pub port : ℕ
  pub node_port : ℕ

pub record Service : Type 0 where
  pub uid : Bytes
  pub namespace : Bytes
  pub name : Bytes
  pub type : Bytes
  pub ports : List ServicePort
  pub ingress : List Ingress

abbrev pub cluster_ip : Bytes
cluster_ip = codes "ClusterIP"

abbrev pub node_port_type : Bytes
node_port_type = codes "NodePort"

abbrev pub load_balancer : Bytes
load_balancer = codes "LoadBalancer"

abbrev pub ServiceEvent : Type 0
ServiceEvent = Option Service

abbrev pub unexpected_service : Bytes → Bytes → Bytes
unexpected_service ns name =
    codes "unexpected type while watching service: " ++ (ns ++ (codes "/" ++ name))

-- The address that one service has by now.
unfoldable pub service_address : Service → Option Bytes
service_address s =
    if str_eq s.type cluster_ip
    then some (s.name ++ (codes "." ++ s.namespace))
    else elim s.ingress [
      | [] ↦ none
      | i ∷ more ↦ some (if not (is_empty i.hostname) then i.hostname else i.ip)
    ]

abbrev pub address_error : Bytes → Bytes → Bytes → Bytes
address_error ns name e =
    codes "failed to get service " ++ (ns ++ (codes "/" ++ (name ++ (codes " address: " ++ e))))

-- `GetServiceAddress`; `ended` is the error of a watch that no event ends.
unfoldable pub get_service_address :
    Bytes → Bytes → (ended : Bytes) → List ServiceEvent → Result Bytes Bytes
get_service_address ns name ended [] = err (address_error ns name ended)
get_service_address ns name ended (none ∷ events) =
    err (address_error ns name (unexpected_service ns name))
get_service_address ns name ended (some s ∷ events) = elim (service_address s) [
  | some address ↦ ok address
  | none ↦ get_service_address ns name ended events
]

abbrev pub node_port_error : Bytes → Bytes → Bytes → Bytes
node_port_error ns name e =
    codes "failed to get NodePort service "
    ++ (ns ++ (codes "/" ++ (name ++ (codes " details: " ++ e))))

-- `waitForNodePortService`: the first event decides.
unfoldable pub wait_for_node_port_service :
    Bytes → Bytes → (ended : Bytes) → List ServiceEvent → Result Bytes Service
wait_for_node_port_service ns name ended [] = err (node_port_error ns name ended)
wait_for_node_port_service ns name ended (none ∷ events) =
    err (node_port_error ns name (unexpected_service ns name))
wait_for_node_port_service ns name ended (some s ∷ events) =
    if not (str_eq s.type node_port_type) && not (str_eq s.type load_balancer)
    then err (
        node_port_error ns name (
          codes "service "
          ++ (ns
              ++ (codes "/"
                  ++ (name
                      ++ (codes " is of type " ++ (s.type ++ codes " and has no node port")))))))
    else ok s

abbrev pub is_ssh_port : ServicePort → Bool
is_ssh_port p = str_eq p.name (codes "ssh") || p.port == 22

-- The first port for ssh, or the given one.
abbrev pub ssh_port_or : ServicePort → List ServicePort → ServicePort
ssh_port_or default [] = default
ssh_port_or default (p ∷ ps) = if is_ssh_port p then p else ssh_port_or default ps

-- `findNodePort`
unfoldable pub find_node_port : Service → Result Bytes ℕ
find_node_port s = elim s.ports [
  | [] ↦ err (codes "service has no ports defined")
  | p ∷ ps ↦
      let port = ssh_port_or p (p ∷ ps) in
      if port.node_port == 0
      then err (
          codes "service "
          ++ (s.namespace ++ (codes "/" ++ (s.name ++ codes " has no node port allocated"))))
      else ok port.node_port
]

-- `GetNodePort`
unfoldable pub get_node_port : Bytes → Bytes → (ended : Bytes) → List ServiceEvent → Result Bytes ℕ
get_node_port ns name ended events = elim (wait_for_node_port_service ns name ended events) [
  | err e ↦ err e
  | ok s ↦ find_node_port s
]

pub record NodeAddress : Type 0 where
  pub type : Bytes
  pub address : Bytes

-- The first internal or external address.
unfoldable pub usable_address : List NodeAddress → Option Bytes
usable_address [] = none
usable_address (a ∷ rest) =
    if str_eq a.type (codes "InternalIP") || str_eq a.type (codes "ExternalIP")
    then some a.address
    else usable_address rest

-- `GetNodeIP`
unfoldable pub get_node_ip : Bytes → Result Bytes (List NodeAddress) → Result Bytes Bytes
get_node_ip node_name (err e) =
    err (codes "failed to get node " ++ (node_name ++ (codes ": " ++ e)))
get_node_ip node_name (ok addresses) = elim (usable_address addresses) [
  | some address ↦ ok address
  | none ↦ err (codes "node " ++ (node_name ++ codes " has no usable IP address"))
]

abbrev pub any_address : List (List NodeAddress) → Result Bytes Bytes
any_address [] = err (codes "no node with a usable IP address found")
any_address (n ∷ ns) = elim (usable_address n) [ some address ↦ ok address | none ↦ any_address ns ]

-- `GetAnyNodeIP`
unfoldable pub get_any_node_ip : Result Bytes (List (List NodeAddress)) → Result Bytes Bytes
get_any_node_ip (err e) = err (codes "failed to list nodes: " ++ e)
get_any_node_ip (ok nodes) = any_address nodes
