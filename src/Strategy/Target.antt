-- ===== src/Strategy/Target.antt =====
-- internal/strategy/loadbalancer.go and nodeport.go: the address at which the other side's sshd is reached.
-- Reading an address as IPv6 is net/netip's, and an argument.
pub mod Reached
mod Tests
use pv_migrate.Common.{
  ◌++◌, ℕ, Bool, true, false, not, List, [], ◌∷◌, Option, none, some, Bytes, codes, is_empty,
  Result, ok, err, if◌then◌else◌, map_err,
}
use pv_migrate.K8s.Service.{
  ServiceEvent, NodeAddress, get_service_address, get_node_port, get_node_ip, get_any_node_ip,
}

-- `sshTarget`; a port of zero is none.
pub record SshTarget : Type 0 where
  pub host : Bytes
  pub port : ℕ

-- `formatSSHTargetHost`
unfoldable pub format_ssh_target_host : (is_ipv6 : Bytes → Bool) → Bytes → Bytes
format_ssh_target_host is_ipv6 host =
    if is_ipv6 host then codes "[" ++ (host ++ codes "]") else host

-- What the cluster of the sshd side answers, and the request's override of the host. `sshd_node` is the node
-- of the release's sshd pod; `nodes` are the addresses of all nodes.
pub record TargetAnswers : Type 0 where
  pub namespace : Bytes
  pub service_name : Bytes
  pub dest_host_override : Bytes
  pub service_error : Option Bytes
  pub address_events : List ServiceEvent
  pub address_ended : Bytes
  pub interrupted : Bool
  pub port_events : List ServiceEvent
  pub port_ended : Bytes
  pub sshd_node : Result Bytes Bytes
  pub node : Bytes → Result Bytes (List NodeAddress)
  pub nodes : Result Bytes (List (List NodeAddress))

-- The address of the pod's node, or of any node.
abbrev pub node_address : TargetAnswers → Bytes → Result Bytes Bytes
node_address a name = elim (get_node_ip name (a.node name)) [
  | ok ip ↦ ok ip
  | err e ↦ map_err (λ f. codes "failed to find usable node IP: " ++ f) (get_any_node_ip a.nodes)
]

module _ (is_ipv6 : Bytes → Bool) where
  abbrev pub at_node : TargetAnswers → ℕ → Result Bytes SshTarget
  at_node a port = elim a.sshd_node [
    | err e ↦ err (codes "failed to get sshd pod: " ++ e)
    | ok name ↦ elim (node_address a name) [
      | err e ↦ err e
      | ok ip ↦ ok (record { host = format_ssh_target_host is_ipv6 ip; port = port })
    ]
  ]

  -- `resolveNodePortTarget`
  unfoldable pub resolve_node_port_target : TargetAnswers → Result Bytes SshTarget
  resolve_node_port_target a =
      elim (get_node_port a.namespace a.service_name a.port_ended a.port_events) [
        | err e ↦ err (codes "failed to get NodePort: " ++ e)
        | ok port ↦
            if not (is_empty a.dest_host_override)
            then ok (record { host = []; port = port })
            else at_node a port
      ]

  -- `resolveLBTarget`
  unfoldable pub resolve_lb_target : TargetAnswers → Result Bytes SshTarget
  resolve_lb_target a = elim a.service_error [
    | some e ↦ err (
        codes "failed to get service "
        ++ (a.namespace ++ (codes "/" ++ (a.service_name ++ (codes ": " ++ e)))))
    | none ↦
        elim (get_service_address a.namespace a.service_name a.address_ended a.address_events) [
          | ok address ↦ ok (record { host = format_ssh_target_host is_ipv6 address; port = 0 })
          | err e ↦
              if a.interrupted
              then err e
              else map_err (λ f. e ++ (codes ", and the node port fallback failed: " ++ f))
                  (resolve_node_port_target a)
        ]
  ]

  -- The host that the strategies connect to: the override, where there is one.
  unfoldable pub ssh_target_host : (dest_host_override : Bytes) → Bytes → Bytes
  ssh_target_host dest_host_override host =
      if is_empty dest_host_override
      then host
      else format_ssh_target_host is_ipv6 dest_host_override
