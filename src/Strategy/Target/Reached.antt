-- ===== src/Strategy/Target/Reached.antt =====
-- Where a target comes from.
use pv_migrate.Common.{
  ◌++◌, ℕ, Bool, false, [], none, some, Bytes, codes, is_empty, ok, ◌≡◌, arith, Result-cases,
  Option-cases, Bool-cases, inl, inr, ◌⊎◌, sym, ◌∙◌, subst, map_err-eq-ok,
}
use pv_migrate.K8s.Service.{
  get_service_address, get_node_port, get_node_ip, get_any_node_ip, Service,
}
use pv_migrate.K8s.Service.Found.{
  first_address, get_service_address-first_address, NodePortOf, get_node_port-NodePortOf,
  first_event,
}
use pv_migrate.Strategy.Target.{
  SshTarget, format_ssh_target_host, TargetAnswers, node_address, at_node, resolve_node_port_target,
  resolve_lb_target,
}

-- A bracketed host is no bare address, so formatting twice is formatting once.
pub format_ssh_target_host_idempotent :
    (is_ipv6 : Bytes → Bool) (host : Bytes)
    → is_ipv6 (codes "[" ++ (host ++ codes "]")) ≡ false
    → format_ssh_target_host is_ipv6 (format_ssh_target_host is_ipv6 host)
      ≡ format_ssh_target_host is_ipv6 host
unfolding format_ssh_target_host
format_ssh_target_host_idempotent is_ipv6 host bracketed = elim (Bool-cases (is_ipv6 host)) [
  | inl six ↦ ground (arith, six, bracketed)
  | inr other ↦ ground (arith, other)
]

module _ (is_ipv6 : Bytes → Bool) (a : TargetAnswers) where
  -- The host of a node-port target: left to the override, or an address of the pod's node, or, where that
  -- has none, of any node.
  abbrev pub HostOf : Bytes → Type 0
  HostOf host =
      ((is_empty a.dest_host_override ≡ false) × (host ≡ []))
      ⊎ ((name ip : Bytes) × (a.sshd_node ≡ ok name)
          × (host ≡ format_ssh_target_host is_ipv6 ip)
          × ((get_node_ip name (a.node name) ≡ ok ip) ⊎ (get_any_node_ip a.nodes ≡ ok ip)))

  -- A node-port target's port is a node port of the service that was seen first, and its host as said.
  abbrev pub NodePortTarget : SshTarget → Type 0
  NodePortTarget t =
      ((s : Service) × (first_event a.port_events ≡ some s) × NodePortOf t.port s) × HostOf t.host

  node_address-of :
      (name ip : Bytes)
      → node_address a name ≡ ok ip
      → (get_node_ip name (a.node name) ≡ ok ip) ⊎ (get_any_node_ip a.nodes ≡ ok ip)
  node_address-of name ip h = elim (Result-cases (get_node_ip name (a.node name))) [
    | inr (this, found) ↦ inl (found ∙ ground (arith, h, found))
    | inl (e, missing) ↦ elim (Result-cases (get_any_node_ip a.nodes)) [
      | inr (that, found) ↦ inr (found ∙ ground (arith, h, missing, found))
      | inl (f, none_there) ↦ let no : ⊥ = ground (arith, h, missing, none_there) in elim no [ ]
    ]
  ]

  at_node-HostOf :
      (port : ℕ) (t : SshTarget) → at_node is_ipv6 a port ≡ ok t → (t.port ≡ port) × HostOf t.host
  at_node-HostOf port t h = elim (Result-cases a.sshd_node) [
    | inl (e, failed) ↦ let no : ⊥ = ground (arith, h, failed) in elim no [ ]
    | inr (name, pod) ↦ elim (Result-cases (node_address a name)) [
      | inl (e, failed) ↦ let no : ⊥ = ground (arith, h, pod, failed) in elim no [ ]
      | inr (ip, found) ↦ (
        ground (arith, h, pod, found),
        inr (name, ip, pod, ground (arith, h, pod, found), node_address-of name ip found),
      )
    ]
  ]

  resolve_node_port_target-NodePortTarget :
      (t : SshTarget) → resolve_node_port_target is_ipv6 a ≡ ok t → NodePortTarget t
  unfolding resolve_node_port_target
  resolve_node_port_target-NodePortTarget t h =
      elim (Result-cases (get_node_port a.namespace a.service_name a.port_ended a.port_events)) [
        | inl (e, failed) ↦ let no : ⊥ = ground (arith, h, failed) in elim no [ ]
        | inr (port, found) ↦
            let (s, first, kind, is_port) =
              get_node_port-NodePortOf a.namespace a.service_name a.port_ended a.port_events port
                found in
            elim (Bool-cases (is_empty a.dest_host_override)) [
              | inr override ↦
                  let same : port ≡ t.port = ground (arith, h, found, override) in
                  (
                    (s, first, subst (λ n. NodePortOf n s) same is_port),
                    inl (override, ground (arith, h, found, override)),
                  )
              | inl plain ↦
                  let (same, host) = at_node-HostOf port t (ground (arith, h, found, plain)) in
                  ((s, first, subst (λ n. NodePortOf n s) (sym same) is_port), host)
            ]
      ]

  -- A load balancer's target is the first address that its service gets, with no port; the node port stands
  -- in only for a service that could be read and got no address, in a run that was not interrupted.
  pub resolve_lb_target-reached :
      (t : SshTarget)
      → resolve_lb_target is_ipv6 a ≡ ok t
      → (a.service_error ≡ none)
        × (((address : Bytes) × (first_address a.address_events ≡ some address)
              × (t ≡ record { host = format_ssh_target_host is_ipv6 address; port = 0 }))
            ⊎ ((first_address a.address_events ≡ none)
                × (a.interrupted ≡ false)
                × NodePortTarget t))
  unfolding resolve_lb_target
  resolve_lb_target-reached t h =
      let asked =
        get_service_address-first_address a.namespace a.service_name a.address_ended
          a.address_events in
      elim (Option-cases a.service_error) [
        | inr (e, failed) ↦ let no : ⊥ = ground (arith, h, failed) in elim no [ ]
        | inl fine ↦
            elim (Result-cases
              (get_service_address a.namespace a.service_name a.address_ended a.address_events)) [
                | inr (address, found) ↦ (
                  fine,
                  inl (address, ground (arith, asked, found), ground (arith, h, fine, found)),
                )
                | inl (e, missing) ↦ elim (Bool-cases a.interrupted) [
                  | inl stopped ↦
                      let no : ⊥ = ground (arith, h, fine, missing, stopped) in elim no [ ]
                  | inr going ↦ (
                    fine,
                    inr (
                      ground (arith, asked, missing),
                      going,
                      resolve_node_port_target-NodePortTarget t (
                          map_err-eq-ok
                            (λ f. e ++ (codes ", and the node port fallback failed: " ++ f))
                            (resolve_node_port_target is_ipv6 a)
                            (ground (arith, h, fine, missing, going))),
                    ),
                  )
                ]
              ]
      ]
