-- ===== src/Strategy/Target/Tests.antt =====
-- Tests and examples of targets.
use pv_migrate.Common.{
  Bool, false, [], ◌∷◌, none, some, Bytes, codes, ok, err, ◌≡◌, refl, ◌⊎◌, str_eq,
}
use pv_migrate.K8s.Service.{
  Service, load_balancer, get_service_address, service_address, get_node_port,
  wait_for_node_port_service, find_node_port, get_node_ip, usable_address,
}
use pv_migrate.K8s.Service.Found.{first_address}
use pv_migrate.Strategy.Target.{
  SshTarget, TargetAnswers, format_ssh_target_host, resolve_lb_target, resolve_node_port_target,
}
use pv_migrate.Strategy.Target.Reached.{NodePortTarget, resolve_lb_target-reached}

-- A service of a cluster that has no load balancers.
abbrev pending_service : Service
pending_service = record {
  uid = [];
  namespace = codes "ns";
  name = codes "m-src-sshd";
  type = load_balancer;
  ports = record { name = codes "ssh"; port = 22; node_port = 30022 } ∷ [];
  ingress = [];
}

abbrev answers : TargetAnswers
answers = record {
  namespace = codes "ns";
  service_name = codes "m-src-sshd";
  dest_host_override = [];
  service_error = none;
  address_events = some pending_service ∷ [];
  address_ended = codes "timed out";
  interrupted = false;
  port_events = some pending_service ∷ [];
  port_ended = [];
  sshd_node = ok (codes "n1");
  node = λ name. ok (record { type = codes "InternalIP"; address = codes "10.0.0.7" } ∷ []);
  nodes = err [];
}

abbrev is_ipv6 : Bytes → Bool
is_ipv6 s = false

abbrev node_target : SshTarget
node_target = record { host = codes "10.0.0.7"; port = 30022 }

falls_back : resolve_lb_target is_ipv6 answers ≡ ok node_target
unfolding resolve_lb_target get_service_address service_address str_eq resolve_node_port_target
    get_node_port wait_for_node_port_service find_node_port get_node_ip usable_address
    format_ssh_target_host
falls_back = refl

resolve_lb_target-reached_example :
    (answers.service_error ≡ none)
    × (((address : Bytes) × (first_address answers.address_events ≡ some address)
          × (node_target ≡ record { host = format_ssh_target_host is_ipv6 address; port = 0 }))
        ⊎ ((first_address answers.address_events ≡ none)
            × (answers.interrupted ≡ false)
            × NodePortTarget is_ipv6 answers node_target))
resolve_lb_target-reached_example = resolve_lb_target-reached is_ipv6 answers node_target falls_back
