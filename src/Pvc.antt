-- ===== src/Pvc.antt =====
-- internal/pvc/info.go: what is known of a claim before a migration, and the nodes that a pod using
-- it may land on. The Kubernetes API is a parameter: a cluster answers each request.
pub mod Nodes
pub mod Resolve
mod Tests
use pv_migrate.Common.{
  ℕ, ◌||◌, ◌&&◌, Bool, true, false, not, List, [], ◌∷◌, Option, none, some, Bytes, codes, str_eq,
  if◌then◌else◌, is_empty, Result, ok, err, ◌>>=◌, ◌>>◌, map_err, fail_if,
}

pub data AccessMode : Type 0 where
  read_write_once_pod read_write_once read_only_many read_write_many : AccessMode
  other_mode : Bytes → AccessMode

pub data Phase : Type 0 where
  pending running succeeded failed unknown : Phase

-- The fields of a claim that the code reads, over the type of storage quantities. A missing
-- annotation reads as the empty string, and a missing request as the zero quantity.
pub record Claim (Q : Type 0) : Type 0 where
  pub namespace : Bytes
  pub name : Bytes
  pub access_modes : List AccessMode
  pub capacity : Option Q
  pub requested : Q
  pub provisioner_annotation : Bytes
  pub beta_provisioner_annotation : Bytes
  pub storage_class_name : Option Bytes
  pub volume_name : Bytes

-- A pod: its volumes are given by the claim each one names, if it names one.
pub record Pod : Type 0 where
  pub pod_name : Bytes
  pub node_name : Bytes
  pub phase : Phase
  pub volume_claims : List (Option Bytes)

pub data ApiError : Type 0 where
  not_found forbidden : ApiError
  api_failure : Bytes → ApiError

pub data InfoError : Type 0 where
  get_claim list_pods get_volume read_affinity list_nodes get_storage_class : ApiError → InfoError
  mounted_once_pod no_node_left : Bytes → Bytes → InfoError

-- What a cluster answers. `get_volume` gives the selector of the volume's required node affinity,
-- if it has one; building a selector can fail; `matches` is the node affinity helper's `Match`.
pub record Cluster (Q : Type 0) : Type 1 where
  pub Affinity : Type 0
  pub Selector : Type 0
  pub Node : Type 0
  pub claim_of : Bytes → Bytes → Result ApiError (Claim Q)
  pub pods_of : Bytes → Result ApiError (List Pod)
  pub volume_of : Bytes → Result ApiError (Option Affinity)
  pub selector_of : Affinity → Result ApiError Selector
  pub nodes : Result ApiError (List Node)
  pub name_of : Node → Bytes
  pub matches : Selector → Node → Bool
  pub provisioner_of : Bytes → Result ApiError Bytes

-- `readAccessModes`: the four answers.
pub record Modes : Type 0 where
  pub rwo : Bool
  pub rox : Bool
  pub rwx : Bool
  pub rwop : Bool

set_mode : Modes → AccessMode → Modes
set_mode m read_write_once_pod = record m { rwo = true; rwop = true }
set_mode m read_write_once = record m { rwo = true }
set_mode m read_only_many = record m { rox = true }
set_mode m read_write_many = record m { rwx = true }
set_mode m (other_mode _) = m

read_modes_from : Modes → List AccessMode → Modes
unfolding set_mode
read_modes_from m [] = m
read_modes_from m (mode ∷ modes) = read_modes_from (set_mode m mode) modes

-- `readAccessModes`
unfoldable pub read_access_modes : List AccessMode → Modes
unfolding read_modes_from
read_access_modes = read_modes_from (record { rwo = false; rox = false; rwx = false; rwop = false })

abbrev pub is_finished : Phase → Bool
is_finished succeeded = true
is_finished failed = true
is_finished _ = false

-- The inner loop of `findMountedPod`.
unfoldable pub mounts : Bytes → List (Option Bytes) → Bool
unfolding str_eq
mounts claim [] = false
mounts claim (none ∷ volumes) = mounts claim volumes
mounts claim (some c ∷ volumes) = str_eq c claim || mounts claim volumes

-- The outer loop of `findMountedPod`: the pod and its node, empty when there is none.
unfoldable pub find_mounted : Bytes → List Pod → Bytes × Bytes
unfolding mounts
find_mounted claim [] = ([], [])
find_mounted claim (pod ∷ pods) =
    let rest = find_mounted claim pods in
    if is_finished pod.phase
    then rest
    else if mounts claim pod.volume_claims
    then (pod.pod_name, pod.node_name)
    else rest

abbrev pub elem : Bytes → List Bytes → Bool
elem x [] = false
elem x (y ∷ ys) = str_eq x y || elem x ys

-- The nodes of the second list that the first allows.
unfoldable pub keep_allowed : List Bytes → List Bytes → List Bytes
keep_allowed first [] = []
keep_allowed first (n ∷ second) =
    let rest = keep_allowed first second in if elem n first then n ∷ rest else rest

-- `IntersectNodes`; `none` is the nil constraint.
unfoldable pub intersect_nodes : Option (List Bytes) → Option (List Bytes) → Option (List Bytes)
unfolding keep_allowed
intersect_nodes none second = second
intersect_nodes (some first) none = some first
intersect_nodes (some first) (some second) = some (keep_allowed first second)

-- A match on a node field, of a node selector term.
pub record FieldMatch : Type 0 where
  pub key : Bytes
  pub operator : Bytes
  pub values : List Bytes

pub data Affinity : Type 0 where
  required : List FieldMatch → Affinity
  preferred : ℕ → FieldMatch → Affinity

abbrev pub name_match : Bytes → FieldMatch
name_match node = record { key = codes "metadata.name"; operator = codes "In"; values = node ∷ [] }

name_matches : List Bytes → List FieldMatch
name_matches [] = []
name_matches (node ∷ nodes) = name_match node ∷ name_matches nodes

-- `RequireNodes`: one term for each node.
unfoldable pub require_nodes : Option (List Bytes) → Option Affinity
unfolding name_matches
require_nodes none = none
require_nodes (some nodes) = some (required (name_matches nodes))

-- `buildAffinityHelmValues`
unfoldable pub build_affinity : Bytes → Option (List Bytes) → Option Affinity
unfolding require_nodes
build_affinity mounted_node (some nodes) = require_nodes (some nodes)
build_affinity mounted_node none =
    if is_empty mounted_node then none else some (preferred 100 (name_match mounted_node))

pub record Info (Q : Type 0) : Type 0 where
  pub claim : Claim Q
  pub mounted_node : Bytes
  pub allowed_nodes : Option (List Bytes)
  pub pinned_nodes : Option (List Bytes)
  pub mounted_pod : Bytes
  pub affinity : Option Affinity
  pub supports_rwo : Bool
  pub supports_rox : Bool
  pub supports_rwx : Bool

module _ {Q : Type 0} (cluster : Cluster Q) where
  -- `volumeNodeSelector`; `none` where the topology cannot be read or there is none.
  unfoldable pub volume_node_selector : Claim Q → Result InfoError (Option cluster.Selector)
  volume_node_selector c = elim (cluster.volume_of c.volume_name) [
    | err not_found ↦ ok none
    | err forbidden ↦ ok none
    | err (api_failure m) ↦ err (get_volume (api_failure m))
    | ok none ↦ ok none
    | ok (some a) ↦ elim (cluster.selector_of a) [
      | err e ↦ err (read_affinity e)
      | ok s ↦ ok (some s)
    ]
  ]

  unfoldable pub matching_names : cluster.Selector → List cluster.Node → List Bytes
  matching_names s [] = []
  matching_names s (n ∷ ns) =
      let rest = matching_names s ns in
      if cluster.matches s n then cluster.name_of n ∷ rest else rest

  unfoldable pub selected_nodes : Option cluster.Selector → Result InfoError (Option (List Bytes))
  unfolding matching_names
  selected_nodes none = ok none
  selected_nodes (some s) = elim cluster.nodes [
    | err forbidden ↦ ok none
    | err not_found ↦ err (list_nodes not_found)
    | err (api_failure m) ↦ err (list_nodes (api_failure m))
    | ok ns ↦ ok (some (matching_names s ns))
  ]

  -- `AllowedNodesFor`
  unfoldable pub allowed_nodes_for : Claim Q → Result InfoError (Option (List Bytes))
  unfolding volume_node_selector selected_nodes
  allowed_nodes_for c =
      if is_empty c.volume_name then ok none else (do s ← volume_node_selector c; selected_nodes s)

  -- What `resolveTopology` does with the allowed nodes.
  unfoldable pub pin_nodes :
      Claim Q
      → Bytes
      → Bool
      → Option (List Bytes)
      → Result InfoError (Option (List Bytes) × Option (List Bytes))
  unfolding intersect_nodes
  pin_nodes c mounted_node attached (some []) = err (no_node_left c.namespace c.name)
  pin_nodes c mounted_node attached allowed = ok (
    allowed,
    (if not (is_empty mounted_node) && attached
        then intersect_nodes allowed (some (mounted_node ∷ []))
        else allowed),
  )

  -- `resolveTopology`: what the volume allows, and that narrowed by where it is attached.
  unfoldable pub resolve_topology :
      Claim Q → Bytes → Bool → Result InfoError (Option (List Bytes) × Option (List Bytes))
  unfolding allowed_nodes_for pin_nodes
  resolve_topology c mounted_node attached_to_one_node = do
    allowed ← allowed_nodes_for c
    pin_nodes c mounted_node attached_to_one_node allowed

  -- `findMountedPod`
  unfoldable pub find_mounted_pod : Claim Q → Result InfoError (Bytes × Bytes)
  unfolding find_mounted
  find_mounted_pod c = do
    pods ← map_err list_pods (cluster.pods_of c.namespace)
    ok (find_mounted c.name pods)

  build_info : Claim Q → Modes → Bytes × Bytes → Option (List Bytes) × Option (List Bytes) → Info Q
  unfolding build_affinity
  build_info c m (pod, node) (allowed, pinned) = record {
    claim = c;
    mounted_node = node;
    allowed_nodes = allowed;
    pinned_nodes = pinned;
    mounted_pod = pod;
    affinity = build_affinity node pinned;
    supports_rwo = m.rwo;
    supports_rox = m.rox;
    supports_rwx = m.rwx;
  }

  -- `newInfo`
  unfoldable pub new_info : Bytes → Bytes → Bool → Result InfoError (Info Q)
  unfolding find_mounted_pod resolve_topology build_info read_access_modes
  new_info ns name reject_mounted_rwop = do
    c ← map_err get_claim (cluster.claim_of ns name)
    mounted ← find_mounted_pod c
    let m = read_access_modes c.access_modes
    fail_if (reject_mounted_rwop && (m.rwop && not (is_empty mounted.1))) (mounted_once_pod ns name)
    topology ← resolve_topology c mounted.1 (not m.rwx && not m.rox)
    ok (build_info c m mounted topology)

class_provisioner : (Bytes → Result ApiError Bytes) → Option Bytes → Result InfoError Bytes
class_provisioner provisioner_of none = ok []
class_provisioner provisioner_of (some []) = ok []
class_provisioner provisioner_of (some (c ∷ s)) = elim (provisioner_of (c ∷ s)) [
  | err e ↦ err (get_storage_class e)
  | ok p ↦ ok p
]

-- `Provisioner`, over the cluster's answer for a storage class.
unfoldable pub provisioner :
    {Q : Type 0} → (Bytes → Result ApiError Bytes) → Claim Q → Result InfoError Bytes
unfolding class_provisioner
provisioner provisioner_of c =
    if not (is_empty c.provisioner_annotation)
    then ok c.provisioner_annotation
    else if not (is_empty c.beta_provisioner_annotation)
    then ok c.beta_provisioner_annotation
    else class_provisioner provisioner_of c.storage_class_name

-- `Size`, over the quantities' own test for zero.
unfoldable pub size : {Q : Type 0} → (Q → Bool) → Claim Q → Q
size is_zero c = elim c.capacity [
  | none ↦ c.requested
  | some q ↦ if is_zero q then c.requested else q
]

module _ {Q : Type 0} (cluster : Cluster Q) where
  -- `New`
  unfoldable pub new : Bytes → Bytes → Result InfoError (Info Q)
  unfolding new_info
  new ns name = new_info cluster ns name true

  -- `NewSource`
  unfoldable pub new_source : Bytes → Bytes → Result InfoError (Info Q)
  unfolding new_info
  new_source ns name = new_info cluster ns name false
