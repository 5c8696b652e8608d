-- ===== src/Pvc/Resolve.antt =====
-- What `newInfo` promises of the claims that it accepts.
use pv_migrate.Common.{
  ◌||◌, ◌&&◌, ◌≢◌, ◌⊎◌, ◌++◌, Bool, true, false, not, List, [], ◌∷◌, Option, none, some, Bytes,
  if◌then◌else◌, is_empty, ok, ok-injective, map_err, map_err-eq-ok, fail_if, fail_if-eq-ok,
  >>=-eq-ok, ◌≡◌, refl, ap, sym, ◌∙◌, arith, Bool-cases, inl, inr,
}
use pv_migrate.Pvc.{
  AccessMode, read_write_once_pod, read_write_once, read_only_many, read_write_many, other_mode,
  Modes, read_access_modes, read_modes_from, set_mode, elem, Cluster, Claim, Info, pin_nodes,
  resolve_topology, new_info, build_info, get_claim, mounted_once_pod, Pod, find_mounted, mounts,
  is_finished, find_mounted_pod, allowed_nodes_for,
}
use pv_migrate.Pvc.Nodes.{allows, allows-intersect_nodes, schedules, schedules-build_affinity}

-- The claim asks for a mode.
abbrev pub is_once : AccessMode → Bool
is_once read_write_once_pod = true
is_once read_write_once = true
is_once _ = false

abbrev pub is_once_pod : AccessMode → Bool
is_once_pod read_write_once_pod = true
is_once_pod _ = false

abbrev pub is_read_many : AccessMode → Bool
is_read_many read_only_many = true
is_read_many _ = false

abbrev pub is_write_many : AccessMode → Bool
is_write_many read_write_many = true
is_write_many _ = false

abbrev pub any {ℓ} : {A : Type ℓ} → (A → Bool) → List A → Bool
any p [] = false
any p (x ∷ xs) = p x || any p xs

-- The modes found so far, with those that a list asks for.
abbrev with_modes : Modes → List AccessMode → Modes
with_modes m modes = record {
  rwo = m.rwo || any is_once modes;
  rox = m.rox || any is_read_many modes;
  rwx = m.rwx || any is_write_many modes;
  rwop = m.rwop || any is_once_pod modes;
}

with_modes-set_mode :
    (m : Modes) (mode : AccessMode) (modes : List AccessMode)
    → with_modes (set_mode m mode) modes ≡ with_modes m (mode ∷ modes)
unfolding set_mode
with_modes-set_mode m read_write_once_pod modes = ground arith
with_modes-set_mode m read_write_once modes = ground arith
with_modes-set_mode m read_only_many modes = ground arith
with_modes-set_mode m read_write_many modes = ground arith
with_modes-set_mode m (other_mode x) modes = ground arith

read_modes_from_lem :
    (modes : List AccessMode) (m : Modes) → read_modes_from m modes ≡ with_modes m modes
unfolding read_modes_from
read_modes_from_lem [] m = ground arith
read_modes_from_lem (mode ∷ modes) m =
    read_modes_from_lem modes (set_mode m mode) ∙ with_modes-set_mode m mode modes

-- A claim supports a mode exactly if it asks for it, in any order and as often as it likes, and
-- the single-pod mode counts as the single-node one too.
pub read_access_modes_lem :
    (modes : List AccessMode)
    → read_access_modes modes ≡ record {
      rwo = any is_once modes;
      rox = any is_read_many modes;
      rwx = any is_write_many modes;
      rwop = any is_once_pod modes;
    }
unfolding read_access_modes
read_access_modes_lem modes = read_modes_from_lem modes _

module _ {Q : Type 0} (cluster : Cluster Q) where
  pin_nodes_lem :
      (c : Claim Q) (node : Bytes) (attached : Bool) (allowed al pin : Option (List Bytes))
      (n : Bytes)
      → pin_nodes cluster c node attached allowed ≡ ok (al, pin)
      → (al ≡ allowed)
        × (al ≢ some [])
        × (allows pin n ≡ (
            allows al n && (if not (is_empty node) && attached then elem n (node ∷ []) else true)))
  unfolding pin_nodes
  pin_nodes_lem c node attached none al pin n h = ground arith
  pin_nodes_lem c node attached (some []) al pin n h = cc
  pin_nodes_lem c node attached (some (x ∷ xs)) al pin n h =
      ground (arith, allows-intersect_nodes (some (x ∷ xs)) (some (node ∷ [])) n)

  -- What `newInfo` returns for a claim, the pod that mounts it and the nodes.
  record Resolved (c : Claim Q) (mounted : Bytes × Bytes) (reject : Bool) (i : Info Q)
      : Type 0 where
    nodes : Option (List Bytes) × Option (List Bytes)
    free : (reject && ((read_access_modes c.access_modes).rwop && not (is_empty mounted.1))) ≡ false
    topology :
        resolve_topology cluster c mounted.1
          (not (read_access_modes c.access_modes).rwx && not (read_access_modes c.access_modes).rox)
        ≡ ok nodes
    built : i ≡ build_info cluster c (read_access_modes c.access_modes) mounted nodes

  new_info-Resolved :
      (ns name : Bytes) (reject : Bool) {i : Info Q}
      → new_info cluster ns name reject ≡ ok i
      → (c : Claim Q) × (mounted : Bytes × Bytes) × (cluster.claim_of ns name ≡ ok c)
        × (find_mounted_pod cluster c ≡ ok mounted)
        × Resolved c mounted reject i
  unfolding new_info
  new_info-Resolved ns name reject {i} h =
      let (c, e, h₁) = >>=-eq-ok (map_err get_claim (cluster.claim_of ns name)) _ h in
      let (mounted, e', h₂) = >>=-eq-ok (find_mounted_pod cluster c) _ h₁ in
      let m = read_access_modes c.access_modes in
      let (u, e₃, h₃) =
        >>=-eq-ok
          (fail_if (reject && (m.rwop && not (is_empty mounted.1))) (mounted_once_pod ns name)) _
          h₂ in
      let (nodes, e₄, h₄) =
        >>=-eq-ok (resolve_topology cluster c mounted.1 (not m.rwx && not m.rox)) _ h₃ in
      (
        c,
        mounted,
        map_err-eq-ok get_claim _ e,
        e',
        record {
          nodes = nodes;
          free = fail_if-eq-ok _ _ e₃;
          topology = e₄;
          built = sym (ok-injective h₄);
        },
      )

  resolve_topology_lem :
      (c : Claim Q) (node : Bytes) (attached : Bool) (al pin : Option (List Bytes)) (n : Bytes)
      → resolve_topology cluster c node attached ≡ ok (al, pin)
      → (al ≢ some [])
        × (allows pin n ≡ (
            allows al n && (if not (is_empty node) && attached then elem n (node ∷ []) else true)))
  unfolding resolve_topology
  resolve_topology_lem c node attached al pin n h =
      let (allowed, e, h₁) = >>=-eq-ok (allowed_nodes_for cluster c) _ h in
      let (_, filled, exact) = pin_nodes_lem c node attached allowed al pin n h₁ in (filled, exact)

  -- A claim that `newInfo` accepts: its volume can be used on some node or is not constrained, and
  -- its pod is scheduled on exactly the nodes that the volume allows, and on no other node than
  -- the one that has the volume attached where only one node may attach it. A claim that is
  -- mounted and can be mounted by one pod only is not accepted where `New` asks.
  pub new_info_lem :
      (ns name : Bytes) (reject : Bool) {i : Info Q} (n : Bytes)
      → new_info cluster ns name reject ≡ ok i
      → (cluster.claim_of ns name ≡ ok i.claim)
        × (i.allowed_nodes ≢ some [])
        × (schedules i.affinity n ≡ (
            allows i.allowed_nodes n
            && (if not (is_empty i.mounted_node) && (not i.supports_rwx && not i.supports_rox)
                then elem n (i.mounted_node ∷ [])
                else true)))
        × ((reject && (any is_once_pod i.claim.access_modes && not (is_empty i.mounted_node)))
            ≡ false)
  unfolding build_info
  new_info_lem ns name reject {i} n h =
      let (c, mounted, e, e', r) = new_info-Resolved ns name reject h in
      let (filled, exact) = resolve_topology_lem c mounted.1 _ r.nodes.0 r.nodes.1 n r.topology in
      rw r.built (
        e,
        filled,
        schedules-build_affinity mounted.1 r.nodes.1 n ∙ exact,
        ap (λ b. reject && (b && not (is_empty mounted.1)))
              (sym (ap (λ q. q.rwop) (read_access_modes_lem c.access_modes)))
            ∙ r.free,
      )

-- The pod is not finished and one of its volumes is the claim.
abbrev pub uses : Bytes → Pod → Bool
uses claim pod = not (is_finished pod.phase) && mounts claim pod.volume_claims

-- The pod that has the claim mounted is the first one, in the order of the list, that is not
-- finished and names the claim; both answers are empty where there is none.
pub find_mounted_lem :
    (claim : Bytes) (pods : List Pod)
    → ((any (uses claim) pods ≡ false) × (find_mounted claim pods ≡ ([], [])))
      ⊎ ((before : List Pod) × (pod : Pod) × (after : List Pod) × (pods ≡ before ++ pod ∷ after)
          × (any (uses claim) before ≡ false)
          × (uses claim pod ≡ true)
          × (find_mounted claim pods ≡ (pod.pod_name, pod.node_name)))
unfolding find_mounted
find_mounted_lem claim [] = inl (refl, refl)
find_mounted_lem claim (pod ∷ pods) = elim (Bool-cases (uses claim pod)) [
  | inl e ↦ inr ([], pod, pods, refl, refl, e, ground arith)
  | inr e ↦ elim (find_mounted_lem claim pods) [
    | inl (a, f) ↦ inl (ground arith, ground arith)
    | inr (before, p, after, s, a, u, f) ↦
        inr (pod ∷ before, p, after, ap (λ r. pod ∷ r) s, ground arith, u, ground arith)
  ]
]
