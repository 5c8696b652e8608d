-- ===== src/Strategy/Mover/Paths.antt =====
-- What the command of a mover works on, and whose exit codes go with it.
use pv_migrate.Common.{
  ◌++◌, ◌||◌, Bool, true, List, Bytes, codes, ok, map_err, ◌≡◌, ap, sym, ◌∙◌, ◌⊎◌, inl, inr,
  >>=-eq-ok, map_err-eq-ok, ok-injective, ℤ, All, IsName,
}
use pv_migrate.Rsync
use pv_migrate.Archive.Transfer.{TransferCmd}
use pv_migrate.Archive.Transfer
use pv_migrate.Strategy.Paths.{
  resolve_mount_paths, src_mount_path, dest_mount_path, with_slash, wants_contents,
}
use pv_migrate.Strategy.Paths.Safety.{resolve_mount_paths-below, below, is_root}
use pv_migrate.Strategy.Mover.{
  Kind, rsync, tar, MoverRequest, MoverCommand, mover_kind, check_tar_flags, rsync_policy,
  tar_policy, by_kind, bad_path, bad_rsync, bad_tar, rsync_over_ssh, tar_over_ssh, rsync_mounted,
  tar_mounted, rsync_in_session, build_mover_cmd_ssh, build_mover_cmd_local,
  build_mover_cmd_ssh_session,
}

-- The path is the mount point or lies below it, name by name, and ends in a slash exactly for the
-- mount point and for contents.
abbrev pub IsInside : Bytes → Bytes → Bytes → Type 0
IsInside mount sub path =
    (parts : List Bytes) × All IsName parts
    × (path ≡ with_slash (is_root parts || wants_contents sub) (mount ++ below parts))

-- The command is rsync's on these paths with rsync's exit codes, or tar's with tar's, as the request
-- says.
abbrev pub IsBuilt :
    MoverRequest
    → (Bytes → Bytes → Rsync.Cmd)
    → (Bytes → Bytes → TransferCmd)
    → Bytes
    → Bytes
    → MoverCommand
    → Type 0
IsBuilt r rsync_cmd tar_cmd src dest m =
    ((mover_kind r.mover ≡ ok rsync)
      × (Rsync.build (rsync_cmd src dest) ≡ ok m.command)
      × (m.policy ≡ rsync_policy))
    ⊎ ((mover_kind r.mover ≡ ok tar)
        × (Transfer.build (tar_cmd src dest) ≡ ok m.command)
        × (m.policy ≡ tar_policy))

abbrev pub IsSafe :
    MoverRequest
    → (Bytes → Bytes → Rsync.Cmd)
    → (Bytes → Bytes → TransferCmd)
    → MoverCommand
    → Type 0
IsSafe r rsync_cmd tar_cmd m =
    (src : Bytes) × (dest : Bytes) × IsInside src_mount_path r.source_path src
    × IsInside dest_mount_path r.dest_path dest
    × IsBuilt r rsync_cmd tar_cmd src dest m

inside :
    (r : MoverRequest) (src dest : Bytes)
    → resolve_mount_paths r.source_path r.dest_path ≡ ok (src, dest)
    → IsInside src_mount_path r.source_path src × IsInside dest_mount_path r.dest_path dest
inside r src dest h =
    let (s, d, hs, hd, es, ed) = resolve_mount_paths-below r.source_path r.dest_path h in
    ((s, hs, es), (d, hd, ed))

by_kind-IsSafe :
    (r : MoverRequest) (rsync_cmd : Bytes → Bytes → Rsync.Cmd)
    (tar_cmd : Bytes → Bytes → TransferCmd) (kind : Kind) {m : MoverCommand}
    → mover_kind r.mover ≡ ok kind
    → by_kind r rsync_cmd tar_cmd kind ≡ ok m
    → IsSafe r rsync_cmd tar_cmd m
by_kind-IsSafe r rsync_cmd tar_cmd rsync k h =
    let (paths, e, h₁) =
      >>=-eq-ok (map_err bad_path (resolve_mount_paths r.source_path r.dest_path)) _ h in
    let (built, e₁, h₂) =
      >>=-eq-ok (map_err bad_rsync (Rsync.build (rsync_cmd paths.0 paths.1))) _ h₁ in
    let same = ok-injective h₂ in
    let (s, d) = inside r paths.0 paths.1 (map_err-eq-ok bad_path _ e) in
    (
      paths.0,
      paths.1,
      s,
      d,
      inl (
        k,
        map_err-eq-ok bad_rsync _ e₁ ∙ ap (λ (x : MoverCommand). ok x.command) same,
        sym (ap (λ (x : MoverCommand). x.policy) same),
      ),
    )
by_kind-IsSafe r rsync_cmd tar_cmd tar k h =
    let (u, e₀, h₀) = >>=-eq-ok (check_tar_flags r.rsync_extra_args) _ h in
    let (paths, e, h₁) =
      >>=-eq-ok (map_err bad_path (resolve_mount_paths r.source_path r.dest_path)) _ h₀ in
    let (built, e₁, h₂) =
      >>=-eq-ok (map_err bad_tar (Transfer.build (tar_cmd paths.0 paths.1))) _ h₁ in
    let same = ok-injective h₂ in
    let (s, d) = inside r paths.0 paths.1 (map_err-eq-ok bad_path _ e) in
    (
      paths.0,
      paths.1,
      s,
      d,
      inr (
        k,
        map_err-eq-ok bad_tar _ e₁ ∙ ap (λ (x : MoverCommand). ok x.command) same,
        sym (ap (λ (x : MoverCommand). x.policy) same),
      ),
    )

-- The command of a transfer over ssh reads and writes only inside the two mounts, and its exit
-- codes are read by the policy of the program that runs.
pub build_mover_cmd_ssh-IsSafe :
    (r : MoverRequest) (push : Bool) (host : Bytes) (port : ℤ) {m : MoverCommand}
    → build_mover_cmd_ssh r push host port ≡ ok m
    → IsSafe r (rsync_over_ssh r push host port) (tar_over_ssh r push host port) m
unfolding build_mover_cmd_ssh
build_mover_cmd_ssh-IsSafe r push host port h =
    let (kind, k, h₁) = >>=-eq-ok (mover_kind r.mover) _ h in
    by_kind-IsSafe r (rsync_over_ssh r push host port) (tar_over_ssh r push host port) kind k h₁

-- The command of a transfer inside one pod reads and writes only inside the two mounts, and its exit
-- codes are read by the policy of the program that runs.
pub build_mover_cmd_local-IsSafe :
    (r : MoverRequest) {m : MoverCommand}
    → build_mover_cmd_local r ≡ ok m
    → IsSafe r (rsync_mounted r) (tar_mounted r) m
unfolding build_mover_cmd_local
build_mover_cmd_local-IsSafe r h =
    let (kind, k, h₁) = >>=-eq-ok (mover_kind r.mover) _ h in
    by_kind-IsSafe r (rsync_mounted r) (tar_mounted r) kind k h₁

-- The command of a session over the reverse tunnel reads and writes only inside the two mounts, and
-- its exit codes are read by the policy of the program that runs.
pub build_mover_cmd_ssh_session-IsSafe :
    (r : MoverRequest) {m : MoverCommand}
    → build_mover_cmd_ssh_session r ≡ ok m
    → IsSafe r
        (rsync_in_session r)
        (tar_over_ssh r true (codes "localhost") r.ssh_reverse_tunnel_port)
        m
unfolding build_mover_cmd_ssh_session
build_mover_cmd_ssh_session-IsSafe r h =
    let (kind, k, h₁) = >>=-eq-ok (mover_kind r.mover) _ h in
    by_kind-IsSafe r (rsync_in_session r)
      (tar_over_ssh r true (codes "localhost") r.ssh_reverse_tunnel_port) kind k h₁
