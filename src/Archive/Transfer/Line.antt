-- ===== src/Archive/Transfer/Line.antt =====
-- The pipeline of a transfer fits on one line of a YAML block scalar.
use pv_migrate.Common.{
  ◌++◌, Bool, true, false, [], ◌∷◌, ◌≡◌, refl, subst, All, All-append, Bytes, codes, if◌then◌else◌,
  ok, str_eq, >>=-eq-ok, map_err, map_err-eq-ok, ok-injective, if-All,
}
use pv_migrate.Shell.{quote}
use pv_migrate.Shell.Plain.{IsPlain, quote-IsPlain, all_plain_sound}
use pv_migrate.Archive.{compression_zstd, compress_program, decompress_program}
use pv_migrate.Archive.Transfer.{
  TransferCmd, bad_level, check, checked_fields, ssh_prefix, prepare_path, tar_create, tar_extract,
  used_compression, used_level, pipeline, progress_option, build,
}
use pv_migrate.Archive.Transfer.Pieces.{
  fixed, quoted, compress_program-IsPlain, decompress_program-IsPlain, prepare_path-IsPlain,
  tar_extract-IsPlain, tar_create-IsPlain, ssh_prefix-IsPlain, check_each-IsPlain,
}

module _ (prepare create extract : Bytes) where
  module _ (prepared : All IsPlain prepare) (created : All IsPlain create)
      (extracted : All IsPlain extract) where
    into-IsPlain : All IsPlain (codes " | " ++ extract)
    into-IsPlain = fixed (codes " | ") refl extract extracted

    local_line-IsPlain :
        All IsPlain (codes "set -o pipefail; " ++ (prepare ++ (create ++ (codes " | " ++ extract))))
    local_line-IsPlain =
        fixed (codes "set -o pipefail; ") refl (prepare ++ (create ++ (codes " | " ++ extract))) (
          All-append IsPlain prepare (create ++ (codes " | " ++ extract)) prepared
            (All-append IsPlain create (codes " | " ++ extract) created into-IsPlain))

    push_line-IsPlain :
        (ssh : Bytes)
        → All IsPlain ssh
        → All IsPlain (
            codes "set -o pipefail; "
            ++ (create ++ (codes " | " ++ (ssh ++ (b' ' ∷ quote (prepare ++ extract))))))
    push_line-IsPlain ssh h =
        let script : Bytes = codes " " ++ quote (prepare ++ extract) in
        let scripted = fixed (codes " ") refl (quote (prepare ++ extract)) (
          quote-IsPlain (prepare ++ extract)
            (All-append IsPlain prepare extract prepared extracted)) in
        fixed (codes "set -o pipefail; ") refl (create ++ (codes " | " ++ (ssh ++ script))) (
          All-append IsPlain create (codes " | " ++ (ssh ++ script)) created
            (fixed (codes " | ") refl (ssh ++ script) (All-append IsPlain ssh script h scripted)))

    pull_line-IsPlain :
        (ssh : Bytes)
        → All IsPlain ssh
        → All IsPlain (
            codes "set -o pipefail; "
            ++ (prepare ++ (ssh ++ (b' ' ∷ (quote create ++ (codes " | " ++ extract))))))
    pull_line-IsPlain ssh h =
        let remote : Bytes = codes " " ++ (quote create ++ (codes " | " ++ extract)) in
        let remotely =
          fixed (codes " ") refl (quote create ++ (codes " | " ++ extract))
            (quoted create created (codes " | " ++ extract) into-IsPlain) in
        fixed (codes "set -o pipefail; ") refl (prepare ++ (ssh ++ remote)) (
          All-append IsPlain prepare (ssh ++ remote) prepared
            (All-append IsPlain ssh remote h remotely))

-- Each branch may use the test's outcome.
if_when :
    (b : Bool) (x y : Bytes)
    → (b ≡ true → All IsPlain x)
    → (b ≡ false → All IsPlain y)
    → All IsPlain (if b then x else y)
if_when true x y h k = h refl
if_when false x y h k = k refl

-- The pipeline is plain if the parts that its kind uses are.
pipeline-IsPlain :
    (c : TransferCmd) (program : Bytes)
    → All IsPlain program
    → All (λ f. All IsPlain f.1) (checked_fields c)
    → All IsPlain (pipeline c program)
unfolding pipeline
pipeline-IsPlain c program hp (hs, (hd, hr)) =
    let create = tar_create program c.src_path in
    let prepare = prepare_path c.dest_path c.clean_dest in
    let extract = tar_extract (decompress_program (used_compression c)) c.dest_path in
    let created = tar_create-IsPlain program c.src_path hp hs in
    let prepared = prepare_path-IsPlain c.dest_path c.clean_dest hd in
    let extracted =
      tar_extract-IsPlain (decompress_program (used_compression c)) c.dest_path
        (decompress_program-IsPlain (used_compression c)) hd in
    if_when c.local _ _ (λ l. local_line-IsPlain prepare create extract prepared created extracted)
      (λ l.
        let remote =
          subst
            (λ (b : Bool).
              All (λ (f : Bytes × Bytes). All IsPlain f.1)
                (if b
                  then []
                  else (codes "ssh user", c.ssh_user) ∷ (codes "ssh host", c.ssh_host) ∷ []))
            l hr in
        let ssh = ssh_prefix-IsPlain c remote.0 remote.1.0 in
        if_when c.push _ _
          (λ q.
            push_line-IsPlain prepare create extract prepared created extracted (ssh_prefix c) ssh)
          (λ q.
            pull_line-IsPlain prepare create extract prepared created extracted (ssh_prefix c) ssh))

-- A transfer that `Build` accepts is a pipeline without control bytes but tabs, so it is one line of the
-- job's block scalar, whatever the command holds.
pub build-IsPlain_transfer : (c : TransferCmd) {s : Bytes} → build c ≡ ok s → All IsPlain s
unfolding build check
build-IsPlain_transfer c h =
    let (u, e, h₁) = >>=-eq-ok (check c) _ h in
    let (program, e₁, h₂) =
      >>=-eq-ok (map_err bad_level (compress_program (used_compression c) (used_level c))) _ h₁ in
    let plain =
      compress_program-IsPlain (used_compression c) (used_level c) (map_err-eq-ok bad_level _ e₁) in
    let with_progress = All-append IsPlain program (progress_option c) plain (
      if-All IsPlain (str_eq (used_compression c) compression_zstd) (codes " --progress") []
        (all_plain_sound (codes " --progress") refl) tt) in
    subst (All IsPlain) (ok-injective h₂) (
      pipeline-IsPlain c (program ++ progress_option c) with_progress
        (check_each-IsPlain (checked_fields c) e))
