-- ===== src/Rsync/Line.antt =====
-- The command line of `Build` fits on one line of a YAML block scalar.
use pv_migrate.Common.{
  ◌++◌, ◌||◌, Bool, true, false, List, [], ◌∷◌, ◌≡◌, refl, sym, subst, All, All-append, Bytes,
  codes, join, if◌then◌else◌, is_empty, ok, arith, pos, eq_ℤ,
}
use pv_migrate.Shell.{quote}
use pv_migrate.Shell.Plain.{
  join-IsPlain, if-IsPlain, port_flag-IsPlain, IsPlain, quote-IsPlain, check_fields-IsPlain,
  all_plain_sound, each_plain_sound,
}
use pv_migrate.Rsync.{
  Cmd, build, build_src, build_dest, args, ssh_args, ssh_user, option_flags, command_line, validate,
  build-ok, build-valid, fields, ssh_fixed, fixed_flags, compress_flags, owner_flags, times_flags,
  delete_flags,
}

ssh_args-IsPlain : (c : Cmd) → All (All IsPlain) (ssh_args c)
unfolding ssh_args
ssh_args-IsPlain c =
    All-append (All IsPlain) ssh_fixed _ (each_plain_sound ssh_fixed refl)
      (port_flag-IsPlain (eq_ℤ c.port (pos 0)) c.port)

option_flags-IsPlain : (c : Cmd) → All (All IsPlain) (option_flags c)
unfolding option_flags
option_flags-IsPlain c =
    All-append (All IsPlain) (if c.compress then compress_flags else []) _
      (if-IsPlain c.compress compress_flags refl)
      (All-append (All IsPlain) (if c.no_chown || c.non_root then owner_flags else []) _
        (if-IsPlain (c.no_chown || c.non_root) owner_flags refl)
        (All-append (All IsPlain) (if c.non_root then times_flags else []) _
          (if-IsPlain c.non_root times_flags refl) (if-IsPlain c.delete delete_flags refl)))

extra-IsPlain : (e : Bytes) → All IsPlain e → All (All IsPlain) (if is_empty e then [] else e ∷ [])
extra-IsPlain [] h = tt
extra-IsPlain (c ∷ e) h = (h, tt)

args-IsPlain : (c : Cmd) → All IsPlain c.extra_args → All (All IsPlain) (args c)
unfolding args
args-IsPlain c h =
    let tail : List Bytes =
      option_flags c ++ (if is_empty c.extra_args then [] else c.extra_args ∷ []) in
    All-append (All IsPlain) fixed_flags
      (quote (join (codes " ") (ssh_args c)) ∷ codes "--exclude=/lost+found" ∷ tail)
      (each_plain_sound fixed_flags refl)
      (
        quote-IsPlain _ (join-IsPlain (codes " ") (ssh_args c) (omega arith) (ssh_args-IsPlain c)),
        (
          all_plain_sound (codes "--exclude=/lost+found") refl,
          All-append (All IsPlain) (option_flags c) _ (option_flags-IsPlain c)
              (extra-IsPlain c.extra_args h),
        ),
      )

-- A remote spec, or the bare path.
spec-IsPlain :
    (b : Bool) (user host path : Bytes)
    → All IsPlain user
    → All IsPlain host
    → All IsPlain path
    → All IsPlain (if b then ssh_user user ++ (b'@' ∷ (host ++ (b':' ∷ path))) else path)
unfolding ssh_user
spec-IsPlain false user host path hu hh hp = hp
spec-IsPlain true [] host path hu hh hp =
    All-append IsPlain (codes "root") (b'@' ∷ (host ++ b':' ∷ path))
      (all_plain_sound (codes "root") refl)
      (omega arith, All-append IsPlain host (b':' ∷ path) hh (omega arith, hp))
spec-IsPlain true (c ∷ user) host path hu hh hp =
    All-append IsPlain (c ∷ user) (b'@' ∷ (host ++ b':' ∷ path)) hu
      (omega arith, All-append IsPlain host (b':' ∷ path) hh (omega arith, hp))

-- A command that `Build` accepts holds no control byte but tabs, so it is one line of the job's
-- block scalar, if the extra arguments and the two user names hold none.
pub build-IsPlain :
    (c : Cmd) {s : Bytes}
    → All IsPlain c.extra_args
    → All IsPlain c.src_ssh_user
    → All IsPlain c.dest_ssh_user
    → build c ≡ ok s
    → All IsPlain s
unfolding validate build_src build_dest command_line
build-IsPlain c {s} he hs hd e =
    let (sp, (dp, (sh, (dh, u)))) = check_fields-IsPlain (fields c) (build-valid c e) in
    let source =
      quote-IsPlain _
        (spec-IsPlain c.src_use_ssh c.src_ssh_user c.src_ssh_host c.src_path hs sh sp) in
    let dest =
      quote-IsPlain _
        (spec-IsPlain c.dest_use_ssh c.dest_ssh_user c.dest_ssh_host c.dest_path hd dh dp) in
    let specs : Bytes = quote (build_src c) ++ b' ' ∷ quote (build_dest c) in
    subst (All IsPlain) (sym (build-ok c e)) (
      All-append IsPlain (codes "rsync ") (join (codes " ") (args c) ++ b' ' ∷ specs)
        (all_plain_sound (codes "rsync ") refl)
        (All-append IsPlain (join (codes " ") (args c)) (b' ' ∷ specs)
          (join-IsPlain (codes " ") (args c) (omega arith) (args-IsPlain c he))
          (
            omega arith,
            All-append IsPlain (quote (build_src c)) (b' ' ∷ quote (build_dest c)) source
                (omega arith, dest),
          )))
