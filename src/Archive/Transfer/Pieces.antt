-- ===== src/Archive/Transfer/Pieces.antt =====
-- The pieces of a transfer's pipeline add no control bytes.
use pv_migrate.Common.{
  ◌++◌, Bool, true, false, List, [], ◌∷◌, ◌≡◌, refl, sym, subst, All, All-append, Bytes, codes,
  join, if◌then◌else◌, ok, arith, Bool-cases, inl, inr, itoa, itoa-IsNumeral, ℤ, pos, eq_ℤ, str_eq,
  >>=-eq-ok, map_err, map_err-eq-ok, path_join, path_dir, path_base, path_dir-All, path_base-All,
  path_join-All, if-All, has_suffix,
}
use pv_migrate.Shell.{quote, check_single_line}
use pv_migrate.Shell.Plain.{
  IsPlain, quote-IsPlain, check_single_line-IsPlain, all_plain, all_plain_sound, each_plain_sound,
  numeral-IsPlain, join-IsPlain, port_flag-IsPlain,
}
use pv_migrate.Archive.{
  compression_none, compression_zstd, compression_gzip, compress_program, or_default,
  decompress_program,
}
use pv_migrate.Archive.Transfer.{
  TransferCmd, bad_line, check_each, ssh_words, ssh_options, ssh_target, ssh_prefix, clean_cmd,
  prepare_path, tar_source, tar_create, tar_extract, program_option,
}

-- A fixed text before a plain one.
pub fixed : (s : Bytes) → all_plain s ≡ true → (t : Bytes) → All IsPlain t → All IsPlain (s ++ t)
fixed s h t k = All-append IsPlain s t (all_plain_sound s h) k

-- A quoted value before a plain text.
pub quoted : (v : Bytes) → All IsPlain v → (t : Bytes) → All IsPlain t → All IsPlain (quote v ++ t)
quoted v h t k = All-append IsPlain (quote v) t (quote-IsPlain v h) k

pub check_each-IsPlain :
    (fields : List (Bytes × Bytes)) → check_each fields ≡ ok tt → All (λ f. All IsPlain f.1) fields
unfolding check_each
check_each-IsPlain [] h = tt
check_each-IsPlain ((name, []) ∷ fields) h = absurd (cc)
check_each-IsPlain ((name, c ∷ value) ∷ fields) h =
    let (u, e, h₁) = >>=-eq-ok (map_err bad_line (check_single_line name (c ∷ value))) _ h in
    (
      check_single_line-IsPlain name (c ∷ value) (map_err-eq-ok bad_line _ e),
      check_each-IsPlain fields h₁,
    )

level_text-IsPlain : (s : Bytes) (z : ℤ) → All IsPlain s → All IsPlain (s ++ itoa z)
level_text-IsPlain s z h =
    All-append IsPlain s (itoa z) h (numeral-IsPlain (itoa z) (itoa-IsNumeral z))

pub compress_program-IsPlain :
    (compression : Bytes) (level : ℤ) {p : Bytes}
    → compress_program compression level ≡ ok p
    → All IsPlain p
unfolding compress_program
compress_program-IsPlain compression level {p} h =
    elim (Bool-cases (str_eq compression compression_none)) [
      | inl n ↦ (let same : p ≡ [] = ground arith in subst (All IsPlain) (sym same) tt)
      | inr n ↦ elim (Bool-cases (str_eq compression compression_zstd)) [
        | inl z ↦
            (let same : p ≡ codes "zstd -T4 -" ++ itoa (or_default level (pos 3)) = ground arith in
              subst (All IsPlain) (sym same) (
                level_text-IsPlain (codes "zstd -T4 -") (or_default level (pos 3))
                  (all_plain_sound (codes "zstd -T4 -") refl)))
        | inr z ↦ elim (Bool-cases (str_eq compression compression_gzip)) [
          | inl g ↦
              (let same : p ≡ codes "pigz -p 4 -" ++ itoa (or_default level (pos 6)) =
                  ground arith in
                subst (All IsPlain) (sym same) (
                  level_text-IsPlain (codes "pigz -p 4 -") (or_default level (pos 6))
                    (all_plain_sound (codes "pigz -p 4 -") refl)))
          | inr g ↦ absurd (ground arith)
        ]
      ]
    ]

pub decompress_program-IsPlain :
    (compression : Bytes) → All IsPlain (decompress_program compression)
unfolding decompress_program
decompress_program-IsPlain compression =
    if-All IsPlain (str_eq compression compression_zstd) (codes "zstd")
      (if str_eq compression compression_gzip then codes "pigz -p 4" else [])
      (all_plain_sound (codes "zstd") refl)
      (if-All IsPlain (str_eq compression compression_gzip) (codes "pigz -p 4") []
        (all_plain_sound (codes "pigz -p 4") refl) tt)

program_option-IsPlain :
    (program : Bytes) → All IsPlain program → All IsPlain (program_option program)
program_option-IsPlain [] h = tt
program_option-IsPlain (c ∷ s) h =
    fixed (codes " -I ") refl (quote (c ∷ s)) (quote-IsPlain (c ∷ s) h)

slash-IsPlain : IsPlain b'/'
slash-IsPlain = omega arith

dot-IsPlain : IsPlain b'.'
dot-IsPlain = omega arith

clean_cmd-IsPlain : (p : Bytes) → All IsPlain p → All IsPlain (clean_cmd p)
unfolding clean_cmd
clean_cmd-IsPlain p h =
    let lost = path_join p (codes "lost+found") in
    let plain =
      path_join-All IsPlain slash-IsPlain dot-IsPlain p (codes "lost+found") h
        (all_plain_sound (codes "lost+found") refl) in
    let below = All-append IsPlain lost (codes "/*") plain (all_plain_sound (codes "/*") refl) in
    fixed (codes "find ") refl _ (
      quoted p h _ (
        fixed (codes " -mindepth 1 -not -path ") refl _ (
          quoted lost plain _ (
            fixed (codes " -not -path ") refl _ (
              quoted (lost ++ codes "/*") below (codes " -delete")
                (all_plain_sound (codes " -delete") refl))))))

pub prepare_path-IsPlain :
    (p : Bytes) (clean_dest : Bool) → All IsPlain p → All IsPlain (prepare_path p clean_dest)
unfolding prepare_path
prepare_path-IsPlain p clean_dest h =
    All-append IsPlain (codes "mkdir -p " ++ (quote p ++ codes " && "))
      (if clean_dest then clean_cmd p ++ codes " && " else [])
      (fixed (codes "mkdir -p ") refl (quote p ++ codes " && ")
        (quoted p h (codes " && ") (all_plain_sound (codes " && ") refl)))
      (if-All IsPlain clean_dest (clean_cmd p ++ codes " && ") []
        (All-append IsPlain (clean_cmd p) (codes " && ") (clean_cmd-IsPlain p h)
          (all_plain_sound (codes " && ") refl))
        tt)

pub tar_extract-IsPlain :
    (program p : Bytes) → All IsPlain program → All IsPlain p → All IsPlain (tar_extract program p)
unfolding tar_extract
tar_extract-IsPlain program p hp h =
    fixed (codes "tar -x --numeric-owner --xattrs --exclude=./lost+found") refl
      (program_option program ++ (codes " -f - -C " ++ quote p))
      (All-append IsPlain (program_option program) (codes " -f - -C " ++ quote p)
        (program_option-IsPlain program hp)
        (fixed (codes " -f - -C ") refl (quote p) (quote-IsPlain p h)))

source_dir-IsPlain : (p : Bytes) → All IsPlain p → All IsPlain (tar_source p).0
unfolding tar_source
source_dir-IsPlain p h = at (has_suffix p (codes "/"))
  where
    at :
        (b : Bool)
        → All IsPlain
            (if◌then◌else◌ {A = Bytes × Bytes} b (p, codes ".") (path_dir p, path_base p)).0
    at true = h
    at false = path_dir-All IsPlain slash-IsPlain dot-IsPlain p h

source_member-IsPlain : (p : Bytes) → All IsPlain p → All IsPlain (tar_source p).1
unfolding tar_source
source_member-IsPlain p h = at (has_suffix p (codes "/"))
  where
    at :
        (b : Bool)
        → All IsPlain
            (if◌then◌else◌ {A = Bytes × Bytes} b (p, codes ".") (path_dir p, path_base p)).1
    at true = all_plain_sound (codes ".") refl
    at false = path_base-All IsPlain slash-IsPlain dot-IsPlain p h

pub tar_create-IsPlain :
    (program p : Bytes) → All IsPlain program → All IsPlain p → All IsPlain (tar_create program p)
unfolding tar_create
tar_create-IsPlain program p hp h =
    let source = tar_source p in
    let member : Bytes = codes " " ++ quote source.1 in
    let option : Bytes = codes " -f - -C " ++ (quote source.0 ++ member) in
    let tar : Bytes =
      codes "tar -c --numeric-owner --xattrs --sparse --exclude=./lost+found"
      ++ (program_option program ++ option) in
    let total : Bytes = codes " | awk 'NR==2{print $3}')\" >&2; " ++ tar in
    fixed (codes "printf 'pv-migrate-bytes-total: %s\\n' \"$(df -B1 ") refl (quote p ++ total) (
      quoted p h total (
        fixed (codes " | awk 'NR==2{print $3}')\" >&2; ") refl tar (
          fixed (codes "tar -c --numeric-owner --xattrs --sparse --exclude=./lost+found") refl
            (program_option program ++ option)
            (All-append IsPlain (program_option program) option (program_option-IsPlain program hp)
              (fixed (codes " -f - -C ") refl (quote source.0 ++ member) (
                quoted source.0 (source_dir-IsPlain p h) member (
                  fixed (codes " ") refl (quote source.1)
                    (quote-IsPlain source.1 (source_member-IsPlain p h)))))))))

ssh_words-IsPlain : (c : TransferCmd) → All (All IsPlain) (ssh_words c)
unfolding ssh_words
ssh_words-IsPlain c =
    All-append (All IsPlain) (codes "ssh" ∷ ssh_options) _
      (each_plain_sound (codes "ssh" ∷ ssh_options) refl)
      (port_flag-IsPlain (eq_ℤ c.port (pos 0)) c.port)

pub ssh_prefix-IsPlain :
    (c : TransferCmd) → All IsPlain c.ssh_user → All IsPlain c.ssh_host → All IsPlain (ssh_prefix c)
unfolding ssh_prefix
ssh_prefix-IsPlain c hu hh =
    All-append IsPlain (join (codes " ") (ssh_words c)) (b' ' ∷ quote (ssh_target c))
      (join-IsPlain (codes " ") (ssh_words c) (all_plain_sound (codes " ") refl)
        (ssh_words-IsPlain c))
      (fixed (codes " ") refl _ (
        quote-IsPlain (ssh_target c) (
          All-append IsPlain c.ssh_user (b'@' ∷ c.ssh_host) hu
            (fixed (codes "@") refl c.ssh_host hh))))
