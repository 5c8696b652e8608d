-- ===== src/Strategy/Paths/Safety.antt =====
-- A resolved path stays in the volume.
use pv_migrate.Common.{
  ◌++◌, ◌||◌, Bool, true, false, List, [], ◌∷◌, Bytes, codes, str_eq, has_prefix, ok, slash,
  rooted_path, IsName, All, LacksSlash, ◌≡◌, refl, ap, sym, subst, ◌∙◌, arith, join, cut_prefix,
  cut_prefix_sound, Option-cases, inl, inr, Bool-cases, clean-rooted, clean-names, append_assoc,
  str_eq-longer, has_prefix-append, >>=-eq-ok, map_err, map_err-eq-ok, append-nil, is_empty,
  str_eq_sound,
}
use pv_migrate.Strategy.Paths.{
  mount_sub_path, resolve, wants_contents, with_slash, resolve_mount_paths, src_mount_path,
  dest_mount_path, invalid,
}

-- Nothing, or the rest of a path behind a slash.
abbrev IsBoundary : Bytes → Type 0
IsBoundary [] = Unit
IsBoundary (c ∷ s) = c ≡ slash

same_head :
    (p q a b : Bytes)
    → LacksSlash p
    → LacksSlash q
    → IsBoundary a
    → IsBoundary b
    → p ++ a ≡ q ++ b
    → (p ≡ q) × (a ≡ b)
same_head [] [] a b hp hq ha hb e = (refl, e)
same_head [] (d ∷ q) [] b hp hq ha hb e = absurd (cc)
same_head [] (d ∷ q) (c ∷ a) b hp hq ha hb e = absurd (ground arith)
same_head (c ∷ p) [] a [] hp hq ha hb e = absurd (cc)
same_head (c ∷ p) [] a (d ∷ b) hp hq ha hb e = absurd (ground arith)
same_head (c ∷ p) (d ∷ q) a b (hc, hp) (hd, hq) ha hb e =
    ground (arith, same_head p q a b hp hq ha hb)

-- Names below a directory.
abbrev pub below : List Bytes → Bytes
below [] = []
below (p ∷ ps) = rooted_path (p ∷ ps)

abbrev pub is_root : List Bytes → Bool
is_root [] = true
is_root (p ∷ ps) = false

join-first :
    (ps : List Bytes) (name b : Bytes)
    → All IsName ps
    → IsName name
    → IsBoundary b
    → join (slash ∷ []) ps ≡ name ++ b
    → (qs : List Bytes) × (ps ≡ name ∷ qs) × (b ≡ below qs)
unfolding join
join-first [] [] b h n hb e = absurd (let k = n.not_empty in cc)
join-first [] (c ∷ name) b h n hb e = absurd (cc)
join-first (p ∷ []) name b (h, hs) n hb e =
    let (e₁, e₂) = same_head p name [] b h.no_slash n.no_slash tt hb (append-nil p ∙ e) in
    ([], ap (λ x. x ∷ []) e₁, sym e₂)
join-first (p ∷ q ∷ ps) name b (h, hs) n hb e =
    let (e₁, e₂) =
      same_head p name (slash ∷ join (slash ∷ []) (q ∷ ps)) b h.no_slash n.no_slash refl hb e in
    (q ∷ ps, ap (λ x. x ∷ q ∷ ps) e₁, sym e₂)

-- The resolved path is the mount point or begins with it and a slash.
accepted :
    (mount sub : Bytes) {r : Bytes}
    → mount_sub_path mount sub ≡ ok r
    → (b : Bytes) × IsBoundary b
      × (resolve mount sub ≡ mount ++ b)
      × (r ≡ with_slash (is_empty b || wants_contents sub) (mount ++ b))
unfolding mount_sub_path has_prefix
accepted mount sub h = elim (Bool-cases (str_eq (resolve mount sub) mount)) [
  | inl e ↦
      let e' = str_eq_sound _ _ e in
      ([], tt, e' ∙ sym (append-nil mount), ground (arith, append-nil mount))
  | inr e ↦ elim (Option-cases (cut_prefix (resolve mount sub) (mount ++ slash ∷ []))) [
    | inl c ↦ absurd (ground arith)
    | inr (rest, c) ↦
        let e' = cut_prefix_sound _ _ rest c ∙ append_assoc mount (slash ∷ []) rest in
        (slash ∷ rest, refl, e', ground arith)
  ]
]

-- Every path that `mountSubPath` accepts names the volume's root or something below it: the
-- mount point, followed by names that are neither `.` nor `..`, with a slash behind it exactly for
-- the root and for a path that asks for contents.
pub mount_sub_path-below :
    (name sub : Bytes) {r : Bytes}
    → IsName name
    → mount_sub_path (slash ∷ name) sub ≡ ok r
    → (parts : List Bytes) × All IsName parts
      × (r ≡ with_slash (is_root parts || wants_contents sub) ((slash ∷ name) ++ below parts))
unfolding resolve
mount_sub_path-below name sub n h =
    let (ps, e, names) = clean-rooted (name ++ slash ∷ sub) in
    let (b, hb, e', e'') = accepted (slash ∷ name) sub h in
    let (qs, f, f') = join-first ps name b names n hb (cc) in
    let names' : All IsName (name ∷ qs) = subst (All IsName) f names in
    (qs, names'.1, ground (arith, root qs b f'))
  where
    root : (qs : List Bytes) (b : Bytes) → b ≡ below qs → is_empty b ≡ is_root qs
    root [] b k = ap is_empty k
    root (q ∷ qs) b k = ap is_empty k

-- A path of names is accepted as it is.
pub mount_sub_path-names :
    (name p : Bytes) (ps : List Bytes)
    → All IsName (name ∷ p ∷ ps)
    → mount_sub_path (slash ∷ name) (join (slash ∷ []) (p ∷ ps))
      ≡ ok (
          with_slash
            (wants_contents (join (slash ∷ []) (p ∷ ps)))
            ((slash ∷ name) ++ below (p ∷ ps)))
unfolding mount_sub_path resolve join
mount_sub_path-names name p ps h =
    let mount : Bytes = slash ∷ name in
    let tail : Bytes = join (slash ∷ []) (p ∷ ps) in
    ground (
      arith,
      clean-names name (p ∷ ps) h,
      str_eq-longer mount slash tail,
      has_prefix-append (mount ++ slash ∷ []) tail,
      append_assoc mount (slash ∷ []) tail,
    )

source-IsName : IsName (codes "source")
unfolding str_eq
source-IsName = record {
  not_empty = refl;
  not_dot = refl;
  not_dot_dot = refl;
  no_slash = omega arith;
}

dest-IsName : IsName (codes "dest")
unfolding str_eq
dest-IsName = record {
  not_empty = refl;
  not_dot = refl;
  not_dot_dot = refl;
  no_slash = omega arith;
}

-- Both paths of a request that passes the check are their mount point or lie below it, through names
-- that are neither empty nor dots, with a trailing slash exactly at the mount point and for contents.
pub resolve_mount_paths-below :
    (source_path dest_path : Bytes) {src dest : Bytes}
    → resolve_mount_paths source_path dest_path ≡ ok (src, dest)
    → (s_parts : List Bytes) × (d_parts : List Bytes) × All IsName s_parts
      × All IsName d_parts
      × (src
          ≡ with_slash
              (is_root s_parts || wants_contents source_path)
              (src_mount_path ++ below s_parts))
      × (dest
          ≡ with_slash
              (is_root d_parts || wants_contents dest_path)
              (dest_mount_path ++ below d_parts))
unfolding resolve_mount_paths
resolve_mount_paths-below source_path dest_path h =
    let (s, hs, h') =
      >>=-eq-ok
        (map_err (invalid (codes "--source-path")) (mount_sub_path src_mount_path source_path)) _
        h in
    let (d, hd, h'') =
      >>=-eq-ok (map_err (invalid (codes "--dest-path")) (mount_sub_path dest_mount_path dest_path))
        (λ d. ok (s, d)) h' in
    let (s_parts, s_names, s_eq) =
      mount_sub_path-below (codes "source") source_path source-IsName (map_err-eq-ok _ _ hs) in
    let (d_parts, d_names, d_eq) =
      mount_sub_path-below (codes "dest") dest_path dest-IsName (map_err-eq-ok _ _ hd) in
    (s_parts, d_parts, s_names, d_names, ground arith, ground arith)
