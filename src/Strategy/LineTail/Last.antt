-- ===== src/Strategy/LineTail/Last.antt =====
-- What the writer keeps is the end of the stream.
use mathlib.Core.Path.{ap₂}
use pv_migrate.Common.{
  ℕ, suc, ◌-◌, ◌≤◌, ◌<◌, ◌++◌, ◌==◌, List, [], ◌∷◌, Bytes, length, length-append, drop, length-drop,
  drop-append, drop_one-drop, drop-nil, take, take-append, if◌then◌else◌, ◌≡◌, refl, sym, ap, ◌∙◌,
  subst, arith, inl, inr, Bool-cases, append-nil, append_assoc, is_empty, trim_space, ==_iff,
}
use pv_migrate.Strategy.LineTail.{LineTail, record_line, keep_line, write, get_lines}
use pv_migrate.Strategy.LineTail.Stream.{
  cut_lines, cut_lines-append, cut_lines-resume, keep_all, write_loop_lem,
}

-- The last `n` of a list.
abbrev pub last : ℕ → List Bytes → List Bytes
last n xs = drop (length xs - n) xs

take_exact : (n : ℕ) (xs ys : List Bytes) → length xs ≡ n → take n (xs ++ ys) ≡ xs
take_exact n xs ys e = subst (λ k. take k (xs ++ ys) ≡ xs) e (take-append xs ys)

last-snoc :
    (limit : ℕ) (xs : List Bytes) (line : Bytes)
    → 0 < limit
    → limit ≤ length xs
    → drop 1 (last limit xs) ++ line ∷ [] ≡ last limit (xs ++ line ∷ [])
last-snoc limit xs line h full =
    let k = length xs - limit in
    ap (λ r. r ++ line ∷ []) (drop_one-drop k xs)
    ∙ sym (drop-append (suc k) xs (line ∷ []) (omega arith))
    ∙ ap (λ n. drop n (xs ++ line ∷ [])) {x = suc k} (omega (arith, length-append xs (line ∷ [])))

short-snoc :
    (limit : ℕ) (xs : List Bytes) (line : Bytes)
    → length xs < limit
    → last limit xs ++ line ∷ [] ≡ last limit (xs ++ line ∷ [])
short-snoc limit xs line h =
    ap (λ n. drop n xs ++ line ∷ []) {x = length xs - limit} {y = 0} (omega arith)
    ∙ ap (λ n. drop n (xs ++ line ∷ [])) {x = 0} {y = length (xs ++ line ∷ []) - limit}
        (omega (arith, length-append xs (line ∷ [])))

-- Adding a line to the last lines gives the last lines again: the oldest goes when there is no
-- room.
record_line-last :
    (limit : ℕ) (xs : List Bytes) (line : Bytes)
    → 0 < limit
    → record_line limit (last limit xs) line ≡ last limit (xs ++ line ∷ [])
unfolding record_line
record_line-last limit xs line h =
    let tail = last limit xs in
    let size = length-drop (length xs - limit) xs in
    elim (Bool-cases (length tail == limit)) [
      | inl e ↦ rw e (
          ap (λ r. r ++ line ∷ [])
            (take_exact (limit - 1) (drop 1 tail) _
              (omega (arith, length-drop 1 tail, (==_iff (length tail) limit).0 e)))
          ∙ last-snoc limit xs line h (omega (arith, size, (==_iff (length tail) limit).0 e)))
      | inr e ↦ rw e (short-snoc limit xs line (ground (arith, size)))
    ]

-- The lines worth keeping: trimmed, and not blank.
abbrev pub nonblank : List Bytes → List Bytes
nonblank [] = []
nonblank (raw ∷ raws) =
    let line = trim_space raw in if is_empty line then nonblank raws else line ∷ nonblank raws

keep_line-last :
    (limit : ℕ) (raw : Bytes) (xs : List Bytes)
    → 0 < limit
    → keep_line limit (last limit xs) raw ≡ last limit (xs ++ nonblank (raw ∷ []))
unfolding keep_line
keep_line-last limit raw xs h = elim (Bool-cases (is_empty (trim_space raw))) [
  | inl e ↦ rw (e, append-nil)
  | inr e ↦ rw e (record_line-last limit xs (trim_space raw) h)
]

nonblank-cons :
    (raw : Bytes) (raws : List Bytes) → nonblank (raw ∷ raws) ≡ nonblank (raw ∷ []) ++ nonblank raws
nonblank-cons raw raws = elim (Bool-cases (is_empty (trim_space raw))) [
  | inl e ↦ rw e
  | inr e ↦ rw e
]

nonblank-append : (xs ys : List Bytes) → nonblank (xs ++ ys) ≡ nonblank xs ++ nonblank ys
nonblank-append [] ys = refl
nonblank-append (x ∷ xs) ys =
    nonblank-cons x (xs ++ ys)
    ∙ ap (λ r. nonblank (x ∷ []) ++ r) (nonblank-append xs ys)
    ∙ sym (append_assoc (nonblank (x ∷ [])) (nonblank xs) (nonblank ys))
    ∙ ap (λ r. r ++ nonblank ys) (sym (nonblank-cons x xs))

keep_all-last :
    (limit : ℕ) (raws xs : List Bytes)
    → 0 < limit
    → keep_all limit (last limit xs) raws ≡ last limit (xs ++ nonblank raws)
keep_all-last limit [] xs h = rw append-nil
keep_all-last limit (raw ∷ raws) xs h =
    ap (λ lines. keep_all limit lines raws) (keep_line-last limit raw xs h)
    ∙ keep_all-last limit raws (xs ++ nonblank (raw ∷ [])) h
    ∙ ap (last limit) (
        append_assoc xs (nonblank (raw ∷ [])) (nonblank raws)
        ∙ ap (λ r. xs ++ r) (sym (nonblank-cons raw raws)))

-- Writes one after the other.
abbrev pub write_all : List Bytes → LineTail → LineTail
write_all [] t = t
write_all (chunk ∷ chunks) t = write_all chunks (write chunk t)

abbrev pub concat : List Bytes → Bytes
concat [] = []
concat (chunk ∷ chunks) = chunk ++ concat chunks

abbrev pub new_tail : ℕ → LineTail
new_tail limit = record { limit = limit; partial = []; lines = [] }

-- Holds of the writer after the stream `s`.
record Keeps (limit : ℕ) (s : Bytes) (t : LineTail) : Type 0 where
  same_limit : t.limit ≡ limit
  left_over : t.partial ≡ (cut_lines [] s).1
  kept : t.lines ≡ last limit (nonblank (cut_lines [] s).0)

write_fields :
    (buf : Bytes) (t : LineTail)
    → write buf t ≡ record t {
      partial = (cut_lines [] (t.partial ++ buf)).1;
      lines = keep_all t.limit t.lines (cut_lines [] (t.partial ++ buf)).0;
    }
unfolding write
write_fields buf t =
    ap (λ q. record t { partial = q.0; lines = q.1 })
      (write_loop_lem (suc (length (t.partial ++ buf))) t.limit (t.partial ++ buf) t.lines
        (omega arith))

write-Keeps :
    (limit : ℕ) (s buf : Bytes) (t : LineTail)
    → 0 < limit
    → Keeps limit s t
    → Keeps limit (s ++ buf) (write buf t)
write-Keeps limit s buf t h k =
    let left = (cut_lines [] s).1 in
    let more = cut_lines left buf in
    let resumed : cut_lines [] (t.partial ++ buf) ≡ more =
      ap (λ p. cut_lines [] (p ++ buf)) k.left_over ∙ cut_lines-resume s buf in
    let whole = cut_lines-append s buf [] in
    let old = (cut_lines [] s).0 in
    let kept : keep_all t.limit t.lines (cut_lines [] (t.partial ++ buf)).0
        ≡ last limit (nonblank (cut_lines [] (s ++ buf)).0) =
      ap₂ (λ q w. keep_all q w (cut_lines [] (t.partial ++ buf)).0) k.same_limit k.kept
      ∙ ap (λ q. keep_all limit (last limit (nonblank old)) q.0) resumed
      ∙ keep_all-last limit more.0 (nonblank old) h
      ∙ ap (last limit) (sym (nonblank-append old more.0))
      ∙ ap (λ q. last limit (nonblank q.0)) (sym whole) in
    subst (Keeps limit (s ++ buf)) (sym (write_fields buf t)) (record {
      same_limit = k.same_limit;
      left_over = ap (λ q. q.1) resumed ∙ sym (ap (λ q. q.1) whole);
      kept = kept;
    })

write_all-Keeps :
    (limit : ℕ) (chunks : List Bytes) (s : Bytes) (t : LineTail)
    → 0 < limit
    → Keeps limit s t
    → Keeps limit (s ++ concat chunks) (write_all chunks t)
write_all-Keeps limit [] s t h k = rw append-nil k
write_all-Keeps limit (chunk ∷ chunks) s t h k =
    rw (← append_assoc) (
      write_all-Keeps limit chunks (s ++ chunk) (write chunk t) h (write-Keeps limit s chunk t h k))

-- What the writer reports.
unread-nonblank : (t : LineTail) → get_lines t ≡ t.lines ++ nonblank (t.partial ∷ [])
unfolding get_lines
unread-nonblank t = elim (Bool-cases (is_empty (trim_space t.partial))) [
  | inl e ↦ rw (e, append-nil)
  | inr e ↦ rw e
]

-- However a stream is cut into writes, the writer reports the last `limit` of its terminated lines
-- that are not blank, trimmed, and behind them the unterminated line unless it is blank.
pub get_lines-write_all :
    (limit : ℕ) (chunks : List Bytes)
    → 0 < limit
    → get_lines (write_all chunks (new_tail limit))
      ≡ last limit (nonblank (cut_lines [] (concat chunks)).0)
        ++ nonblank ((cut_lines [] (concat chunks)).1 ∷ [])
unfolding cut_lines
get_lines-write_all limit chunks h =
    let k =
      write_all-Keeps limit chunks [] (new_tail limit) h
        (record { same_limit = refl; left_over = refl; kept = sym (drop-nil (0 - limit)) }) in
    unread-nonblank (write_all chunks (new_tail limit))
    ∙ ap₂ (λ q w. q ++ nonblank (w ∷ [])) k.kept k.left_over

length-last : (limit : ℕ) (xs : List Bytes) → length (last limit xs) ≤ limit
length-last limit xs = omega (arith, length-drop (length xs - limit) xs)

-- The writer never holds more lines than its limit, whatever is written.
pub length-write_all :
    (limit : ℕ) (chunks : List Bytes)
    → 0 < limit
    → length (write_all chunks (new_tail limit)).lines ≤ limit
unfolding cut_lines
length-write_all limit chunks h =
    let k =
      write_all-Keeps limit chunks [] (new_tail limit) h
        (record { same_limit = refl; left_over = refl; kept = sym (drop-nil (0 - limit)) }) in
    subst (λ xs. length xs ≤ limit) (sym k.kept) (length-last limit _)
