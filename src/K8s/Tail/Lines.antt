-- ===== src/K8s/Tail/Lines.antt =====
-- The line ends of a log and the quotation of its lines.
use pv_migrate.Common.{
  ℕ, Bool, true, false, ◌&&◌, List, [], ◌∷◌, ◌++◌, map, Bytes, codes, if◌then◌else◌, ◌==◌, ◌≡◌,
  refl, arith, Bool-cases, inl, inr, ap, sym, ==_iff, ◌∙◌, some, All, replace_byte, join, ◌≢◌,
}
use pv_migrate.K8s.Tail.{recent_pod_logs, replace_crlf, split_byte, quoted, onto_first}

-- One pass over the text: a line feed right behind a carriage return (`after`) has been written already.
abbrev pub unified : Bool → Bytes → Bytes
unified after [] = []
unified after (c ∷ s) =
    let rest = unified false s in
    let ended = unified true s in
    if c == 13 then 10 ∷ ended else if after && (c == 10) then rest else c ∷ rest

-- After a carriage return, only a line feed is read otherwise.
unified-after :
    (d : ℕ) (s : Bytes) → (d == 10) ≡ false → unified true (d ∷ s) ≡ unified false (d ∷ s)
unified-after d s h = ground arith

replace_crlf-unified : (s : Bytes) → replace_byte 13 (10 ∷ []) (replace_crlf s) ≡ unified false s
unfolding replace_byte replace_crlf
replace_crlf-unified [] = refl
replace_crlf-unified (c ∷ []) = ground arith
replace_crlf-unified (c ∷ d ∷ s) =
    let both = replace_crlf-unified s in
    let one = replace_crlf-unified (d ∷ s) in ground (arith, both, one, unified-after d s)

-- The tail has the line ends that one pass over the log leaves.
pub recent_pod_logs-unified : (log : Bytes) → recent_pod_logs (some log) ≡ unified false log
unfolding recent_pod_logs
recent_pod_logs-unified = replace_crlf-unified

split_byte-longer :
    (b : ℕ) (s : Bytes) → (line : Bytes) × (lines : List Bytes) × (split_byte b s ≡ line ∷ lines)
unfolding split_byte
split_byte-longer b [] = ([], [], refl)
split_byte-longer b (c ∷ s) = elim (Bool-cases (c == b)) [
  | inl same ↦ ([], split_byte b s, ground arith)
  | inr other ↦
      let first_part = split_byte-longer b s in
      (c ∷ first_part.0, first_part.1, ground (arith, first_part.2))
]

-- The pieces of a text do not hold the byte it is split at.
abbrev pub Lacks : ℕ → Bytes → Type 0
Lacks b = All (λ c. c ≢ b)

onto_first-Lacks :
    (b c : ℕ) (lines : List Bytes)
    → c ≢ b
    → All (Lacks b) lines
    → All (Lacks b) (onto_first c lines)
onto_first-Lacks b c [] h hs = ((h, tt), tt)
onto_first-Lacks b c (line ∷ lines) h (hl, hs) = ((h, hl), hs)

split_byte-Lacks : (b : ℕ) (s : Bytes) → All (Lacks b) (split_byte b s)
unfolding split_byte
split_byte-Lacks b [] = (tt, tt)
split_byte-Lacks b (c ∷ s) = elim (Bool-cases (c == b)) [
  | inl same ↦ rw same (tt, split_byte-Lacks b s)
  | inr other ↦
      rw other
        (onto_first-Lacks b c (split_byte b s) (ground (arith, other)) (split_byte-Lacks b s))
]

join-onto_first :
    (b c : ℕ) (line : Bytes) (lines : List Bytes)
    → join (b ∷ []) (onto_first c (line ∷ lines)) ≡ c ∷ join (b ∷ []) (line ∷ lines)
unfolding join
join-onto_first b c line [] = refl
join-onto_first b c line (next ∷ lines) = refl

join-nil :
    (b : ℕ) (line : Bytes) (lines : List Bytes)
    → join (b ∷ []) ([] ∷ line ∷ lines) ≡ b ∷ join (b ∷ []) (line ∷ lines)
unfolding join
join-nil b line lines = refl

-- Splitting loses nothing.
pub join-split_byte : (b : ℕ) (s : Bytes) → join (b ∷ []) (split_byte b s) ≡ s
unfolding split_byte join
join-split_byte b [] = refl
join-split_byte b (c ∷ s) =
    let (line, lines, h) = split_byte-longer b s in
    let rest : join (b ∷ []) (line ∷ lines) ≡ s =
      ap (join (b ∷ [])) (sym h) ∙ join-split_byte b s in
    elim (Bool-cases (c == b)) [
      | inl same ↦ rw (same, h) (join-nil b line lines ∙ ground (arith, rest, ==_iff c b, same))
      | inr other ↦ rw (other, h) (join-onto_first b c line lines ∙ ap (λ t. c ∷ t) rest)
    ]

-- A piece and its end are split off.
split_byte-line :
    (b : ℕ) (line s : Bytes) → Lacks b line → split_byte b (line ++ b ∷ s) ≡ line ∷ split_byte b s
unfolding split_byte
split_byte-line b [] s h = ground arith
split_byte-line b (c ∷ line) s (h, hs) = ground (arith, split_byte-line b line s hs)

abbrev pub indented : Bytes → Bytes
indented line = codes "     " ++ line

split_byte-quoted :
    (lines : List Bytes)
    → All (Lacks 10) lines
    → split_byte 10 (quoted lines) ≡ map indented lines ++ ([] ∷ [])
unfolding quoted split_byte
split_byte-quoted [] h = refl
split_byte-quoted (line ∷ lines) (h, hs) =
    rw (split_byte-line 10 line (quoted lines) h)
      (ap (λ ls. indented line ∷ ls) (split_byte-quoted lines hs))

-- The quotation of a text has its lines, in their order and each indented, and nothing behind them.
pub split_byte-quoted-split_byte :
    (s : Bytes)
    → split_byte 10 (quoted (split_byte 10 s)) ≡ map indented (split_byte 10 s) ++ ([] ∷ [])
split_byte-quoted-split_byte s = split_byte-quoted (split_byte 10 s) (split_byte-Lacks 10 s)
