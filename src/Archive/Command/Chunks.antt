-- ===== src/Archive/Command/Chunks.antt =====
-- The size of the parts of a streamed archive: what the shell computes where it runs `chunkSizing`'s text.
use pv_migrate.Common.{
  ℕ, ◌+◌, ◌*◌, ◌/◌, ◌≤◌, ◌<◌, ◌≡◌, arith, refl, Bytes, codes, itoa_ℕ, ◌++◌, Option, some, none,
  if◌then◌else◌, ltb, ◌==◌, ◌^◌,
}
use pv_migrate.Shell.{quote}
use pv_migrate.Archive.Command.{chunk_sizing}

-- A chain of products and quotients of `used`, which the shell's arithmetic reads from the left.
pub data Chain : Type 0 where
  used : Chain
  times over : Chain → ℕ → Chain

-- A number of MiB: a chain and what is added, and the least number.
pub record Rule : Type 0 where
  pub chain : Chain
  pub extra : ℕ
  pub least : ℕ

unfoldable pub chain_text : Chain → Bytes
unfolding itoa_ℕ
chain_text used = codes "used"
chain_text (times c n) = chain_text c ++ (codes " * " ++ itoa_ℕ n)
chain_text (over c n) = chain_text c ++ (codes " / " ++ itoa_ℕ n)

-- The shell text of a rule.
unfoldable pub rule_text : Rule → Bytes
unfolding chain_text itoa_ℕ
rule_text r =
    codes "chunk=$(( ("
    ++ (chain_text r.chain
        ++ (codes ") + "
            ++ (itoa_ℕ r.extra
                ++ (codes " )); [ \"$chunk\" -lt "
                    ++ (itoa_ℕ r.least
                        ++ (codes " ] && chunk=" ++ (itoa_ℕ r.least ++ codes "; ")))))))

-- A value of the shell's arithmetic, which has 64 bits and a sign: none where it would wrap.
abbrev in_64_bits : ℕ → Option ℕ
in_64_bits n = if ltb n (2 ^ 63) then some n else none

unfoldable pub chain_value : Chain → ℕ → Option ℕ
chain_value used bytes = in_64_bits bytes
chain_value (times c n) bytes = elim (chain_value c bytes) [
  | none ↦ none
  | some v ↦ in_64_bits (v * n)
]
chain_value (over c n) bytes = elim (chain_value c bytes) [
  | none ↦ none
  | some v ↦ if n == 0 then none else some (v / n)
]

-- What `$chunk` holds behind the text of a rule, for a number of used bytes.
unfoldable pub rule_value : Rule → ℕ → Option ℕ
unfolding chain_value
rule_value r bytes = elim (chain_value r.chain bytes) [
  | none ↦ none
  | some v ↦ elim (in_64_bits (v + r.extra)) [
    | none ↦ none
    | some chunk ↦ some (if ltb chunk r.least then r.least else chunk)
  ]
]

abbrev pub chunk_rule : Rule
chunk_rule = record {
  chain = over (over (over (times used 5) 4) 9000) 1048576;
  extra = 1;
  least = 5;
}

-- The text of `chunkSizing` reads the used bytes of the data path and then computes a rule, and where five times
-- the used bytes are less than 2^63, the shell's arithmetic does not wrap, and with parts of the size
-- computed 9000 parts hold the used bytes and a quarter more, and a part is never below 5 MiB, the least that S3 takes.
pub chunk_sizing-fits :
    (data_path : Bytes) (bytes : ℕ)
    → bytes * 5 < 2 ^ 63
    → (chunk_sizing data_path
        ≡ codes "used=$(df -B1 "
          ++ (quote data_path ++ (codes " | awk 'NR==2{print $3}'); " ++ rule_text chunk_rule)))
      × (chunk : ℕ) × (rule_value chunk_rule bytes ≡ some chunk)
      × (bytes + bytes / 4 ≤ 9000 * (chunk * 1048576))
      × (5 ≤ chunk)
unfolding chunk_sizing rule_text rule_value
chunk_sizing-fits data_path bytes h =
    let chunk = bytes * 5 / 4 / 9000 / 1048576 + 1 in
    (refl, (if ltb chunk 5 then 5 else chunk), ground (arith, h), ground arith, ground arith)
