-- ===== src/K8s/Tail.antt =====
-- The tail of a pod's log and how it is shown (internal/k8s/job.go). Decoding an rclone record is
-- encoding/json's and an argument.
pub mod Counts
pub mod Marks
pub mod Lines
use pv_migrate.Common.{
  ◌++◌, ℕ, zero, suc, ◌+◌, Bool, true, false, ◌&&◌, ◌||◌, not, List, [], ◌∷◌, Option, none, some,
  Bytes, codes, has_suffix, is_empty, if◌then◌else◌, str_eq, join, trim_space, itoa_ℕ, ◌==◌,
  contains, ltb, map, cut_prefix, replace_byte, length,
}
use pv_migrate.K8s.Pods.{rclone_job_suffix, Pod}
use pv_migrate.Rsync as rsync

abbrev pub onto_first : ℕ → List Bytes → List Bytes
onto_first c [] = (c ∷ []) ∷ []
onto_first c (line ∷ lines) = (c ∷ line) ∷ lines

-- `strings.Split` at a byte.
unfoldable pub split_byte : ℕ → Bytes → List Bytes
split_byte b [] = [] ∷ []
split_byte b (c ∷ s) = let rest = split_byte b s in if c == b then [] ∷ rest else onto_first c rest

-- `strings.TrimRight` of one byte.
unfoldable pub trim_right_byte : ℕ → Bytes → Bytes
trim_right_byte b [] = []
trim_right_byte b (c ∷ s) =
    let rest = trim_right_byte b s in if c == b && is_empty rest then [] else c ∷ rest

-- `strings.ReplaceAll(s, "\r\n", "\n")`
unfoldable pub replace_crlf : Bytes → Bytes
replace_crlf [] = []
replace_crlf (c ∷ []) = c ∷ []
replace_crlf (c ∷ d ∷ s) =
    let both = replace_crlf s in
    let one = replace_crlf (d ∷ s) in if (c == 13) && (d == 10) then 10 ∷ both else c ∷ one

-- The line ends of `recentPodLogs`; a log that cannot be read is no text.
unfoldable pub recent_pod_logs : Option Bytes → Bytes
recent_pod_logs none = []
recent_pod_logs (some bytes) = replace_byte 13 (10 ∷ []) (replace_crlf bytes)

-- One record of rclone's: its level and its message.
abbrev pub JsonRecord : Type 0
JsonRecord = Bytes × Bytes

-- `mapRcloneRecords` on one line
unfoldable pub map_rclone_record : (Bytes → Option JsonRecord) → Bytes → Bytes
map_rclone_record unmarshal line = elim (unmarshal line) [
  | none ↦ line
  | some (level, msg) ↦
      if is_empty msg
      then line
      else if not (is_empty level)
      then level ++ (codes ": " ++ msg)
      else msg
]

-- `counts[line]`
unfoldable pub count : Bytes → List Bytes → ℕ
count line [] = 0
count line (l ∷ ls) = (if str_eq line l then 1 else 0) + count line ls

-- The line with the number of times it is there, where it is there more than once and is not blank.
unfoldable pub with_count : Bytes → ℕ → Bytes
with_count line repeat =
    if ltb 1 repeat && not (is_empty (trim_space line))
    then line ++ (codes " (x" ++ (itoa_ℕ repeat ++ codes ")"))
    else line

-- The lines in the order they first come, each once: `seen` has those that were met before.
unfoldable pub first_occurrences : List Bytes → List Bytes → List Bytes
first_occurrences seen [] = []
first_occurrences seen (line ∷ lines) =
    let rest = first_occurrences (line ∷ seen) lines in
    let skipped = first_occurrences seen lines in
    if ltb 0 (count line seen) then skipped else line ∷ rest

-- The lines that `renderTail` counts.
unfoldable pub tail_lines : (Bytes → Option JsonRecord) → Bytes → Bytes → List Bytes
tail_lines unmarshal job_name tail =
    let lines = split_byte 10 (trim_right_byte 10 tail) in
    if has_suffix job_name rclone_job_suffix then map (map_rclone_record unmarshal) lines else lines

-- The lines that `renderTail` writes.
unfoldable pub counted_lines : List Bytes → List Bytes
counted_lines lines = map (λ line. with_count line (count line lines)) (first_occurrences [] lines)

-- `renderTail`
unfoldable pub render_tail : (Bytes → Option JsonRecord) → Bytes → Bytes → Bytes
render_tail unmarshal job_name tail =
    join (10 ∷ []) (counted_lines (tail_lines unmarshal job_name tail)) ++ (10 ∷ [])

-- The lines of a quotation, each indented and ended.
unfoldable pub quoted : List Bytes → Bytes
quoted [] = []
quoted (line ∷ lines) = codes "     " ++ (line ++ (10 ∷ quoted lines))

-- `writeTail`: what it writes, with the colours of the palette's `Dim` as an argument.
unfoldable pub write_tail :
    (Bytes → Bytes) → (Bytes → Option JsonRecord) → Pod → Bytes → Bytes → Bytes
write_tail dim unmarshal pod job_name tail =
    if is_empty tail
    then []
    else (10 ∷ codes "   ")
      ++ (dim (
            codes "Last log lines of pod "
            ++ (pod.namespace ++ (codes "/" ++ (pod.name ++ codes ":"))))
          ++ (10
              ∷ (quoted (split_byte 10 (trim_right_byte 10 (render_tail unmarshal job_name tail)))
                  ++ (10 ∷ []))))

-- `strings.Count` of a text that is not empty, the search resumed behind each place found.
unfoldable pub count_from : ℕ → Bytes → Bytes → ℕ
count_from zero s pattern = 0
count_from (suc fuel) [] pattern = 0
count_from (suc fuel) (c ∷ s) pattern = elim (cut_prefix (c ∷ s) pattern) [
  | some rest ↦ suc (count_from fuel rest pattern)
  | none ↦ count_from fuel s pattern
]

-- `warnIfSourceFilesVanished`: the warning's count, if there is a warning; a count of none is left out.
unfoldable pub warn_if_source_files_vanished : Bytes → Option (Option ℕ)
warn_if_source_files_vanished tail =
    let count = count_from (length tail) tail (codes "file has vanished:") in
    if not (contains tail rsync.vanished_files_marker)
    then none
    else some (if ltb 0 count then some count else none)
