-- ===== src/Rclone/Words.antt =====
-- The command line of rclone, as the shell reads it.
use pv_migrate.Common.{
  ◌++◌, ◌&&◌, not, List, [], ◌∷◌, ◌≡◌, refl, sym, ◌∙◌, ap, append_assoc, append-nil, Bytes, codes,
  join, if◌then◌else◌, is_empty, ok, none, none, some, Bool-cases, inl, inr, >>=-eq-ok, map_err,
  ok-injective, str_eq,
}
use pv_migrate.Shell.{quote, check_fields}
use pv_migrate.Shell.Lexer.{Token, word, run, finish, tokens}
use pv_migrate.Shell.Words.{Splits, AllSplit, quote-Splits, ones, tokens-quote, tokens-ones_then}
use pv_migrate.Rclone.{Cmd, build, fields, ends, action, command_line, bad_line, restore}

abbrev texts_to : Cmd → Bytes → List Bytes
texts_to c src =
    action c
    ∷ ((if is_empty c.config_path then [] else codes "--config" ∷ quote c.config_path ∷ [])
        ++ codes "--stats"
          ∷ codes "1s"
          ∷ codes "--stats-log-level"
          ∷ codes "NOTICE"
          ∷ codes "--use-json-log"
          ∷ codes "--stats-one-line"
          ∷ quote src
          ∷ [])

abbrev pub tokens_to : Cmd → Bytes → List Token
tokens_to c src =
    word (action c)
    ∷ ((if is_empty c.config_path then [] else word (codes "--config") ∷ word c.config_path ∷ [])
        ++ word (codes "--stats")
          ∷ word (codes "1s")
          ∷ word (codes "--stats-log-level")
          ∷ word (codes "NOTICE")
          ∷ word (codes "--use-json-log")
          ∷ word (codes "--stats-one-line")
          ∷ word src
          ∷ [])

action_split : (c : Cmd) → Splits (action c) (word (action c) ∷ [])
unfolding action run
action_split c = elim (Bool-cases (str_eq c.direction restore && not c.delete)) [
  | inl e ↦ rw (action, e) refl
  | inr e ↦ rw (action, e) refl
]

config_split :
    (path : Bytes) (texts : List Bytes) (ks : List Token)
    → AllSplit texts (ones ks)
    → AllSplit
        ((if is_empty path then [] else codes "--config" ∷ quote path ∷ []) ++ texts)
        (ones ((if is_empty path then [] else word (codes "--config") ∷ word path ∷ []) ++ ks))
unfolding run
config_split [] texts ks h = h
config_split (c ∷ s) texts ks h = (refl, (quote-Splits (c ∷ s), h))

all_split : (c : Cmd) (src : Bytes) → AllSplit (texts_to c src) (ones (tokens_to c src))
unfolding run
all_split c src = (
  action_split c,
  config_split c.config_path _ _
      (refl, (refl, (refl, (refl, (refl, (refl, (quote-Splits src, tt))))))),
)

config_join :
    (act path src rest : Bytes)
    → act
        ++ ((if is_empty path then [] else codes " --config " ++ quote path)
            ++ (codes " --stats 1s --stats-log-level NOTICE --use-json-log --stats-one-line"
                ++ (b' ' ∷ (quote src ++ (b' ' ∷ rest)))))
      ≡ join (codes " ") (
          act
          ∷ ((if is_empty path then [] else codes "--config" ∷ quote path ∷ [])
              ++ codes "--stats"
                ∷ codes "1s"
                ∷ codes "--stats-log-level"
                ∷ codes "NOTICE"
                ∷ codes "--use-json-log"
                ∷ codes "--stats-one-line"
                ∷ quote src
                ∷ []))
        ++ (b' ' ∷ rest)
unfolding join
config_join act [] src rest = simp append_assoc
config_join act (c ∷ s) src rest = simp append_assoc

line-join :
    (c : Cmd) (src dest : Bytes)
    → command_line c src dest
      ≡ join (codes " ") (codes "rclone" ∷ texts_to c src)
        ++ (b' ' ∷ (quote dest ++ (if is_empty c.extra_args then [] else b' ' ∷ c.extra_args)))
unfolding command_line join
line-join c src dest =
    ap (λ s. codes "rclone " ++ s)
      (config_join (action c) c.config_path src
        (quote dest ++ (if is_empty c.extra_args then [] else b' ' ∷ c.extra_args)))

tokens_nil : tokens [] ≡ some []
unfolding tokens run finish
tokens_nil = refl

last_split :
    (dest extra : Bytes) (ts : List Token)
    → tokens extra ≡ some ts
    → tokens (quote dest ++ (if is_empty extra then [] else b' ' ∷ extra)) ≡ some (word dest ∷ ts)
unfolding join
last_split dest [] ts h =
    ap tokens (append-nil (quote dest))
    ∙ tokens-quote dest
    ∙ ap (λ o. elim o [ none ↦ none | some us ↦ some (word dest ∷ us) ]) (sym tokens_nil ∙ h)
last_split dest (c ∷ s) ts h =
    tokens-ones_then (quote dest) [] (word dest) [] ts (c ∷ s) (quote-Splits dest) tt h

-- The shell reads a command that `Build` accepts as rclone, its action, the configuration where there is
-- one, its flags, exactly one word each for the source and the destination of the direction, whatever the
-- paths hold, and the words of the extra arguments.
pub tokens-build_rclone :
    (c : Cmd) (extra : List Token) {s : Bytes}
    → tokens c.extra_args ≡ some extra
    → build c ≡ ok s
    → (src : Bytes) × (dest : Bytes) × (ends c ≡ ok (src, dest))
      × (tokens s ≡ some (word (codes "rclone") ∷ (tokens_to c src ++ word dest ∷ extra)))
unfolding build
tokens-build_rclone c extra {s} e h =
    let (u, f, h₁) = >>=-eq-ok (map_err bad_line (check_fields (fields c))) _ h in
    let (paths, p, h₂) = >>=-eq-ok (ends c) _ h₁ in
    (
      paths.0,
      paths.1,
      p,
      ap tokens (sym (ok-injective h₂) ∙ line-join c paths.0 paths.1)
          ∙ tokens-ones_then (codes "rclone") (texts_to c paths.0) (word (codes "rclone"))
              (tokens_to c paths.0) (word paths.1 ∷ extra) _ (unfold run in refl)
              (all_split c paths.0) (last_split paths.1 c.extra_args extra e),
    )
