-- ===== src/Rsync/Flags.antt =====
-- Which options of the command turn on which flags of rsync.
use pv_migrate.Common.{Bool, false, ◌||◌, List, [], ◌∷◌, ◌≡◌, Bytes, codes, str_eq, arith}
use pv_migrate.Rsync.{Cmd, option_flags}

abbrev pub has_flag : Bytes → List Bytes → Bool
has_flag f [] = false
has_flag f (g ∷ gs) = str_eq f g || has_flag f gs

-- rsync compresses, keeps no ownership, omits directory times or deletes exactly when the command
-- asks for it, and a command for a mover that is not root never asks for ownership.
pub option_flags_exact :
    (c : Cmd)
    → (has_flag (codes "--compress") (option_flags c) ≡ c.compress)
      × (has_flag (codes "--no-o") (option_flags c) ≡ (c.no_chown || c.non_root))
      × (has_flag (codes "--no-g") (option_flags c) ≡ (c.no_chown || c.non_root))
      × (has_flag (codes "--omit-dir-times") (option_flags c) ≡ c.non_root)
      × (has_flag (codes "--delete") (option_flags c) ≡ c.delete)
unfolding option_flags str_eq
option_flags_exact c = ground arith
