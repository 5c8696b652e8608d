-- ===== src/Strategy/Session/Closed.antt =====
-- Everything that a session opens is closed: the life of one resource, as a machine over the uses.
use pv_migrate.Common.{
  ℕ, Bool, true, false, List, [], ◌∷◌, Option, none, some, ◌≡◌, arith, if◌then◌else◌,
}
use pv_migrate.Strategy.Session.{
  Resource, client, listener, session, Use, opened, closed, Connection, run_mover_over_ssh,
}

pub data Life : Type 0 where
  unopened live over : Life

abbrev pub is_same : Resource → Resource → Bool
is_same client client = true
is_same listener listener = true
is_same session session = true
is_same _ _ = false

-- What one use makes of a resource; closing it again is no harm, and all else is out of order.
abbrev pub used : Use → Life → Option Life
used (opened r) unopened = some live
used (closed r) live = some over
used (closed r) over = some over
used _ _ = none

abbrev pub resource_of : Use → Resource
resource_of (opened r) = r
resource_of (closed r) = r

abbrev pub life : Resource → Life → List Use → Option Life
life r l [] = some l
life r l (u ∷ us) =
    if is_same (resource_of u) r
    then elim (used u l) [ none ↦ none | some next ↦ life r next us ]
    else life r l us

abbrev pub is_at_rest : Option Life → Bool
is_at_rest (some unopened) = true
is_at_rest (some over) = true
is_at_rest _ = false

-- On every path, each of the SSH client, the listener of the tunnel and the session is either never opened,
-- or opened once and closed after that.
pub run_mover_over_ssh-is_at_rest :
    (c : Connection) (port : ℕ) (r : Resource)
    → is_at_rest (life r unopened (run_mover_over_ssh c port).0) ≡ true
unfolding run_mover_over_ssh
run_mover_over_ssh-is_at_rest c port client = ground arith
run_mover_over_ssh-is_at_rest c port listener = ground arith
run_mover_over_ssh-is_at_rest c port session = ground arith
