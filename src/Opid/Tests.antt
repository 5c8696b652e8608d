-- ===== src/Opid/Tests.antt =====
-- Runs of internal/opid/opid.go.
use pv_migrate.Common.{◌&&◌, true, [], ◌≡◌, ◌↔◌, refl, codes, ok, err, split_byte, length, leb}
use pv_migrate.Opid.{validate, bad_shape, no_id, too_long, max_length}
use pv_migrate.Opid.Shape.{all_segments, validate-ok}

two_words : validate (codes "able-cat2") ≡ ok tt
unfolding validate
two_words = refl

last_hyphen : validate (codes "able-") ≡ err (bad_shape (codes "able-"))
unfolding validate
last_hyphen = refl

double_hyphen : validate (codes "a--b") ≡ err (bad_shape (codes "a--b"))
unfolding validate
double_hyphen = refl

empty_id : validate [] ≡ err no_id
unfolding validate
empty_id = refl

long_id :
    validate (codes "abcdefghijklmnopqrstuvwxy")
    ≡ err (too_long (codes "abcdefghijklmnopqrstuvwxy"))
unfolding validate
long_id = refl

validate-ok_example : (validate (codes "able-cat2") ≡ ok tt) ↔ (
    leb (length (codes "able-cat2")) max_length
      && all_segments (split_byte b'-' (codes "able-cat2"))
    ≡ true)
validate-ok_example = validate-ok (codes "able-cat2")
