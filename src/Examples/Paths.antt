-- ===== src/Examples/Paths.antt =====
-- Paths of zk/src/c/src/zookeeper.c at concrete values.
use ruby_zookeeper.Prelude.{ℕ, ◌≡◌, refl, inr, true, false, Option, some, List, [], ◌∷◌, arith}
use ruby_zookeeper.Path.{is_sequence, path_loop, valid_within, is_valid_path}
use ruby_zookeeper.Path.Chroot.{
  strncmp_differs, prepend_string, sub_string, split_host, parse_host, sub_string-prepend_string,
}
use ruby_zookeeper.Path.Combine.{parse_host-prepend_string}
use ruby_zookeeper.Path.Names.{valid_spec}
use ruby_zookeeper.Path.Valid.{is_valid_path-valid_spec}

-- "/app"
abbrev app : List ℕ
app = 47 ∷ 97 ∷ 112 ∷ 112 ∷ []

-- "/x"
abbrev x : List ℕ
x = 47 ∷ 120 ∷ []

-- "h:1/app"
abbrev host : Option (List ℕ)
host = some (104 ∷ 58 ∷ 49 ∷ app)

host-accepted : parse_host host ≡ some (some (104 ∷ 58 ∷ 49 ∷ [], some app))
unfolding parse_host split_host is_valid_path valid_within path_loop is_sequence
host-accepted = refl

x-valid : is_valid_path (some x) 0 ≡ some true
unfolding is_valid_path valid_within path_loop is_sequence
x-valid = refl

-- "/a/../b" and "/a//b" are refused, and "/a/.b" is not.
dots-refused : is_valid_path (some (47 ∷ 97 ∷ 47 ∷ 46 ∷ 46 ∷ 47 ∷ 98 ∷ [])) 0 ≡ some false
unfolding is_valid_path valid_within path_loop is_sequence
dots-refused = refl

empty-refused : is_valid_path (some (47 ∷ 97 ∷ 47 ∷ 47 ∷ 98 ∷ [])) 0 ≡ some false
unfolding is_valid_path valid_within path_loop is_sequence
empty-refused = refl

hidden-accepted : is_valid_path (some (47 ∷ 97 ∷ 47 ∷ 46 ∷ 98 ∷ [])) 0 ≡ some true
unfolding is_valid_path valid_within path_loop is_sequence
hidden-accepted = refl

-- A path outside the chroot "/app" is cut as if it were inside.
outside-cut : sub_string (some app) (47 ∷ 122 ∷ 122 ∷ 122 ∷ 47 ∷ 120 ∷ []) ≡ some (some x)
unfolding sub_string strncmp_differs
outside-cut = refl

is_valid_path-valid_spec_example :
    is_valid_path (some app) 2 ≡ some (valid_spec (some app) (is_sequence 2))
is_valid_path-valid_spec_example = is_valid_path-valid_spec (some app) 2 (omega arith)

sub_string-prepend_string_example :
    sub_string (some app) (prepend_string (some app) x) ≡ some (some x)
sub_string-prepend_string_example =
    sub_string-prepend_string (97 ∷ 112 ∷ 112 ∷ []) (120 ∷ []) (some app) (inr refl)

parse_host-prepend_string_example :
    (is_valid_path (some (prepend_string (some app) x)) 0 ≡ some true)
    × (sub_string (some app) (prepend_string (some app) x) ≡ some (some x))
parse_host-prepend_string_example =
    parse_host-prepend_string host (104 ∷ 58 ∷ 49 ∷ []) x (some app) 0 host-accepted x-valid
      (omega arith)
