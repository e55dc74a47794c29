-- ===== src/Path.antt =====
-- The paths of zk/src/c/src/zookeeper.c: their check, and the chroot that a handle puts before them.
-- A C string is the list of its bytes before the terminator, a null pointer is `none`.
pub mod Scan
pub mod Valid
pub mod Names
pub mod Chroot
pub mod Combine
use ruby_zookeeper.Prelude.{
  ℕ, zero, suc, ◌+◌, ◌-◌, ◌/◌, ◌%◌, Bool, true, false, ◌&&◌, ◌||◌, not, Option, none, some, List,
  [], ◌∷◌, ◌++◌, length, get_or, drop, take, ltb, leb, ◌^◌, is_neg, ◌==◌, if◌then◌else◌,
}

-- `flags & ZOO_SEQUENCE`
unfoldable pub is_sequence : ℕ → Bool
is_sequence flags = flags / 2 % 2 == 1

-- The loop of `isValidPath`, over the rounds left; behind the end of the path stands a 0. `path[i - 2]`
-- is read only after a dot at `i - 1`, so that `i` is 2 at least.
unfoldable pub path_loop : ℕ → List ℕ → ℕ → Bool → ℕ → ℕ → Bool
path_loop zero path len sequence i lastc = true
path_loop (suc rounds) path len sequence i lastc =
    let c = get_or path i 0 in
    let rest = path_loop rounds path len sequence (i + 1) c in
    let ends = (i + 1 == len && not sequence) || get_or path (i + 1) 0 == b'/' in
    if c == 0
    then false
    else if c == b'/' && lastc == b'/'
    then false
    else if c == b'.' && lastc == b'.'
    then (if get_or path (i - 2) 0 == b'/' && ends then false else rest)
    else if c == b'.'
    then (if get_or path (i - 1) 0 == b'/' && ends then false else rest)
    else if ltb 0 c && ltb c 0x1f
    then false
    else rest

-- The checks behind the one for a null pointer, with the `len` that `strlen` leaves in an int. A
-- negative one has the last byte looked for before the string: `none`.
unfoldable pub valid_within : List ℕ → ℕ → ℕ → Option Bool
valid_within path flags len =
    if len == 0
    then some false
    else if not (get_or path 0 0 == b'/')
    then some false
    else if len == 1
    then some true
    else if is_neg len
    then none
    else if get_or path (len - 1) 0 == b'/' && not (is_sequence flags)
    then some false
    else some (path_loop (len - 1) path len (is_sequence flags) 1 b'/')

unfoldable pub is_valid_path : Option (List ℕ) → ℕ → Option Bool
is_valid_path none flags = some false
is_valid_path (some path) flags = valid_within path flags (length path % 2 ^ 32)
