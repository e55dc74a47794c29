-- ===== src/Path/Chroot.antt =====
-- `prepend_string` and `sub_string`: the path that the server sees, and the way back.
use ruby_zookeeper.Prelude.{
  length, drop, length-append, drop-append, ltb, leb, ◌==◌, if◌then◌else◌, Bool-cases, ℕ, zero, suc,
  ◌≡◌, ◌⊎◌, inl, inr, Bool, true, false, ◌&&◌, ◌||◌, not, Option, none, some, List, [], ◌∷◌, ◌++◌,
  arith,
}
use ruby_zookeeper.Path.{is_valid_path}
use ruby_zookeeper.Path.Names.{Kind, empty, is_other, advance, valid_from}

-- Whether `strncmp(a, b, n)` is not 0, with a 0 behind each string.
unfoldable pub strncmp_differs : List ℕ → List ℕ → ℕ → Bool
strncmp_differs cs ds zero = false
strncmp_differs [] [] (suc n) = false
strncmp_differs [] (d ∷ ds) (suc n) = not (d == 0)
strncmp_differs (c ∷ cs) [] (suc n) = not (c == 0)
strncmp_differs (c ∷ cs) (d ∷ ds) (suc n) =
    let rest = strncmp_differs cs ds n in if c == d then not (c == 0) && rest else true

unfoldable pub prepend_string : Option (List ℕ) → List ℕ → List ℕ
prepend_string none client_path = client_path
prepend_string (some chroot) client_path =
    if length client_path == 1 then chroot else chroot ++ client_path

-- The third argument of `strncmp` is the test `strlen(zh->chroot) != 0`. The outer `none` is a
-- pointer behind the end of the server's path, the inner one is the null pointer.
unfoldable pub sub_string : Option (List ℕ) → List ℕ → Option (Option (List ℕ))
sub_string none server_path = some (some server_path)
sub_string (some chroot) server_path =
    if strncmp_differs server_path chroot (if not (length chroot == 0) then 1 else 0)
    then some none
    else if length server_path == length chroot
    then some (some (b'/' ∷ []))
    else if ltb (length server_path) (length chroot)
    then none
    else some (some (drop (length chroot) server_path))

-- `strchr(host, '/')`, as the bytes before the first slash and those from it on.
unfoldable pub split_host : List ℕ → List ℕ × List ℕ
split_host [] = ([], [])
split_host (c ∷ cs) =
    let rest = split_host cs in if c == b'/' then ([], c ∷ cs) else (c ∷ rest.0, rest.1)

-- The part of `zookeeper_init` that takes the host string apart, into the host names and the chroot.
-- The outer `none` is a read outside the string, the inner one the failure with `EINVAL`.
unfoldable pub parse_host : Option (List ℕ) → Option (Option (List ℕ × Option (List ℕ)))
parse_host none = some none
parse_host (some []) = some none
parse_host (some (c ∷ cs)) =
    let parts = split_host (c ∷ cs) in
    let len = length parts.1 in
    if len == 0 || len == 1
    then some (some (parts.0, none))
    else (elim (is_valid_path (some parts.1) 0) [
      | none ↦ none
      | some true ↦ some (some (parts.0, some parts.1))
      | some false ↦ some none
    ])

-- What is sent for a path that begins with a slash comes back as that path, under any chroot that
-- begins with a slash, and without one.
pub sub_string-prepend_string :
    (root rest : List ℕ) (chroot : Option (List ℕ))
    → (chroot ≡ none) ⊎ (chroot ≡ some (b'/' ∷ root))
    → sub_string chroot (prepend_string chroot (b'/' ∷ rest)) ≡ some (some (b'/' ∷ rest))
unfolding sub_string prepend_string strncmp_differs
sub_string-prepend_string root rest chroot (inl e) = rw e
sub_string-prepend_string root [] chroot (inr e) = rw e (ground arith)
sub_string-prepend_string root (c ∷ rest) chroot (inr e) =
    let longer = length-append root (b'/' ∷ c ∷ rest) in
    let behind = drop-append root (b'/' ∷ c ∷ rest) in rw e (ground arith)

pub valid_from-append :
    (sequence : Bool) (k : Kind) (root cs : List ℕ)
    → valid_from false k root ≡ true
    → valid_from sequence k (root ++ (b'/' ∷ cs)) ≡ valid_from sequence empty cs
unfolding valid_from
valid_from-append sequence k [] cs h = ground arith
valid_from-append sequence k (c ∷ root) cs h =
    let next = valid_from-append sequence empty root cs in
    let more = valid_from-append sequence (advance k c) root cs in
    ground (arith, Bool-cases (is_other k), Bool-cases (c == b'/'), Bool-cases (leb 0x1f c))
