-- ===== src/Path/Combine.antt =====
-- Paths under the chroot that a host string names.
use ruby_zookeeper.Prelude.{
  length, length-append, leb, ◌==◌, Bool-cases, Option-cases, some-injective, ℕ, ◌+◌, ◌^◌, ◌≤◌, ◌<◌,
  ◌≡◌, refl, sym, ap, ◌∙◌, ◌⊎◌, inl, inr, Bool, true, false, ◌||◌, Option, none, some, List, [],
  ◌∷◌, ◌++◌, arith,
}
use ruby_zookeeper.Path.{is_sequence, is_valid_path}
use ruby_zookeeper.Path.Chroot.{
  prepend_string, sub_string, split_host, parse_host, sub_string-prepend_string, valid_from-append,
}
use ruby_zookeeper.Path.Names.{
  valid_spec, Kind, empty, is_other, advance, valid_from, valid_from-split,
}
use ruby_zookeeper.Path.Valid.{size_of, is_valid_path-valid_spec}

-- A slash and something behind it.
record Rooted (sequence : Bool) (path : List ℕ) : Type 0 where
  d : ℕ
  ds : List ℕ
  starts : path ≡ b'/' ∷ d ∷ ds
  passes : valid_from sequence empty (d ∷ ds) ≡ true

valid_spec-true :
    (path : List ℕ) (flags : ℕ)
    → length path < 2 ^ 31
    → is_valid_path (some path) flags ≡ some true
    → valid_spec (some path) (is_sequence flags) ≡ true
valid_spec-true path flags small h =
    some-injective (sym (is_valid_path-valid_spec (some path) flags small) ∙ h)

spec-Rooted :
    (path : List ℕ) (sequence : Bool)
    → valid_spec (some path) sequence ≡ true
    → (path ≡ b'/' ∷ []) ⊎ Rooted sequence path
unfolding valid_spec
spec-Rooted [] sequence h = absurd (ground arith)
spec-Rooted (c ∷ []) sequence h = inl (ap (λ r. r ∷ []) (ground arith))
spec-Rooted (c ∷ d ∷ ds) sequence h =
    let names = valid_from-split sequence (d ∷ ds) in
    let slash : c ≡ b'/' = ground arith in
    inr (record { d = d; ds = ds; starts = ap (λ r. r ∷ d ∷ ds) slash; passes = ground arith })

valid-Rooted :
    (path : List ℕ) (flags : ℕ)
    → length path < 2 ^ 31
    → is_valid_path (some path) flags ≡ some true
    → (path ≡ b'/' ∷ []) ⊎ Rooted (is_sequence flags) path
valid-Rooted path flags small h =
    spec-Rooted path (is_sequence flags) (valid_spec-true path flags small h)

Rooted-valid :
    (path : List ℕ) (flags : ℕ)
    → length path < 2 ^ 31
    → Rooted (is_sequence flags) path
    → is_valid_path (some path) flags ≡ some true
unfolding valid_spec
Rooted-valid path flags small r =
    let names = valid_from-split (is_sequence flags) (r.d ∷ r.ds) in
    let spec : valid_spec (some path) (is_sequence flags) ≡ true =
      rw r.starts (sym names ∙ r.passes) in
    is_valid_path-valid_spec (some path) flags small ∙ ap (λ b. some b) spec

-- A path that is valid is valid as a sequential one.
relax :
    (sequence : Bool) (k : Kind) (cs : List ℕ)
    → valid_from false k cs ≡ true
    → valid_from sequence k cs ≡ true
unfolding valid_from
relax sequence k [] h = ground (arith, Bool-cases sequence)
relax sequence k (c ∷ cs) h =
    let next = relax sequence empty cs in
    let more = relax sequence (advance k c) cs in
    ground (arith, Bool-cases (is_other k), Bool-cases (c == b'/'), Bool-cases (leb 0x1f c))

abbrev chroot_of : Option (Option (List ℕ × Option (List ℕ))) → Option (List ℕ)
chroot_of none = none
chroot_of (some none) = none
chroot_of (some (some r)) = r.1

-- The chroot of a handle, if it has one.
parse_host-Rooted :
    (host : Option (List ℕ)) (names : List ℕ) (chroot : Option (List ℕ))
    → parse_host host ≡ some (some (names, chroot))
    → size_of chroot < 2 ^ 31
    → (chroot ≡ none) ⊎ ((root : List ℕ) × (chroot ≡ some root) × Rooted false root)
unfolding parse_host is_sequence
parse_host-Rooted none names chroot h small = absurd (cc (some-injective h))
parse_host-Rooted (some []) names chroot h small = absurd (cc (some-injective h))
parse_host-Rooted (some (c ∷ cs)) names chroot h small =
    let root = (split_host (c ∷ cs)).1 in
    elim (Bool-cases (length root == 0 || length root == 1)) [
      | inl few ↦ inl (sym (ap chroot_of (rw few at h)))
      | inr many ↦ elim (Option-cases (is_valid_path (some root) 0)) [
        | inl outside ↦
            let lost : parse_host (some (c ∷ cs)) ≡ none =
              rw many (rw (outside, parse_host) refl) in
            absurd (cc (sym lost ∙ h))
        | inr (valid, run) ↦ elim (Bool-cases valid) [
          | inl good ↦
              let run' : is_valid_path (some root) 0 ≡ some true = run ∙ ap (λ b. some b) good in
              let parsed : parse_host (some (c ∷ cs))
                  ≡ some (some ((split_host (c ∷ cs)).0, some root)) =
                rw many (rw (run', parse_host) refl) in
              let is_root : some root ≡ chroot = ap chroot_of (sym parsed ∙ h) in
              let root_small : length root < 2 ^ 31 = rw (← is_root) at small in
              elim (valid-Rooted root 0 root_small run') [
                | inl e ↦ absurd (ground (arith, ap length e))
                | inr r ↦ inr (root, sym is_root, r)
              ]
          | inr bad ↦
              let run' : is_valid_path (some root) 0 ≡ some false = run ∙ ap (λ b. some b) bad in
              let parsed : parse_host (some (c ∷ cs)) ≡ some none =
                rw many (rw (run', parse_host) refl) in
              absurd (cc (some-injective (sym parsed ∙ h)))
        ]
      ]
    ]

Rooted-prepend :
    (sequence : Bool) (root path : List ℕ)
    → Rooted false root
    → (path ≡ b'/' ∷ []) ⊎ Rooted sequence path
    → Rooted sequence (prepend_string (some root) path)
unfolding prepend_string
Rooted-prepend sequence root path r (inl e) = rw e (record {
  d = r.d;
  ds = r.ds;
  starts = r.starts;
  passes = relax sequence empty (r.d ∷ r.ds) r.passes;
})
Rooted-prepend sequence root path r (inr q) =
    let long : (length path == 1) ≡ false = rw q.starts (ground arith) in
    rw long (record {
      d = r.d;
      ds = r.ds ++ (b'/' ∷ q.d ∷ q.ds);
      starts = rw (r.starts, q.starts);
      passes = valid_from-append sequence empty (r.d ∷ r.ds) (q.d ∷ q.ds) r.passes ∙ q.passes;
    })

slash_first :
    (sequence : Bool) (path : List ℕ)
    → (path ≡ b'/' ∷ []) ⊎ Rooted sequence path
    → (rest : List ℕ) × (path ≡ b'/' ∷ rest)
slash_first sequence path (inl e) = ([], e)
slash_first sequence path (inr q) = (q.d ∷ q.ds, q.starts)

prepend_string-size :
    (chroot : Option (List ℕ)) (path : List ℕ)
    → length (prepend_string chroot path) ≤ size_of chroot + length path
unfolding prepend_string
prepend_string-size none path = omega arith
prepend_string-size (some root) path = ground (arith, length-append root path)

-- For every host string that `zookeeper_init` accepts and every path that `isValidPath` accepts with
-- the flags, where the chroot of the host and the path are together shorter than 2^31 bytes: the path
-- that is sent, with the chroot before it, is valid with these flags, and what `sub_string` makes of
-- it is the path again.
pub parse_host-prepend_string :
    (host : Option (List ℕ)) (names path : List ℕ) (chroot : Option (List ℕ)) (flags : ℕ)
    → parse_host host ≡ some (some (names, chroot))
    → is_valid_path (some path) flags ≡ some true
    → size_of chroot + length path < 2 ^ 31
    → (is_valid_path (some (prepend_string chroot path)) flags ≡ some true)
      × (sub_string chroot (prepend_string chroot path) ≡ some (some path))
unfolding prepend_string
parse_host-prepend_string host names path chroot flags h valid small =
    let shape = valid-Rooted path flags (omega arith) valid in
    let (rest, e) = slash_first (is_sequence flags) path shape in
    elim (parse_host-Rooted host names chroot h (omega arith)) [
      | inl bare ↦ (rw bare valid, rw e (sub_string-prepend_string [] rest chroot (inl bare)))
      | inr (root, is_root, r) ↦
          let fits : length (prepend_string (some root) path) < 2 ^ 31 =
            omega (arith, prepend_string-size (some root) path, ap size_of is_root) in
          (
            rw is_root (
                Rooted-valid (prepend_string (some root) path) flags fits
                  (Rooted-prepend (is_sequence flags) root path r shape)),
            rw e (
                sub_string-prepend_string (r.d ∷ r.ds) rest chroot
                  (inr (is_root ∙ ap (λ p. some p) r.starts))),
          )
    ]
