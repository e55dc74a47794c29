-- ===== src/Path/Valid.antt =====
-- `isValidPath` against what a valid path is.
use ruby_zookeeper.Prelude.{
  length, get_or, ◌==◌, if◌then◌else◌, ==_iff, Bool-cases, is_neg, ℕ, suc, ◌+◌, ◌-◌, ◌%◌, ◌^◌, ◌<◌,
  ◌≡◌, refl, sym, ap, ◌∙◌, ◌≢◌, inl, inr, Bool, true, false, ◌&&◌, not, Option, none, some, List,
  [], ◌∷◌, arith,
}
use ruby_zookeeper.Path.{is_sequence, path_loop, valid_within, is_valid_path}
use ruby_zookeeper.Path.Names.{
  split, names_ok, valid_spec, Kind, empty, dot, dots, other, is_other, advance, valid_from,
  valid_from-split,
}
use ruby_zookeeper.Path.Scan.{is_nil, ends, scan, same, path_loop-scan}

-- The bytes of a string; a null pointer has none.
abbrev pub size_of : Option (List ℕ) → ℕ
size_of none = 0
size_of (some path) = length path

some_if : (t b : Bool) → (if t then some false else some b) ≡ some (if t then false else b)
some_if true b = refl
some_if false b = refl

-- What the two bytes before the rest say of the name that is being read.
abbrev Shape : Kind → ℕ → ℕ → Type 0
Shape empty p c = c ≡ b'/'
Shape dot p c = (c ≡ b'.') × (p ≡ b'/')
Shape dots p c = (c ≡ b'.') × (p ≡ b'.')
Shape other p c = (c ≢ b'/') × ((c == b'.' && p == b'/') ≡ false)

-- What the loop has made sure of in front of the rest.
abbrev Ready : Kind → Bool → List ℕ → Type 0
Ready empty sequence cs = (is_nil cs && not sequence) ≡ false
Ready dot sequence cs = ends sequence cs ≡ false
Ready dots sequence cs = ends sequence cs ≡ false
Ready other sequence cs = Unit {0}

-- The last byte is a slash only if the path is sequential.
abbrev Closed : Bool → List ℕ → Type 0
Closed sequence [] = Unit {0}
Closed sequence (c ∷ cs) = ((c == b'/' && (is_nil cs && not sequence)) ≡ false) × Closed sequence cs

-- A name that is over, and is no proper one.
over :
    (sequence : Bool) (k : Kind) (cs : List ℕ)
    → is_other k ≡ false
    → ends sequence cs ≡ true
    → valid_from sequence k cs ≡ false
unfolding valid_from
over sequence k [] h e = ground (arith, Bool-cases sequence)
over sequence k (c ∷ cs) h e = let slash : (c == b'/') ≡ true = e in rw (slash, h)

scan-valid_from :
    (sequence : Bool) (k : Kind) (p lastc : ℕ) (cs : List ℕ)
    → Shape k p lastc
    → Ready k sequence cs
    → Closed sequence cs
    → scan sequence p lastc cs ≡ valid_from sequence k cs
unfolding scan valid_from
scan-valid_from sequence empty p lastc [] shape ready closed = ground (arith, Bool-cases sequence)
scan-valid_from sequence dot p lastc [] shape ready closed = ground (arith, Bool-cases sequence)
scan-valid_from sequence dots p lastc [] shape ready closed = ground (arith, Bool-cases sequence)
scan-valid_from sequence other p lastc [] shape ready closed = ground (arith, Bool-cases sequence)
scan-valid_from sequence empty p lastc (c ∷ cs) shape ready closed = elim (Bool-cases (c == b'.')) [
  | inl is_dot ↦ elim (Bool-cases (ends sequence cs)) [
    | inl e ↦ let no = over sequence dot cs refl e in ground arith
    | inr e ↦
        let ih =
          scan-valid_from sequence dot lastc c cs ((==_iff c b'.').0 is_dot, shape) e closed.1 in
        ground arith
  ]
  | inr plain ↦ elim (Bool-cases (c == b'/')) [
    | inl slash ↦ ground arith
    | inr name ↦
        let ih =
          scan-valid_from sequence other lastc c cs (ground arith, ground arith) tt closed.1 in
        ground arith
  ]
]
scan-valid_from sequence dot p lastc (c ∷ cs) shape ready closed = elim (Bool-cases (c == b'.')) [
  | inl is_dot ↦ elim (Bool-cases (ends sequence cs)) [
    | inl e ↦ let no = over sequence dots cs refl e in ground arith
    | inr e ↦
        let ih =
          scan-valid_from sequence dots lastc c cs ((==_iff c b'.').0 is_dot, shape.0) e closed.1 in
        ground arith
  ]
  | inr plain ↦
      let ih = scan-valid_from sequence other lastc c cs (ground arith, ground arith) tt closed.1 in
      ground arith
]
scan-valid_from sequence dots p lastc (c ∷ cs) shape ready closed =
    let ih = scan-valid_from sequence other lastc c cs (ground arith, ground arith) tt closed.1 in
    ground arith
scan-valid_from sequence other p lastc (c ∷ cs) shape ready closed = elim (Bool-cases (c == b'/')) [
  | inl slash ↦
      let ih = scan-valid_from sequence empty lastc c cs (ground arith) (ground arith) closed.1 in
      ground arith
  | inr name ↦
      let ih = scan-valid_from sequence other lastc c cs (ground arith, ground arith) tt closed.1 in
      ground arith
]

-- From the test of the last byte.
last-Closed :
    (sequence : Bool) (c : ℕ) (cs : List ℕ)
    → (get_or (c ∷ cs) (length cs) 0 == b'/' && not sequence) ≡ false
    → Closed sequence (c ∷ cs)
last-Closed sequence c [] h = (ground (arith, Bool-cases sequence), tt)
last-Closed sequence c (d ∷ cs) h = (ground arith, last-Closed sequence d cs h)

-- A slash at the end of a path that is not sequential.
valid_from-slash :
    (sequence : Bool) (k : Kind) (c : ℕ) (cs : List ℕ)
    → (get_or (c ∷ cs) (length cs) 0 == b'/' && not sequence) ≡ true
    → valid_from sequence k (c ∷ cs) ≡ false
unfolding valid_from
valid_from-slash sequence k c [] h = ground (arith, Bool-cases sequence)
valid_from-slash sequence k c (d ∷ cs) h =
    let next = valid_from-slash sequence empty d cs h in
    let more = valid_from-slash sequence (advance k c) d cs h in rw (next, more) (ground arith)

-- The tests of `isValidPath` behind the first slash.
from_slash-names_ok :
    (sequence : Bool) (path : List ℕ) (d : ℕ) (cs : List ℕ)
    → path ≡ b'/' ∷ d ∷ cs
    → (if get_or (d ∷ cs) (length cs) 0 == b'/' && not sequence
        then false
        else path_loop (suc (length cs)) path (suc (suc (length cs))) sequence 1 b'/')
      ≡ names_ok sequence (split (d ∷ cs))
from_slash-names_ok sequence path d cs e =
    let spec = valid_from-split sequence (d ∷ cs) in
    elim (Bool-cases (get_or (d ∷ cs) (length cs) 0 == b'/' && not sequence)) [
      | inl bad ↦ rw bad (sym (valid_from-slash sequence empty d cs bad) ∙ spec)
      | inr good ↦
          let size : 1 + suc (length cs) ≡ suc (suc (length cs)) = omega arith in
          let loop =
            path_loop-scan sequence (b'/' ∷ d ∷ cs) (d ∷ cs) 1 b'/'
              (λ j. same (b'/' ∷ d ∷ cs) (1 + j) (suc j) (omega arith)) refl in
          rw (good, e)
            ((rw size at loop)
              ∙ scan-valid_from sequence empty b'/' b'/' (d ∷ cs) refl refl
                  (last-Closed sequence d cs good)
              ∙ spec)
    ]

valid_within-valid_spec :
    (path : List ℕ) (flags : ℕ)
    → length path < 2 ^ 31
    → valid_within path flags (length path) ≡ some (valid_spec (some path) (is_sequence flags))
unfolding valid_within valid_spec
valid_within-valid_spec [] flags small = refl
valid_within-valid_spec (c ∷ []) flags small = ground arith
valid_within-valid_spec (c ∷ d ∷ cs) flags small = elim (Bool-cases (c == b'/')) [
  | inl slash ↦
      let e = ap (λ r. r ∷ d ∷ cs) ((==_iff c b'/').0 slash) in
      let behind = from_slash-names_ok (is_sequence flags) (c ∷ d ∷ cs) d cs e in
      let size : suc (suc (length cs)) - 1 ≡ suc (length cs) = omega arith in
      let some_bytes : (suc (suc (length cs)) == 0) ≡ false = ground arith in
      let more : (suc (suc (length cs)) == 1) ≡ false = ground arith in
      let an_int : is_neg (suc (suc (length cs))) ≡ false = ground (arith, small) in
      rw (slash, some_bytes, more, an_int, size) (some_if _ _ ∙ ap (λ b. some b) behind)
  | inr plain ↦
      let some_bytes : (suc (suc (length cs)) == 0) ≡ false = ground arith in rw (plain, some_bytes)
]

-- On every string of less than 2^31 bytes and all flags, `isValidPath` reads no byte before the string,
-- and returns true exactly for the root and for a slash followed by names with slashes between them,
-- where no byte is 0 or below 0x1f and no name is empty, `.` or `..`; with the flag ZOO_SEQUENCE the
-- last name may be any of these. A null path is refused.
pub is_valid_path-valid_spec :
    (path : Option (List ℕ)) (flags : ℕ)
    → size_of path < 2 ^ 31
    → is_valid_path path flags ≡ some (valid_spec path (is_sequence flags))
unfolding is_valid_path valid_spec
is_valid_path-valid_spec none flags small = refl
is_valid_path-valid_spec (some path) flags small =
    let size : length path % 2 ^ 32 ≡ length path = omega arith in
    ap (valid_within path flags) size ∙ valid_within-valid_spec path flags small
