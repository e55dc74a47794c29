-- ===== src/Path/Names.antt =====
-- What a valid path is, said by the names between its slashes.
use ruby_zookeeper.Prelude.{
  leb, ◌==◌, if◌then◌else◌, Bool-cases, ℕ, ◌≡◌, refl, sym, ap, ◌∙◌, inl, inr, Bool, true, false,
  ◌&&◌, ◌||◌, not, Option, none, some, List, [], ◌∷◌, ◌++◌, arith,
}
use mathlib.Core.List.{append_assoc, append-nil}

-- Names, the first of them with `seg` put before it.
abbrev pub glue : List ℕ → List (List ℕ) → List (List ℕ)
glue seg [] = seg ∷ []
glue seg (s ∷ ss) = (seg ++ s) ∷ ss

-- The names between the slashes of a text.
unfoldable pub split : List ℕ → List (List ℕ)
split [] = [] ∷ []
split (c ∷ cs) = let rest = split cs in if c == b'/' then [] ∷ rest else glue (c ∷ []) rest

-- No byte of a name is 0 or a control character below 0x1f.
abbrev pub all_printable : List ℕ → Bool
all_printable [] = true
all_printable (c ∷ cs) = leb 0x1f c && all_printable cs

-- A name is not empty, and is neither of the relative names.
abbrev pub is_proper : List ℕ → Bool
is_proper [] = false
is_proper (c ∷ []) = not (c == b'.')
is_proper (c ∷ d ∷ []) = not (c == b'.' && d == b'.')
is_proper (c ∷ d ∷ e ∷ cs) = true

-- All names are proper; the last of a sequential path may be any prefix, since the server adds to it.
abbrev pub names_ok : Bool → List (List ℕ) → Bool
names_ok sequence [] = true
names_ok sequence (s ∷ []) = all_printable s && (sequence || is_proper s)
names_ok sequence (s ∷ t ∷ ss) = all_printable s && (is_proper s && names_ok sequence (t ∷ ss))

-- The root, or a slash and names.
unfoldable pub valid_spec : Option (List ℕ) → Bool → Bool
valid_spec none sequence = false
valid_spec (some []) sequence = false
valid_spec (some (c ∷ [])) sequence = c == b'/'
valid_spec (some (c ∷ d ∷ cs)) sequence = c == b'/' && names_ok sequence (split (d ∷ cs))

-- What is known of the name that is being read.
pub data Kind : Type 0 where
  empty dot dots other : Kind

abbrev pub is_other : Kind → Bool
is_other other = true
is_other _ = false

abbrev pub advance : Kind → ℕ → Kind
advance empty c = if c == b'.' then dot else other
advance dot c = if c == b'.' then dots else other
advance _ c = other

-- The same check in one pass.
unfoldable pub valid_from : Bool → Kind → List ℕ → Bool
valid_from sequence k [] = sequence || is_other k
valid_from sequence k (c ∷ cs) =
    let next = valid_from sequence empty cs in
    let more = valid_from sequence (advance k c) cs in
    if c == b'/' then is_other k && next else leb 0x1f c && more

abbrev kind_of : List ℕ → Kind
kind_of [] = empty
kind_of (c ∷ []) = if c == b'.' then dot else other
kind_of (c ∷ d ∷ []) = if c == b'.' && d == b'.' then dots else other
kind_of (c ∷ d ∷ e ∷ cs) = other

is_proper-kind : (seg : List ℕ) → is_proper seg ≡ is_other (kind_of seg)
is_proper-kind [] = refl
is_proper-kind (c ∷ []) = ground arith
is_proper-kind (c ∷ d ∷ []) = ground arith
is_proper-kind (c ∷ d ∷ e ∷ cs) = refl

kind-append : (seg : List ℕ) (c : ℕ) → kind_of (seg ++ (c ∷ [])) ≡ advance (kind_of seg) c
kind-append [] c = refl
kind-append (a ∷ []) c = ground arith
kind-append (a ∷ b ∷ []) c = ground arith
kind-append (a ∷ b ∷ d ∷ cs) c = refl

all_printable-append :
    (seg : List ℕ) (cs : List ℕ)
    → all_printable (seg ++ cs) ≡ (all_printable seg && all_printable cs)
all_printable-append [] cs = refl
all_printable-append (c ∷ seg) cs = ground (arith, all_printable-append seg cs)

glue-glue :
    (seg mid : List ℕ) (names : List (List ℕ)) → glue seg (glue mid names) ≡ glue (seg ++ mid) names
glue-glue seg mid [] = refl
glue-glue seg mid (s ∷ ss) = ap (λ t. t ∷ ss) (sym (append_assoc seg mid s))

names_ok-bad :
    (sequence : Bool) (seg : List ℕ) (names : List (List ℕ))
    → all_printable seg ≡ false
    → names_ok sequence (glue seg names) ≡ false
names_ok-bad sequence seg [] bad = rw bad
names_ok-bad sequence seg (s ∷ []) bad = rw (all_printable-append seg s, bad)
names_ok-bad sequence seg (s ∷ t ∷ ss) bad = rw (all_printable-append seg s, bad)

split-ne-nil : (cs : List ℕ) → (s : List ℕ) × (ss : List (List ℕ)) × (split cs ≡ s ∷ ss)
unfolding split
split-ne-nil [] = ([], [], refl)
split-ne-nil (c ∷ cs) = elim (Bool-cases (c == b'/')) [
  | inl slash ↦ ([], split cs, rw slash)
  | inr plain ↦
      let (s, ss, e) = split-ne-nil cs in ((c ∷ []) ++ s, ss, rw plain (ap (glue (c ∷ [])) e))
]

names_ok-slash :
    (sequence : Bool) (seg cs : List ℕ)
    → all_printable seg ≡ true
    → names_ok sequence (glue seg ([] ∷ split cs))
      ≡ (is_other (kind_of seg) && names_ok sequence (glue [] (split cs)))
names_ok-slash sequence seg cs fine =
    let (s, ss, e) = split-ne-nil cs in rw (append-nil seg, e) (rw (fine, is_proper-kind seg))

pub valid_from-names :
    (sequence : Bool) (seg cs : List ℕ)
    → all_printable seg ≡ true
    → valid_from sequence (kind_of seg) cs ≡ names_ok sequence (glue seg (split cs))
unfolding valid_from split
valid_from-names sequence seg [] fine = rw (append-nil seg, fine, is_proper-kind seg)
valid_from-names sequence seg (c ∷ cs) fine = elim (Bool-cases (c == b'/')) [
  | inl slash ↦
      rw (slash, names_ok-slash sequence seg cs fine)
        (ap (λ t. is_other (kind_of seg) && t) (valid_from-names sequence [] cs refl))
  | inr plain ↦
      rw (plain, glue-glue seg (c ∷ []) (split cs))
        (elim (Bool-cases (leb 0x1f c)) [
          | inl good ↦
              rw (good, ← kind-append seg c)
                (valid_from-names sequence (seg ++ (c ∷ [])) cs
                  (rw (all_printable-append seg (c ∷ []), fine, good)))
          | inr bad ↦ rw (
            bad,
            names_ok-bad sequence (seg ++ (c ∷ [])) (split cs)
                (rw (all_printable-append seg (c ∷ []), fine, bad)),
          )
        ])
]

-- From the start of a name.
pub valid_from-split :
    (sequence : Bool) (cs : List ℕ) → valid_from sequence empty cs ≡ names_ok sequence (split cs)
valid_from-split sequence cs =
    let (s, ss, e) = split-ne-nil cs in
    let glued : glue [] (split cs) ≡ split cs = rw e in
    valid_from-names sequence [] cs refl ∙ ap (names_ok sequence) glued
