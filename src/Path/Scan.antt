-- ===== src/Path/Scan.antt =====
-- The loop of `isValidPath` without indices, and what it decides.
use ruby_zookeeper.Prelude.{
  length, get_or, ltb, ◌==◌, if◌then◌else◌, ℕ, suc, ◌+◌, ◌-◌, ◌≡◌, refl, ap, ◌∙◌, Bool, true, false,
  ◌&&◌, ◌||◌, not, List, [], ◌∷◌, arith,
}
use ruby_zookeeper.Path.{path_loop}

abbrev pub is_nil : List ℕ → Bool
is_nil [] = true
is_nil (c ∷ cs) = false

-- The name read so far is over: a slash follows, or the end of a path that is not sequential.
abbrev pub ends : Bool → List ℕ → Bool
ends sequence cs = (is_nil cs && not sequence) || get_or cs 0 0 == b'/'

-- The loop with the two bytes `p` and `lastc` before the rest.
unfoldable pub scan : Bool → ℕ → ℕ → List ℕ → Bool
scan sequence p lastc [] = true
scan sequence p lastc (c ∷ cs) =
    let rest = scan sequence lastc c cs in
    if c == 0
    then false
    else if c == b'/' && lastc == b'/'
    then false
    else if c == b'.' && lastc == b'.'
    then (if p == b'/' && ends sequence cs then false else rest)
    else if c == b'.'
    then (if lastc == b'/' && ends sequence cs then false else rest)
    else if ltb 0 c && ltb c 0x1f
    then false
    else rest

pub same : (path : List ℕ) (i j : ℕ) → i ≡ j → get_or path i 0 ≡ get_or path j 0
same path i j e = ap (λ k. get_or path k 0) e

last_index : (i : ℕ) (cs : List ℕ) → (i + 1 == i + suc (length cs)) ≡ is_nil cs
last_index i [] = ground arith
last_index i (c ∷ cs) = ground arith

pub path_loop-scan :
    (sequence : Bool) (path rest : List ℕ) (i lastc : ℕ)
    → ((j : ℕ) → get_or path (i + j) 0 ≡ get_or rest j 0)
    → get_or path (i - 1) 0 ≡ lastc
    → path_loop (length rest) path (i + length rest) sequence i lastc
      ≡ scan sequence (get_or path (i - 2) 0) lastc rest
unfolding path_loop scan
path_loop-scan sequence path [] i lastc seen back = refl
path_loop-scan sequence path (c ∷ cs) i lastc seen back =
    let here : get_or path i 0 ≡ c = same path (i) (i + 0) (omega arith) ∙ seen 0 in
    let after : get_or path (i + 1) 0 ≡ get_or cs 0 0 = seen 1 in
    let more : (j : ℕ) → get_or path (i + 1 + j) 0 ≡ get_or cs j 0 =
      λ j. same path (i + 1 + j) (i + suc j) (omega arith) ∙ seen (suc j) in
    let now : get_or path (i + 1 - 1) 0 ≡ c = same path (i + 1 - 1) (i) (omega arith) ∙ here in
    let prev : get_or path (i + 1 - 2) 0 ≡ lastc =
      same path (i + 1 - 2) (i - 1) (omega arith) ∙ back in
    let size : i + 1 + length cs ≡ i + suc (length cs) = omega arith in
    let rest = path_loop-scan sequence path cs (i + 1) c more now in
    let rest' : path_loop (length cs) path (i + suc (length cs)) sequence (i + 1) c
        ≡ scan sequence lastc c cs =
      rw (size, prev) at rest in
    rw (here, after, back, last_index i cs, rest')
