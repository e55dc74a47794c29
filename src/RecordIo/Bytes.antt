-- ===== src/RecordIo/Bytes.antt =====
-- Byte orders: `htonl` and `ntohl` of the C library, and `htonll` of recordio.c.
use mathlib.Core.List.{reverse, reverse-reverse}
use ruby_zookeeper.Prelude.{
  ℕ, zero, suc, ◌+◌, ◌-◌, ◌*◌, ◌/◌, ◌%◌, ◌^◌, ◌<◌, ◌≡◌, refl, sym, ap, ◌∙◌, List, [], ◌∷◌, length,
  get_or, set, All, arith, ◌==◌, if◌then◌else◌,
}

-- The byte order of the machine that the client runs on.
pub data Host : Type 0 where
  little big : Host

abbrev pub IsByte : ℕ → Type 0
IsByte b = b < 256

-- The bytes of `v`, the lowest first, and the number that they stand for.
abbrev pub le : ℕ → ℕ → List ℕ
le zero v = []
le (suc k) v = (v % 256) ∷ le k (v / 256)

abbrev pub of_le : List ℕ → ℕ
of_le [] = 0
of_le (b ∷ bs) = b + 256 * of_le bs

-- The same in network order.
abbrev pub be : ℕ → ℕ → List ℕ
be k v = reverse (le k v)

abbrev pub of_be : List ℕ → ℕ
of_be bs = of_le (reverse bs)

-- What a number of `k` bytes is in memory, and back.
unfoldable pub to_memory : Host → ℕ → ℕ → List ℕ
to_memory little k v = le k v
to_memory big k v = be k v

unfoldable pub of_memory : Host → List ℕ → ℕ
of_memory little bs = of_le bs
of_memory big bs = of_be bs

-- The value whose bytes in memory are those of `v` in network order; `ntohl` is the way back.
unfoldable pub htonl : Host → ℕ → ℕ
unfolding of_memory
htonl host v = of_memory host (be 4 v)

unfoldable pub ntohl : Host → ℕ → ℕ
unfolding to_memory
ntohl host w = of_be (to_memory host 4 w)

-- The loop of `htonll` over the bytes `s` of its argument.
swap_bytes : ℕ → ℕ → List ℕ → List ℕ
swap_bytes zero i s = s
swap_bytes (suc rounds) i s =
    let tmp = get_or s i 0 in
    swap_bytes rounds (i + 1) (set (set s i (get_or s (7 - i) 0)) (7 - i) tmp)

unfoldable pub htonll : Host → ℕ → ℕ
unfolding htonl to_memory of_memory swap_bytes
htonll host v =
    if htonl host 1 == 1 then v else of_memory host (swap_bytes 4 0 (to_memory host 8 v))

pub of_le-le : (k v : ℕ) → v < 256 ^ k → of_le (le k v) ≡ v
of_le-le zero v h = omega arith
of_le-le (suc k) v h = omega (arith, of_le-le k (v / 256) (shrink k v h))
  where
    shrink : (k v : ℕ) → v < 256 ^ suc k → v / 256 < 256 ^ k
    shrink k v h = omega arith

le-of_le : (bs : List ℕ) → All IsByte bs → le (length bs) (of_le bs) ≡ bs
le-of_le [] h = refl
le-of_le (b ∷ bs) h =
    let low : (b + 256 * of_le bs) % 256 ≡ b = omega arith in
    let high : (b + 256 * of_le bs) / 256 ≡ of_le bs = omega arith in
    rw (low, high, le-of_le bs h.1)

of_be-be : (k v : ℕ) → v < 256 ^ k → of_be (be k v) ≡ v
of_be-be k v h = rw reverse-reverse (of_le-le k v h)

pub to_memory-htonl : (host : Host) (v : ℕ) → to_memory host 4 (htonl host v) ≡ be 4 v
unfolding to_memory htonl
to_memory-htonl little v = le-of_le (be 4 v) (omega arith)
to_memory-htonl big v = ap reverse (le-of_le (le 4 v) (omega arith))

pub to_memory-htonll :
    (host : Host) (v : ℕ) → v < 2 ^ 64 → to_memory host 8 (htonll host v) ≡ be 8 v
unfolding htonll
to_memory-htonll little v h = le-of_le (be 8 v) (omega arith)
to_memory-htonll big v h = refl

pub ntohl-be : (host : Host) (v : ℕ) → v < 2 ^ 32 → ntohl host (of_memory host (be 4 v)) ≡ v
unfolding ntohl of_memory
ntohl-be little v h = ap of_be (le-of_le (be 4 v) (omega arith)) ∙ of_be-be 4 v h
ntohl-be big v h = ap (λ t. of_be (reverse t)) (le-of_le (le 4 v) (omega arith)) ∙ of_be-be 4 v h

pub htonll-be : (host : Host) (v : ℕ) → v < 2 ^ 64 → htonll host (of_memory host (be 8 v)) ≡ v
unfolding htonll
htonll-be little v h =
    ap (λ t. of_le (swap_bytes 4 0 t)) (le-of_le (be 8 v) (omega arith)) ∙ of_le-le 8 v h
htonll-be big v h = of_be-be 8 v h

-- An int in memory is four bytes, and any four bytes are one.
pub length-int : (host : Host) (v : ℕ) → length (to_memory host 4 v) ≡ 4
unfolding to_memory
length-int little v = refl
length-int big v = refl

pub int-IsByte : (host : Host) (v : ℕ) → All IsByte (to_memory host 4 v)
unfolding to_memory
int-IsByte little v = omega arith
int-IsByte big v = omega arith

pub int-of_memory :
    (host : Host) (bs : List ℕ)
    → length bs ≡ 4
    → All IsByte bs
    → to_memory host 4 (of_memory host bs) ≡ bs
unfolding to_memory of_memory
int-of_memory host [] e h = absurd (omega arith)
int-of_memory host (a ∷ []) e h = absurd (omega arith)
int-of_memory host (a ∷ b ∷ []) e h = absurd (omega arith)
int-of_memory host (a ∷ b ∷ c ∷ []) e h = absurd (omega arith)
int-of_memory little (a ∷ b ∷ c ∷ d ∷ []) e h = le-of_le (a ∷ b ∷ c ∷ d ∷ []) h
int-of_memory big (a ∷ b ∷ c ∷ d ∷ []) e h =
    ap reverse (le-of_le (d ∷ c ∷ b ∷ a ∷ []) (omega arith))
int-of_memory host (a ∷ b ∷ c ∷ d ∷ f ∷ bs) e h = absurd (omega arith)

pub be-ntohl : (host : Host) (w : ℕ) → be 4 (ntohl host w) ≡ to_memory host 4 w
unfolding ntohl to_memory
be-ntohl little w = ap reverse (le-of_le (reverse (le 4 w)) (omega arith))
be-ntohl big w = ap reverse (le-of_le (le 4 w) (omega arith))

pub ntohl-small : (host : Host) (w : ℕ) → ntohl host w < 2 ^ 32
unfolding ntohl to_memory
ntohl-small little w = omega arith
ntohl-small big w = omega arith

pub be-injective : (v w : ℕ) → v < 2 ^ 32 → w < 2 ^ 32 → be 4 v ≡ be 4 w → v ≡ w
be-injective v w small small' e = sym (of_be-be 4 v small) ∙ ap of_be e ∙ of_be-be 4 w small'
