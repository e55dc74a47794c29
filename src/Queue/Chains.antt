-- ===== src/Queue/Chains.antt =====
-- Linked lists as lists of addresses.
use ruby_zookeeper.Prelude.{
  All, ◌==◌, ==_refl, ℕ, ◌≡◌, refl, true, false, Option, none, some, List, [], ◌∷◌, ◌++◌, arith,
}
use ruby_zookeeper.Queue.{Node, Queue, set_next}

abbrev pub last_of : List ℕ → Option ℕ
last_of [] = none
last_of (p ∷ []) = some p
last_of (p ∷ q ∷ ps) = last_of (q ∷ ps)

-- The address is none of these.
abbrev pub Fresh : ℕ → List ℕ → Type 0
Fresh b ps = All (λ p. (p == b) ≡ false) ps

abbrev pub Distinct : List ℕ → Type 0
Distinct [] = Unit {0}
Distinct (p ∷ ps) = Fresh p ps × Distinct ps

last-Fresh : (b l : ℕ) (ps : List ℕ) → Fresh b ps → last_of ps ≡ some l → (l == b) ≡ false
last-Fresh b l [] fresh e = absurd (ground arith)
last-Fresh b l (p ∷ []) fresh e = ground (arith, fresh.0)
last-Fresh b l (p ∷ q ∷ ps) fresh e = last-Fresh b l (q ∷ ps) fresh.1 e

pub last-append : (ps : List ℕ) (b : ℕ) → last_of (ps ++ (b ∷ [])) ≡ some b
last-append [] b = refl
last-append (p ∷ []) b = refl
last-append (p ∷ q ∷ ps) b = last-append (q ∷ ps) b

module _ {ℓ} {A : Type ℓ} where
  abbrev pub Chain : (ℕ → Node A) → Option ℕ → List ℕ → Type 0
  Chain cells start [] = start ≡ none
  Chain cells start (p ∷ ps) = (start ≡ some p) × Chain cells (cells p).next ps

  -- The queue holds the elements at these addresses, in this order.
  pub record Holds (list : Queue A) (ps : List ℕ) : Type 0 where
    pub chain : Chain list.cells list.head ps
    pub ends : list.last ≡ last_of ps
    pub distinct : Distinct ps

  pub Chain-other :
      (cells : ℕ → Node A) (b : ℕ) (v start : Option ℕ) (ps : List ℕ)
      → Fresh b ps
      → Chain cells start ps
      → Chain (set_next cells b v) start ps
  Chain-other cells b v start [] fresh c = c
  Chain-other cells b v start (p ∷ ps) fresh c =
      (c.0, rw fresh.0 (Chain-other cells b v (cells p).next ps fresh.1 c.1))

  pub Chain-back :
      (cells : ℕ → Node A) (b l : ℕ) (start : Option ℕ) (ps : List ℕ)
      → Fresh b ps
      → Distinct ps
      → last_of ps ≡ some l
      → Chain cells start ps
      → Chain (set_next (set_next cells b none) l (some b)) start (ps ++ (b ∷ []))
  Chain-back cells b l start [] fresh distinct e c = absurd (ground arith)
  Chain-back cells b l start (p ∷ []) fresh distinct e c =
      let same : (p == l) ≡ true = ground arith in
      let off : (b == l) ≡ false = ground (arith, fresh.0) in
      (c.0, (rw same refl, rw (off, ==_refl b) refl))
  Chain-back cells b l start (p ∷ q ∷ ps) fresh distinct e c =
      let off : (p == l) ≡ false = ground (arith, last-Fresh p l (q ∷ ps) distinct.0 e) in
      (
        c.0,
        rw (off, fresh.0) (Chain-back cells b l (cells p).next (q ∷ ps) fresh.1 distinct.1 e c.1),
      )

  pub Chain-front :
      (cells : ℕ → Node A) (b h : ℕ) (start : Option ℕ) (ps : List ℕ)
      → Fresh b ps
      → start ≡ some h
      → Chain cells start ps
      → Chain (set_next (set_next cells b none) b (some h)) (some b) (b ∷ ps)
  Chain-front cells b h start ps fresh e c = (
    refl,
    rw (==_refl b, ← e)
        (Chain-other (set_next cells b none) b (some h) start ps fresh
          (Chain-other cells b none start ps fresh c)),
  )
