-- ===== src/Wire/Receive/Held.antt =====
-- What a buffer of `recv_buffer` holds between two calls, and what one call of `recv` adds.
use ruby_zookeeper.Prelude.{
  length, take, All, take-append-drop, Outcome, ok, fail, fault, ltb, if◌then◌else◌, neg, ℕ, zero,
  suc, ◌+◌, ◌-◌, ◌^◌, ◌≤◌, ◌<◌, ◌≡◌, refl, ◌⊎◌, Bool, false, none, some, List, [], ◌∷◌, ◌++◌, arith,
}
use ruby_zookeeper.RecordIo.{Host, IsByte, be, to_memory}
use ruby_zookeeper.Wire.{Answer, error, again, moves, BufferList, smaller, is_complete}
use ruby_zookeeper.Wire.Receive.{
  Inlet, Arrival, broken, would_block, arrived, taken, recv, length_read,
}

-- The bytes that a buffer holds of its message, the length first.
abbrev pub got : Host → BufferList → List ℕ
got host b =
    if ltb b.curr_offset 4
    then take b.curr_offset (to_memory host 4 b.len)
    else be 4 b.len ++ elim b.buffer [ none ↦ [] | some cells ↦ take (b.curr_offset - 4) cells ]

-- In the middle of the length, in the message, or behind the length of a message without memory.
abbrev pub InLength : BufferList → Type 0
InLength b = (b.buffer ≡ none) × (b.curr_offset < 4)

pub record InBody (b : BufferList) : Type 0 where
  pub cells : List ℕ
  pub allocated : b.buffer ≡ some cells
  pub fits : length cells ≡ b.len
  pub small : b.len < 2 ^ 31
  pub behind : 4 ≤ b.curr_offset
  pub inside : b.curr_offset ≤ b.len + 4

abbrev pub IsRefused : BufferList → Type 0
IsRefused b = (b.buffer ≡ none) × (b.curr_offset ≡ 4)

abbrev pub IsHeld : BufferList → Type 0
IsHeld b = InLength b ⊎ (InBody b ⊎ IsRefused b)

-- The bytes held and those on the line are `total`.
pub record Receiving (host : Host) (total : List ℕ) (b : BufferList) (s : Inlet) : Type 0 where
  pub held : IsHeld b
  pub line : got host b ++ s.line ≡ total
  pub bytes : All IsByte s.line

pub record Received (host : Host) (total : List ℕ) (start rc : ℕ) (b : BufferList) (s : Inlet)
    : Type 0 where
  pub receiving : Receiving host total b s
  pub forward : start ≤ b.curr_offset
  pub code : rc ≡ is_complete b

abbrev pub AfterRecv : Host → List ℕ → ℕ → Outcome (BufferList × Inlet) ℕ → Type 0
AfterRecv host total start (ok rc (b, s)) = Received host total start rc b s
AfterRecv host total start (fail rc (b, s)) =
    (rc ≡ neg 1) × (start ≤ b.curr_offset) × Receiving host total b s
AfterRecv host total start fault = ⊥

-- A call of `recv` takes bytes from the front of the line or none.
abbrev pub IsTaken : ℕ → List ℕ → Arrival × Inlet → Type 0
IsTaken n line (broken, s) = s.line ≡ line
IsTaken n line (would_block, s) = s.line ≡ line
IsTaken n line (arrived bs, s) = (length bs ≤ n) × (bs ++ s.line ≡ line)

pub length-take_smaller : (m n : ℕ) (xs : List ℕ) → m ≤ n → length (take m xs) ≤ n
length-take_smaller zero n xs h = omega arith
length-take_smaller (suc m) n [] h = omega arith
length-take_smaller (suc m) n (x ∷ xs) h =
    omega (arith, length-take_smaller m (n - 1) xs (omega arith))

pub taken-IsTaken :
    (answers : List Answer) (line : List ℕ) (n : ℕ) → IsTaken n line (taken answers line n)
unfolding taken
taken-IsTaken [] line n = refl
taken-IsTaken (error ∷ later) line n = refl
taken-IsTaken (again ∷ later) line n = refl
taken-IsTaken (moves k ∷ later) line n =
    (length-take_smaller (smaller k n) n line (ground arith), take-append-drop (smaller k n) line)

pub recv-IsTaken : (n : ℕ) (s : Inlet) → IsTaken n s.line (recv n s)
unfolding recv
recv-IsTaken n s = taken-IsTaken s.answers s.line n

pub got-body :
    (host : Host) (b : BufferList) (cells : List ℕ)
    → b.buffer ≡ some cells
    → 4 ≤ b.curr_offset
    → got host b ≡ be 4 b.len ++ take (b.curr_offset - 4) cells
got-body host b cells e h = let late : ltb b.curr_offset 4 ≡ false = ground arith in simp (late, e)

pub offset-length_read :
    (host : Host) (granted : ℕ → Bool) (b : BufferList)
    → (length_read host granted b).curr_offset ≡ b.curr_offset
unfolding length_read
offset-length_read host granted b = ground arith
