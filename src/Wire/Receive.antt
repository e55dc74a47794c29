-- ===== src/Wire/Receive.antt =====
-- zk/src/c/src/zookeeper.c: `recv_buffer`. The kernel is the list of its answers to the calls of
-- `recv`, and of the bytes that the server has sent and that no call has taken yet.
pub mod Held
pub mod Whole
pub mod Message
use ruby_zookeeper.Prelude.{
  length, take, drop, replicate, write_cells, Outcome, ok, fail, fault, Run, ltb, ◌==◌,
  if◌then◌else◌, neg, sub_int, to_size, ℕ, ◌+◌, ◌-◌, Bool, Option, none, some, List, [], ◌∷◌,
}
use ruby_zookeeper.RecordIo.{Host, to_memory, of_memory, ntohl}
use ruby_zookeeper.Wire.{Answer, error, again, moves, BufferList, smaller, is_complete}

pub record Inlet : Type 0 where
  pub answers : List Answer
  pub line : List ℕ

-- What a call of `recv` gives; no bytes stand for its result 0.
pub data Arrival : Type 0 where
  broken would_block : Arrival
  arrived : List ℕ → Arrival

-- `recv(fd, buffer, n, 0)`: at most `n` bytes, and no more than there are.
unfoldable pub taken : List Answer → List ℕ → ℕ → Arrival × Inlet
taken [] line n = (would_block, record { answers = []; line = line })
taken (error ∷ later) line n = (broken, record { answers = later; line = line })
taken (again ∷ later) line n = (would_block, record { answers = later; line = line })
taken (moves k ∷ later) line n =
    let m = smaller k n in (arrived (take m line), record { answers = later; line = drop m line })

unfoldable pub recv : ℕ → Inlet → Arrival × Inlet
recv n s = taken s.answers s.line n

-- The buffer after a call of `recv` that stored `n` bytes and left it these cells.
unfoldable pub body_stored :
    BufferList → ℕ → Inlet → Option (List ℕ) → Outcome (BufferList × Inlet) ℕ
body_stored b n s none = fault
body_stored b n s (some cells) =
    let b' : BufferList = record {
      buffer = some cells;
      len = b.len;
      curr_offset = b.curr_offset + n;
    } in
    ok (is_complete b') (b', s)

-- What `recv_buffer` does with the answer to the second call. A failure is the return code -1, and so
-- is the end of the stream.
unfoldable pub body_received :
    BufferList → List ℕ → Arrival × Inlet → Outcome (BufferList × Inlet) ℕ
body_received b cells (broken, s) = fail (neg 1) (b, s)
body_received b cells (would_block, s) = ok (is_complete b) (b, s)
body_received b cells (arrived [], s) = fail (neg 1) (b, s)
body_received b cells (arrived (x ∷ xs), s) =
    body_stored b (length (x ∷ xs)) s (write_cells cells (b.curr_offset - 4) (x ∷ xs))

-- The second call, of the bytes behind the length, when there is a buffer.
unfoldable pub recv_body : Run (BufferList × Inlet) ℕ
recv_body (b, s) = elim b.buffer [
  | none ↦ ok (is_complete b) (b, s)
  | some cells ↦
      if ltb b.curr_offset 4
      then fault
      else body_received b cells (recv (to_size (sub_int b.len (b.curr_offset - 4))) s)
]

-- `granted` says whether `calloc(1, n)` gives memory; the number is the size that it gets, which
-- is the length with its sign extended.
module _ (host : Host) (granted : ℕ → Bool) where
  unfoldable pub calloc : ℕ → Option (List ℕ)
  calloc n = if granted n then some (replicate n 0) else none

  -- `buff->len = ntohl(buff->len)`, and memory for the message.
  unfoldable pub length_read : BufferList → BufferList
  length_read b =
      let len = ntohl host b.len in
      if b.curr_offset == 4
      then record { buffer = calloc (to_size len); len = len; curr_offset = b.curr_offset }
      else b

  -- The same for the bytes of the field `len`.
  unfoldable pub length_stored :
      BufferList → ℕ → Inlet → Option (List ℕ) → Outcome (BufferList × Inlet) ℕ
  length_stored b n s none = fault
  length_stored b n s (some cells) =
      let b' : BufferList = record {
        buffer = b.buffer;
        len = of_memory host cells;
        curr_offset = b.curr_offset + n;
      } in
      recv_body (length_read b', s)

  -- What it does with the answer to the first call.
  unfoldable pub length_received : BufferList → Arrival × Inlet → Outcome (BufferList × Inlet) ℕ
  length_received b (broken, s) = fail (neg 1) (b, s)
  length_received b (would_block, s) = ok 0 (b, s)
  length_received b (arrived [], s) = fail (neg 1) (b, s)
  length_received b (arrived (x ∷ xs), s) =
      length_stored b (length (x ∷ xs)) s
        (write_cells (to_memory host 4 b.len) b.curr_offset (x ∷ xs))

  unfoldable pub recv_buffer : Run (BufferList × Inlet) ℕ
  recv_buffer (b, s) =
      if ltb b.curr_offset 4
      then length_received b (recv (4 - b.curr_offset) s)
      else recv_body (b, s)
