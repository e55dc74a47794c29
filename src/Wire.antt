-- ===== src/Wire.antt =====
-- zk/src/c/src/zookeeper.c: one buffer on its way through a socket that does not block, and the
-- handshake. The kernel is the list of its answers to the calls, and of the bytes on the line.
pub mod Send
pub mod Prime
pub mod Receive
use ruby_zookeeper.Prelude.{
  length, take, drop, read_cells, Outcome, ok, fail, fault, Run, ltb, leb, ◌==◌, if◌then◌else◌, neg,
  sub_int, to_size, ℕ, ◌+◌, ◌-◌, Option, none, some, List, [], ◌∷◌, ◌++◌,
}
use ruby_zookeeper.RecordIo.{Host, to_memory, htonl}

-- What a call of `send` or `recv` does: it fails, it would block, or it moves at most so many bytes.
pub data Answer : Type 0 where
  error again : Answer
  moves : ℕ → Answer

-- `answers` are those to come; a call behind their end would block.
pub record Socket : Type 0 where
  pub answers : List Answer
  pub line : List ℕ

-- `struct _buffer_list` without its link; the buffer is the memory that it points to.
pub record BufferList : Type 0 where
  pub buffer : Option (List ℕ)
  pub len : ℕ
  pub curr_offset : ℕ

abbrev pub smaller : ℕ → ℕ → ℕ
smaller m n = if leb m n then m else n

-- `send(fd, bytes, length bytes, 0)`
unfoldable pub answered : List Answer → List ℕ → List ℕ → Answer × Socket
answered [] line bytes = (again, record { answers = []; line = line })
answered (error ∷ later) line bytes = (error, record { answers = later; line = line })
answered (again ∷ later) line bytes = (again, record { answers = later; line = line })
answered (moves k ∷ later) line bytes =
    let n = smaller k (length bytes) in
    (moves n, record { answers = later; line = line ++ take n bytes })

unfoldable pub send : List ℕ → Socket → Answer × Socket
send bytes s = answered s.answers s.line bytes

-- `curr_offset == len + sizeof(len)`. The sum is a `size_t`, which is not cut off at 2^64 here: that makes
-- a difference for the lengths from -4 to -1 only, at an offset below 4.
abbrev pub is_complete : BufferList → ℕ
is_complete b = if b.curr_offset == to_size b.len + 4 then 1 else 0

-- What `send_buffer` does with the answer to the second call. A failure is the return code -1.
unfoldable pub body_sent : BufferList → Answer × Socket → Outcome (BufferList × Socket) ℕ
body_sent b (error, s) = fail (neg 1) (b, s)
body_sent b (again, s) = ok (is_complete b) (b, s)
body_sent b (moves n, s) =
    let b' = record b { curr_offset = b.curr_offset + n } in ok (is_complete b') (b', s)

-- The second call, of the bytes behind the length.
unfoldable pub send_body : Run (BufferList × Socket) ℕ
send_body (b, s) =
    let off = b.curr_offset - 4 in
    elim b.buffer [
      | none ↦ fault
      | some cells ↦ elim (read_cells cells off (to_size (sub_int b.len off))) [
        | none ↦ fault
        | some bytes ↦ body_sent b (send bytes s)
      ]
    ]

-- What it does with the answer to the first call.
unfoldable pub length_sent : BufferList → Answer × Socket → Outcome (BufferList × Socket) ℕ
length_sent b (error, s) = fail (neg 1) (b, s)
length_sent b (again, s) = ok 0 (b, s)
length_sent b (moves n, s) =
    let b' = record b { curr_offset = b.curr_offset + n } in
    if leb 4 b'.curr_offset then send_body (b', s) else ok (is_complete b') (b', s)

module _ (host : Host) where
  unfoldable pub send_buffer : Run (BufferList × Socket) ℕ
  send_buffer (b, s) =
      if ltb b.curr_offset 4
      then length_sent b (send (drop b.curr_offset (to_memory host 4 (htonl host b.len))) s)
      else send_body (b, s)
