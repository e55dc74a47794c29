-- ===== src/Examples/Arrivals.antt =====
-- A message that arrives in pieces.
use ruby_zookeeper.Prelude.{
  ok, ltb, ℕ, ◌^◌, ◌<◌, ◌≡◌, refl, inl, Bool, true, none, some, List, [], ◌∷◌, ◌++◌, arith,
}
use ruby_zookeeper.RecordIo.{little, to_memory, of_memory, ntohl}
use ruby_zookeeper.Wire.{moves, BufferList}
use ruby_zookeeper.Wire.Receive.{
  Inlet, taken, recv, body_stored, body_received, recv_body, calloc, length_read, length_stored,
  length_received, recv_buffer,
}
use ruby_zookeeper.Wire.Receive.Message.{recv_buffer-message}
use ruby_zookeeper.Wire.Receive.Held.{Receiving, AfterRecv}
use ruby_zookeeper.Wire.Receive.Whole.{recv_buffer-After}
use ruby_zookeeper.Wire.Send.{message}

-- Memory for less than 2^31 bytes.
abbrev granted : ℕ → Bool
granted n = ltb n (2 ^ 31)

scarce : (n : ℕ) → granted n ≡ true → n < 2 ^ 31
scarce n e = ground (arith, e)

-- The body 8, 9 and a byte of the next message; one byte of the length is there already.
abbrev part : BufferList
part = record { buffer = none; len = 0; curr_offset = 1 }

abbrev inlet : Inlet
inlet = record { answers = moves 3 ∷ moves 9 ∷ []; line = 0 ∷ 0 ∷ 2 ∷ 8 ∷ 9 ∷ 77 ∷ [] }

abbrev all : List ℕ
all = message 2 (8 ∷ 9 ∷ []) ++ (77 ∷ [])

part-Receiving : Receiving little all part inlet
unfolding to_memory
part-Receiving = record { held = inl (refl, omega arith); line = refl; bytes = omega arith }

recv_buffer-After_example : AfterRecv little all 1 (recv_buffer little granted (part, inlet))
recv_buffer-After_example = recv_buffer-After little all granted part inlet scarce part-Receiving

abbrev rest : List ℕ
rest = 77 ∷ []

abbrev after : Inlet
after = record { answers = []; line = rest }

abbrev whole : BufferList
whole = record { buffer = some (8 ∷ 9 ∷ []); len = 2; curr_offset = 6 }

arrives : recv_buffer little granted (part, inlet) ≡ ok 1 (whole, after)
unfolding recv_buffer recv taken length_received length_stored length_read calloc recv_body
    body_received body_stored to_memory of_memory ntohl
arrives = refl

recv_buffer-message_example :
    (whole.len ≡ 2) × (whole.buffer ≡ some (8 ∷ 9 ∷ [])) × (after.line ≡ rest)
recv_buffer-message_example =
    recv_buffer-message little granted (8 ∷ 9 ∷ []) rest part whole inlet after scarce (omega arith)
      (omega arith) part-Receiving arrives
