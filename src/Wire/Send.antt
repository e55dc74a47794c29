-- ===== src/Wire/Send.antt =====
-- What `send_buffer` puts on the line.
use ruby_zookeeper.Prelude.{
  length, take, drop, read_cells, length-append, take-append_le, drop-drop, length-take_le,
  length-drop, take-append-drop, drop-take, drop-append_le, Outcome, ok, fail, fault, ltb, leb,
  ◌==◌, if◌then◌else◌, neg, sub_int, to_size, Bool-cases, ℕ, ◌+◌, ◌-◌, ◌^◌, ◌≤◌, ◌<◌, ◌≡◌, refl,
  sym, ap, ◌∙◌, inl, inr, true, some, List, [], ◌∷◌, ◌++◌, arith,
}
use ruby_zookeeper.Path.Scan.{same}
use ruby_zookeeper.RecordIo.{Host, be, to_memory-htonl}
use ruby_zookeeper.Wire.{
  Answer, error, again, moves, Socket, BufferList, answered, send, is_complete, body_sent,
  send_body, length_sent, send_buffer,
}
use mathlib.Core.List.{append_assoc}

-- The length in network order, and so many bytes.
abbrev pub message : ℕ → List ℕ → List ℕ
message len cells = be 4 len ++ take len cells

-- The line, and behind it what is left of the message from `curr_offset` on, are `total`.
pub record Sending (total cells : List ℕ) (len : ℕ) (b : BufferList) (s : Socket) : Type 0 where
  pub allocated : b.buffer ≡ some cells
  pub same_len : b.len ≡ len
  pub sent : b.curr_offset ≤ len + 4
  pub line : s.line ++ drop b.curr_offset (message len cells) ≡ total

-- A call of `send` moves a prefix of the bytes or none.
abbrev IsSent : List ℕ → List ℕ → Answer × Socket → Type 0
IsSent line bytes (error, s) = s.line ≡ line
IsSent line bytes (again, s) = s.line ≡ line
IsSent line bytes (moves n, s) = (n ≤ length bytes) × (s.line ≡ line ++ take n bytes)

answered-IsSent :
    (answers : List Answer) (line bytes : List ℕ) → IsSent line bytes (answered answers line bytes)
unfolding answered
answered-IsSent [] line bytes = refl
answered-IsSent (error ∷ later) line bytes = refl
answered-IsSent (again ∷ later) line bytes = refl
answered-IsSent (moves k ∷ later) line bytes = (ground arith, refl)

send-IsSent : (bytes : List ℕ) (s : Socket) → IsSent s.line bytes (send bytes s)
unfolding send
send-IsSent bytes s = answered-IsSent s.answers s.line bytes

pub record Sent (total cells : List ℕ) (len : ℕ) (start : ℕ) (rc : ℕ) (b : BufferList) (s : Socket)
    : Type 0 where
  pub sending : Sending total cells len b s
  pub forward : start ≤ b.curr_offset
  pub code : rc ≡ (if b.curr_offset == len + 4 then 1 else 0)

-- After a call: the return code is 1 exactly when all is sent, and a failure keeps what was sent.
abbrev pub AfterSend : List ℕ → List ℕ → ℕ → ℕ → Outcome (BufferList × Socket) ℕ → Type 0
AfterSend total cells len start (ok rc (b, s)) = Sent total cells len start rc b s
AfterSend total cells len start (fail rc (b, s)) =
    (rc ≡ neg 1) × (start ≤ b.curr_offset) × Sending total cells len b s
AfterSend total cells len start fault = ⊥

module _ (total cells : List ℕ) (len : ℕ) (small : len < 2 ^ 31) (fits : len ≤ length cells) where
  -- More of the message.
  moved :
      (line bytes : List ℕ) (o n : ℕ)
      → line ++ drop o (message len cells) ≡ total
      → take n bytes ≡ take n (drop o (message len cells))
      → (line ++ take n bytes) ++ drop (o + n) (message len cells) ≡ total
  moved line bytes o n e e' =
      rw (e', drop-drop o n (message len cells))
        (append_assoc line (take n (drop o (message len cells)))
            (drop n (drop o (message len cells)))
          ∙ ap (λ t. line ++ t) (take-append-drop n (drop o (message len cells)))
          ∙ e)

  length-message : length (message len cells) ≡ len + 4
  length-message =
      omega (arith, length-append (be 4 len) (take len cells), length-take_le len cells fits)

  -- What is left of the message behind its length.
  body_left :
      (o : ℕ)
      → 4 ≤ o
      → o ≤ len + 4
      → read_cells cells (o - 4) (to_size (sub_int len (o - 4))) ≡ some (drop o (message len cells))
  body_left o h h' =
      let k = o - 4 in
      let n = len - k in
      let size : to_size (sub_int len k) ≡ n = ground arith in
      let all : k + n ≡ len = omega arith in
      let inside : leb (k + n) (length cells) ≡ true = ground arith in
      let taken : drop k (take len cells) ≡ take n (drop k cells) =
        ap (λ l. drop k (take l cells)) (sym all) ∙ drop-take k n cells in
      let shift : 4 + k ≡ o = omega arith in
      let left : drop o (message len cells) ≡ drop k (take len cells) =
        ap (λ j. drop j (message len cells)) (sym shift) ∙ drop-drop 4 k (message len cells) in
      rw (size, inside) (ap (λ l. some l) (sym taken ∙ sym left))

  kept :
      (b : BufferList) (s s' : Socket)
      → Sending total cells len b s
      → s'.line ≡ s.line
      → Sending total cells len b s'
  kept b s s' h e = record {
    allocated = h.allocated;
    same_len = h.same_len;
    sent = h.sent;
    line = rw e h.line;
  }

  gained :
      (b : BufferList) (s s' : Socket) (n : ℕ) (bytes : List ℕ)
      → Sending total cells len b s
      → length bytes ≤ len + 4 - b.curr_offset
      → n ≤ length bytes
      → take n bytes ≡ take n (drop b.curr_offset (message len cells))
      → s'.line ≡ s.line ++ take n bytes
      → Sending total cells len (record b { curr_offset = b.curr_offset + n }) s'
  gained b s s' n bytes h room some_of same e = record {
    allocated = h.allocated;
    same_len = h.same_len;
    sent = omega (arith, h.sent);
    line = rw e (moved s.line bytes b.curr_offset n h.line same);
  }

  complete :
      (b : BufferList) → b.len ≡ len → is_complete b ≡ (if b.curr_offset == len + 4 then 1 else 0)
  complete b e =
      let size : to_size b.len + 4 ≡ len + 4 = ground arith in
      ap (λ n. if b.curr_offset == n then 1 else 0) size

  left_length :
      (b : BufferList) {s : Socket}
      → Sending total cells len b s
      → length (drop b.curr_offset (message len cells)) ≤ len + 4 - b.curr_offset
  left_length b h = omega (arith, length-drop b.curr_offset (message len cells), length-message)

  body_sent-After :
      (b : BufferList) (s : Socket) (start : ℕ) (a : Answer × Socket)
      → Sending total cells len b s
      → start ≤ b.curr_offset
      → IsSent s.line (drop b.curr_offset (message len cells)) a
      → AfterSend total cells len start (body_sent b a)
  unfolding body_sent
  body_sent-After b s start (error, s') h fwd is = (refl, fwd, kept b s s' h is)
  body_sent-After b s start (again, s') h fwd is = record {
    sending = kept b s s' h is;
    forward = fwd;
    code = complete b h.same_len;
  }
  body_sent-After b s start (moves n, s') h fwd is = record {
    sending =
        gained b s s' n (drop b.curr_offset (message len cells)) h (left_length b h) is.0 refl is.1;
    forward = omega arith;
    code = complete (record b { curr_offset = b.curr_offset + n }) h.same_len;
  }

  send_body-After :
      (b : BufferList) (s : Socket) (start : ℕ)
      → Sending total cells len b s
      → start ≤ b.curr_offset
      → 4 ≤ b.curr_offset
      → AfterSend total cells len start (send_body (b, s))
  unfolding send_body
  send_body-After b s start h fwd at_body =
      rw (h.allocated, h.same_len, body_left b.curr_offset at_body h.sent)
        (body_sent-After b s start (send (drop b.curr_offset (message len cells)) s) h fwd
          (send-IsSent (drop b.curr_offset (message len cells)) s))

  length_sent-After :
      (b : BufferList) (s : Socket) (a : Answer × Socket)
      → Sending total cells len b s
      → b.curr_offset < 4
      → IsSent s.line (drop b.curr_offset (be 4 len)) a
      → AfterSend total cells len b.curr_offset (length_sent b a)
  unfolding length_sent
  length_sent-After b s (error, s') h short is = (refl, omega arith, kept b s s' h is)
  length_sent-After b s (again, s') h short is = record {
    sending = kept b s s' h is;
    forward = omega arith;
    code = ground (arith, h.sent);
  }
  length_sent-After b s (moves n, s') h short is =
      let b' : BufferList = record b { curr_offset = b.curr_offset + n } in
      let rest = length-drop b.curr_offset (be 4 len) in
      let same = drop-append_le b.curr_offset (be 4 len) (take len cells) (omega arith) in
      let h' : Sending total cells len b' s' =
        gained b s s' n (drop b.curr_offset (be 4 len)) h (omega arith) is.0
          (sym (
            ap (take n) same
            ∙ take-append_le n (drop b.curr_offset (be 4 len)) (take len cells) is.0))
          is.1 in
      elim (Bool-cases (leb 4 b'.curr_offset)) [
        | inl whole ↦ rw whole (send_body-After b' s' b.curr_offset h' (omega arith) (ground arith))
        | inr part ↦
            rw part (record { sending = h'; forward = omega arith; code = complete b' h.same_len })
      ]

  -- For a buffer of less than 2^31 bytes whose memory holds them, at any offset: a call of `send_buffer`
  -- neither faults nor loses or repeats a byte, whatever the kernel answers. The line and what is left
  -- of the message, which is the length in network order and the buffer, stay the same in total,
  -- `curr_offset` never goes back, and the return code is 1 when the message is through, -1 on a
  -- failure and 0 otherwise.
  pub send_buffer-After :
      (host : Host) (b : BufferList) (s : Socket)
      → Sending total cells len b s
      → AfterSend total cells len b.curr_offset (send_buffer host (b, s))
  unfolding send_buffer
  send_buffer-After host b s h = elim (Bool-cases (ltb b.curr_offset 4)) [
    | inl short ↦
        let header = ap (drop b.curr_offset) (to_memory-htonl host b.len ∙ ap (be 4) h.same_len) in
        rw (short, header)
          (length_sent-After b s (send (drop b.curr_offset (be 4 len)) s) h (ground arith)
            (send-IsSent (drop b.curr_offset (be 4 len)) s))
    | inr body ↦ rw body (send_body-After b s b.curr_offset h (omega arith) (ground arith))
  ]
