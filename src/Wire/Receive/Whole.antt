-- ===== src/Wire/Receive/Whole.antt =====
-- What `recv_buffer` puts together from the bytes on the line.
use ruby_zookeeper.Prelude.{
  length, take, drop, replicate, All, write_cells-fits, length-replicate, take_all, All-append,
  take-written, length-written, All-split, All-take, All-drop, ltb, ◌==◌, sub_int, to_size, ==_iff,
  Bool-cases, ℕ, ◌+◌, ◌-◌, ◌^◌, ◌≤◌, ◌<◌, ◌≡◌, refl, sym, ap, ◌∙◌, inl, inr, Bool, true, false,
  none, some, List, [], ◌∷◌, ◌++◌, arith,
}
use ruby_zookeeper.RecordIo.{
  Host, IsByte, be, to_memory, of_memory, ntohl, length-int, int-IsByte, int-of_memory, be-ntohl,
  ntohl-small,
}
use ruby_zookeeper.Wire.{BufferList}
use ruby_zookeeper.Wire.Receive.{
  Inlet, Arrival, broken, would_block, arrived, recv, body_stored, body_received, recv_body, calloc,
  length_read, length_stored, length_received, recv_buffer,
}
use ruby_zookeeper.Wire.Receive.Held.{
  got, InLength, InBody, IsHeld, Receiving, AfterRecv, IsTaken, recv-IsTaken, got-body,
  offset-length_read,
}
use mathlib.Core.List.{append_assoc}
use mathlib.Core.Path.{subst}

module _ (host : Host) (total : List ℕ) where
  kept :
      (b : BufferList) (s s' : Inlet)
      → Receiving host total b s
      → s'.line ≡ s.line
      → Receiving host total b s'
  kept b s s' h e = record { held = h.held; line = rw e h.line; bytes = rw e h.bytes }

  -- More of the line in the buffer.
  gained :
      (b b' : BufferList) (s s' : Inlet) (bs : List ℕ)
      → Receiving host total b s
      → IsHeld b'
      → got host b' ≡ got host b ++ bs
      → bs ++ s'.line ≡ s.line
      → Receiving host total b' s'
  gained b b' s s' bs h held more e =
      let all : got host b ++ (bs ++ s'.line) ≡ total = rw e h.line in
      record {
        held = held;
        line = rw more (append_assoc (got host b) bs s'.line ∙ all);
        bytes = (All-split IsByte bs s'.line (rw e h.bytes)).1;
      }

  body_received-After :
      (b : BufferList) (body : InBody b) (s : Inlet) (start : ℕ) (a : Arrival × Inlet)
      → Receiving host total b s
      → start ≤ b.curr_offset
      → IsTaken (b.len + 4 - b.curr_offset) s.line a
      → AfterRecv host total start (body_received b body.cells a)
  unfolding body_received body_stored
  body_received-After b body s start (broken, s') h fwd is = (refl, fwd, kept b s s' h is)
  body_received-After b body s start (would_block, s') h fwd is = record {
    receiving = kept b s s' h is;
    forward = fwd;
    code = refl;
  }
  body_received-After b body s start (arrived [], s') h fwd is = (refl, fwd, kept b s s' h is.1)
  body_received-After b body s start (arrived (x ∷ xs), s') h fwd is =
      let off = b.curr_offset - 4 in
      let bs = x ∷ xs in
      let room : off + length bs ≤ length body.cells =
        omega (arith, is.0, body.fits, body.behind, body.inside) in
      let cells' = take off body.cells ++ (bs ++ drop (off + length bs) body.cells) in
      let b' : BufferList = record {
        buffer = some cells';
        len = b.len;
        curr_offset = b.curr_offset + length bs;
      } in
      let body' : InBody b' = record {
        cells = cells';
        allocated = refl;
        fits = length-written off body.cells bs room ∙ body.fits;
        small = body.small;
        behind = omega (arith, body.behind);
        inside = omega (arith, is.0, body.behind, body.inside);
      } in
      let shift : b'.curr_offset - 4 ≡ off + length bs = omega (arith, body.behind) in
      let more : got host b' ≡ got host b ++ bs =
        got-body host b' cells' refl body'.behind
        ∙ rw (shift, got-body host b body.cells body.allocated body.behind)
            (ap (λ t. be 4 b.len ++ t) (take-written off body.cells bs room)
              ∙ sym (append_assoc (be 4 b.len) (take off body.cells) bs)) in
      rw (write_cells-fits body.cells off bs room) (record {
        receiving = gained b b' s s' bs h (inr (inl body')) more is.1;
        forward = omega arith;
        code = refl;
      })

  recv_body-After :
      (b : BufferList) (s : Inlet) (start : ℕ)
      → Receiving host total b s
      → start ≤ b.curr_offset
      → AfterRecv host total start (recv_body (b, s))
  unfolding recv_body
  recv_body-After b s start h fwd = elim h.held [
    | inl short ↦ rw short.0 (record { receiving = h; forward = fwd; code = refl })
    | inr (inl body) ↦
        let late : ltb b.curr_offset 4 ≡ false = ground (arith, body.behind) in
        let n = to_size (sub_int b.len (b.curr_offset - 4)) in
        let size : n ≡ b.len + 4 - b.curr_offset =
          ground (arith, body.small, body.behind, body.inside) in
        let taken : IsTaken (b.len + 4 - b.curr_offset) s.line (recv n s) =
          rw (sym size) (recv-IsTaken n s) in
        rw (body.allocated, late) (body_received-After b body s start (recv n s) h fwd taken)
    | inr (inr refused) ↦ rw (refused.0) (record { receiving = h; forward = fwd; code = refl })
  ]

  -- The length, when its last byte has come.
  length_read-Receiving :
      (granted : ℕ → Bool) (b : BufferList) (s : Inlet)
      → ((n : ℕ) → granted n ≡ true → n < 2 ^ 31)
      → b.buffer ≡ none
      → b.curr_offset ≤ 4
      → take b.curr_offset (to_memory host 4 b.len) ++ s.line ≡ total
      → All IsByte s.line
      → Receiving host total (length_read host granted b) s
  unfolding length_read calloc
  length_read-Receiving granted b s scarce e short line bytes =
      elim (Bool-cases (b.curr_offset == 4)) [
        | inr part ↦
            let early : ltb b.curr_offset 4 ≡ true = ground arith in
            rw part (record { held = inl (e, ground arith); line = rw early line; bytes = bytes })
        | inl whole ↦
            let at : b.curr_offset ≡ 4 = (==_iff b.curr_offset 4).0 whole in
            let late : ltb b.curr_offset 4 ≡ false = ground arith in
            let len = ntohl host b.len in
            let all : take b.curr_offset (to_memory host 4 b.len) ≡ be 4 len =
              ap (λ o. take o (to_memory host 4 b.len)) at
              ∙ take_all 4 (to_memory host 4 b.len) (omega (arith, length-int host b.len))
              ∙ sym (be-ntohl host b.len) in
            let line' : be 4 len ++ s.line ≡ total = ap (λ t. t ++ s.line) (sym all) ∙ line in
            elim (Bool-cases (granted (to_size len))) [
              | inl given ↦
                  let few = scarce (to_size len) given in
                  let size : to_size len ≡ len = ground (arith, ntohl-small host b.len) in
                  let given' : granted len ≡ true = ap granted (sym size) ∙ given in
                  let memory : calloc host granted (to_size len) ≡ some (replicate len 0) =
                    ap (calloc host granted) size ∙ rw given' refl in
                  let b' : BufferList = record {
                    buffer = some (replicate len 0);
                    len = len;
                    curr_offset = b.curr_offset;
                  } in
                  let e' : length_read host granted b ≡ b' = rw whole (
                    ap (λ m. record { buffer = m; len = len; curr_offset = b.curr_offset })
                      memory) in
                  let body : InBody b' = record {
                    cells = replicate len 0;
                    allocated = refl;
                    fits = length-replicate len 0;
                    small = omega arith;
                    behind = omega arith;
                    inside = omega arith;
                  } in
                  let start_of : b.curr_offset - 4 ≡ 0 = omega arith in
                  let none_yet : take (b.curr_offset - 4) (replicate {A = ℕ} len 0) ≡ [] =
                    rw start_of refl in
                  let line'' : got host b' ++ s.line ≡ total = rw (late, none_yet) line' in
                  rw e' (record { held = inr (inl body); line = line''; bytes = bytes })
              | inr denied ↦
                  let memory : calloc host granted (to_size len) ≡ none = rw denied refl in
                  let b' : BufferList = record {
                    buffer = none;
                    len = len;
                    curr_offset = b.curr_offset;
                  } in
                  let e' : length_read host granted b ≡ b' = rw whole (
                    ap (λ m. record { buffer = m; len = len; curr_offset = b.curr_offset })
                      memory) in
                  let line'' : got host b' ++ s.line ≡ total = rw late line' in
                  rw e' (record { held = inr (inr (refl, at)); line = line''; bytes = bytes })
            ]
      ]

  length_received-After :
      (granted : ℕ → Bool) (b : BufferList) (s : Inlet) (a : Arrival × Inlet)
      → ((n : ℕ) → granted n ≡ true → n < 2 ^ 31)
      → InLength b
      → Receiving host total b s
      → IsTaken (4 - b.curr_offset) s.line a
      → AfterRecv host total b.curr_offset (length_received host granted b a)
  unfolding length_received length_stored
  length_received-After granted b s (broken, s') scarce h' h is =
      (refl, omega arith, kept b s s' h is)
  length_received-After granted b s (would_block, s') scarce h' h is = record {
    receiving = kept b s s' h is;
    forward = omega arith;
    code = ground (arith, h'.1);
  }
  length_received-After granted b s (arrived [], s') scarce h' h is =
      (refl, omega arith, kept b s s' h is.1)
  length_received-After granted b s (arrived (x ∷ xs), s') scarce h' h is =
      let off = b.curr_offset in
      let bs = x ∷ xs in
      let memory = to_memory host 4 b.len in
      let room : off + length bs ≤ length memory =
        omega (arith, is.0, h'.1, length-int host b.len) in
      let cells = take off memory ++ (bs ++ drop (off + length bs) memory) in
      let b' : BufferList = record {
        buffer = b.buffer;
        len = of_memory host cells;
        curr_offset = off + length bs;
      } in
      let taken_bytes =
        All-split IsByte bs s'.line (subst (λ t. All IsByte t) (sym is.1) h.bytes) in
      let cell_bytes : All IsByte cells =
        All-append IsByte (take off memory) (bs ++ drop (off + length bs) memory)
          (All-take IsByte off memory (int-IsByte host b.len))
          (All-append IsByte bs (drop (off + length bs) memory) taken_bytes.0
            (All-drop IsByte (off + length bs) memory (int-IsByte host b.len))) in
      let stored : to_memory host 4 b'.len ≡ cells =
        int-of_memory host cells (length-written off memory bs room ∙ length-int host b.len)
          cell_bytes in
      let front : take (off + length bs) (to_memory host 4 b'.len) ≡ take off memory ++ bs =
        rw stored (take-written off memory bs room) in
      let early : ltb off 4 ≡ true = ground (arith, h'.1) in
      let line : take off memory ++ s.line ≡ total = rw early at h.line in
      let line' : take (off + length bs) (to_memory host 4 b'.len) ++ s'.line ≡ total =
        rw front (
          append_assoc (take off memory) bs s'.line ∙ ap (λ t. take off memory ++ t) is.1 ∙ line) in
      let read : Receiving host total (length_read host granted b') s' =
        length_read-Receiving granted b' s' scarce h'.0 (omega (arith, is.0, h'.1)) line'
          taken_bytes.1 in
      rw (write_cells-fits memory off bs room) (
        recv_body-After (length_read host granted b') s' off read
          (rw (offset-length_read host granted b') (omega arith)))

  -- For a server that sends any bytes at all, where memory for 2^31 bytes or more is never granted: a
  -- call of `recv_buffer` neither faults nor writes outside the buffer, whatever the kernel answers,
  -- and loses no byte. What the buffer holds, the length first, and the rest of the line stay the same
  -- in total, `curr_offset` never goes back, the return code is 1 when the message is complete and 0
  -- otherwise, and a failure is -1.
  pub recv_buffer-After :
      (granted : ℕ → Bool) (b : BufferList) (s : Inlet)
      → ((n : ℕ) → granted n ≡ true → n < 2 ^ 31)
      → Receiving host total b s
      → AfterRecv host total b.curr_offset (recv_buffer host granted (b, s))
  unfolding recv_buffer
  recv_buffer-After granted b s scarce h = elim h.held [
    | inl short ↦
        let early : ltb b.curr_offset 4 ≡ true = ground (arith, short.1) in
        rw early (
          length_received-After granted b s (recv (4 - b.curr_offset) s) scarce short h
            (recv-IsTaken (4 - b.curr_offset) s))
    | inr (inl body) ↦
        let late : ltb b.curr_offset 4 ≡ false = ground (arith, body.behind) in
        rw late (recv_body-After b s b.curr_offset h (omega arith))
    | inr (inr refused) ↦
        let late : ltb b.curr_offset 4 ≡ false = ground (arith, refused.1) in
        rw late (recv_body-After b s b.curr_offset h (omega arith))
  ]
