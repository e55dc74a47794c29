-- ===== src/Session/Stream.antt =====
-- The bytes on the line and those that wait behind them in the send queue.
use ruby_zookeeper.Prelude.{
  length, take, drop, All, length-append, length-take_le, drop_all, Outcome-cases, ℕ, zero, suc,
  ◌+◌, ◌^◌, ◌≤◌, ◌<◌, ◌≡◌, refl, sym, ap, ◌∙◌, inl, inr, Bool, true, false, Option, some, List, [],
  ◌∷◌, ◌++◌, arith,
}
use ruby_zookeeper.Jute.Vector.{concat}
use ruby_zookeeper.RecordIo.{be}
use ruby_zookeeper.RecordIo.Write.{pointed_bytes}
use ruby_zookeeper.Session.{zok, zconnectionloss, Env, flush_loop}
use ruby_zookeeper.Wire.{Socket, BufferList, send_buffer}
use ruby_zookeeper.Wire.Send.{message, Sending, send_buffer-After}
use mathlib.Core.List.{append_assoc, append-nil}

-- A packet whose memory holds its bytes.
pub record IsQueued (b : BufferList) : Type 0 where
  pub cells : List ℕ
  pub allocated : b.buffer ≡ some cells
  pub small : b.len < 2 ^ 31
  pub fits : b.len ≤ length cells
  pub sent : b.curr_offset ≤ b.len + 4

-- What is left of a packet, its length included.
abbrev pub unsent : BufferList → List ℕ
unsent b = drop b.curr_offset (message b.len (pointed_bytes b.buffer))

abbrev pub pending : List BufferList → List ℕ
pending = concat unsent

-- The queue and the line after `flush_loop`.
pub record Flushed (total : List ℕ) (r : Option (ℕ × List BufferList × Socket × ℕ)) : Type 0 where
  pub rc : ℕ
  pub queue : List BufferList
  pub socket : Socket
  pub last_send : ℕ
  pub run : r ≡ some (rc, queue, socket, last_send)
  pub queued : All IsQueued queue
  pub stream : socket.line ++ pending queue ≡ total

Sending-start :
    (b : BufferList) (s : Socket) (h : IsQueued b) → Sending (s.line ++ unsent b) h.cells b.len b s
Sending-start b s h = record {
  allocated = h.allocated;
  same_len = refl;
  sent = h.sent;
  line =
      let e = h.allocated in
      ap (λ o. s.line ++ drop b.curr_offset (message b.len (pointed_bytes o))) (sym e);
}

Sending-unsent :
    {total cells : List ℕ} {len : ℕ} (b : BufferList) (s : Socket)
    → Sending total cells len b s
    → s.line ++ unsent b ≡ total
Sending-unsent {cells = cells} {len = len} b s h =
    ap (λ n. s.line ++ drop b.curr_offset (message n (pointed_bytes b.buffer))) h.same_len
    ∙ ap (λ o. s.line ++ drop b.curr_offset (message len (pointed_bytes o))) h.allocated
    ∙ h.line

Sending-IsQueued :
    {total cells : List ℕ} {len : ℕ} (b : BufferList) (s : Socket)
    → len < 2 ^ 31
    → len ≤ length cells
    → Sending total cells len b s
    → IsQueued b
Sending-IsQueued {cells = cells} b s small fits h = record {
  cells = cells;
  allocated = h.allocated;
  small = omega (arith, h.same_len);
  fits = omega (arith, h.same_len);
  sent = omega (arith, h.same_len, h.sent);
}

-- A packet that stays at the head of the queue.
stays :
    {total cells : List ℕ} {len : ℕ} (b b' : BufferList) (queue : List BufferList) (s s' : Socket)
    → s.line ++ unsent b ≡ total
    → Sending total cells len b' s'
    → s'.line ++ (unsent b' ++ pending queue) ≡ s.line ++ (unsent b ++ pending queue)
stays b b' queue s s' e h =
    sym (append_assoc s'.line (unsent b') (pending queue))
    ∙ ap (λ t. t ++ pending queue) (Sending-unsent b' s' h ∙ sym e)
    ∙ append_assoc s.line (unsent b) (pending queue)

-- A packet that is through.
passes :
    {total cells : List ℕ} {len : ℕ} (b' : BufferList) (s' : Socket)
    → len ≤ length cells
    → b'.curr_offset ≡ len + 4
    → Sending total cells len b' s'
    → s'.line ≡ total
passes {total} {cells} {len} b' s' fits e h =
    let size : length (message len cells) ≤ b'.curr_offset =
      omega (arith, length-append (be 4 len) (take len cells), length-take_le len cells fits) in
    let none_left = drop_all b'.curr_offset (message len cells) size in
    sym (append-nil s'.line) ∙ ap (λ t. s'.line ++ t) (sym none_left) ∙ h.line

-- Whatever the kernel answers and whether or not the handle is connected: sending what it can of a
-- queue of packets, the loop of `flush_send_queue` does not fault, and the bytes on the line followed
-- by those that wait in the queue stay the same, so that packets are neither lost, torn nor reordered.
pub flush_loop-Flushed :
    (env : Env) (connected : Bool) (queue : List BufferList) (s : Socket) (last_send : ℕ)
    → All IsQueued queue
    → Flushed (s.line ++ pending queue) (flush_loop env connected queue s last_send)
unfolding flush_loop
flush_loop-Flushed env connected [] s last_send h = record {
  rc = zok;
  queue = [];
  socket = s;
  last_send = last_send;
  run = refl;
  queued = tt;
  stream = refl;
}
flush_loop-Flushed env false (b ∷ queue) s last_send h = record {
  rc = zok;
  queue = b ∷ queue;
  socket = s;
  last_send = last_send;
  run = refl;
  queued = h;
  stream = refl;
}
flush_loop-Flushed env true (b ∷ queue) s last_send (h, hs) =
    let after =
      send_buffer-After (s.line ++ unsent b) h.cells b.len h.small h.fits env.host b s
        (Sending-start b s h) in
    elim (Outcome-cases (send_buffer env.host (b, s))) [
      | inl (zero, (b', s'), e) ↦
          let partly = rw e at after in
          record {
            rc = zok;
            queue = b' ∷ queue;
            socket = s';
            last_send = last_send;
            run = rw (e, flush_loop) refl;
            queued = (Sending-IsQueued b' s' h.small h.fits partly.sending, hs);
            stream = stays b b' queue s s' refl partly.sending;
          }
      | inl (suc n, (b', s'), e) ↦
          let whole = rw e at after in
          let through = passes b' s' h.fits (ground (arith, whole.code)) whole.sending in
          let rest = flush_loop-Flushed env true queue s' env.now hs in
          record {
            rc = rest.rc;
            queue = rest.queue;
            socket = rest.socket;
            last_send = rest.last_send;
            run = rw (e, flush_loop) rest.run;
            queued = rest.queued;
            stream =
                rest.stream
                ∙ ap (λ t. t ++ pending queue) through
                ∙ append_assoc s.line (unsent b) (pending queue);
          }
      | inr (inl (rc, (b', s'), e)) ↦
          let failed = rw e at after in
          record {
            rc = zconnectionloss;
            queue = b' ∷ queue;
            socket = s';
            last_send = last_send;
            run = rw (e, flush_loop) refl;
            queued = (Sending-IsQueued b' s' h.small h.fits failed.2, hs);
            stream = stays b b' queue s s' refl failed.2;
          }
      | inr (inr e) ↦ absurd (rw e at after)
    ]
