-- ===== src/Wire/Receive/Message.antt =====
-- The message that `recv_buffer` has when it says that one is complete.
use ruby_zookeeper.Prelude.{
  length, take, drop, take-append, drop-append, take-append_eq, drop-append_eq, take_all, ok, ltb,
  to_size, ℕ, ◌+◌, ◌-◌, ◌^◌, ◌<◌, ◌≡◌, sym, ap, ◌∙◌, inl, inr, Bool, true, false, some, List, [],
  ◌++◌, arith,
}
use ruby_zookeeper.RecordIo.{Host, be, be-injective}
use ruby_zookeeper.Wire.{BufferList}
use ruby_zookeeper.Wire.Receive.{Inlet, recv_buffer}
use ruby_zookeeper.Wire.Receive.Held.{got, Receiving, Received, AfterRecv, got-body}
use ruby_zookeeper.Wire.Receive.Whole.{recv_buffer-After}
use ruby_zookeeper.Wire.Send.{message}
use mathlib.Core.Path.{subst}

-- The length says where the message ends.
split :
    (len : ℕ) (cells behind body rest : List ℕ)
    → length cells ≡ len
    → len < 2 ^ 31
    → length body < 2 ^ 31
    → (be 4 len ++ cells) ++ behind ≡ be 4 (length body) ++ (body ++ rest)
    → (len ≡ length body) × (cells ≡ body) × (behind ≡ rest)
split len cells behind body rest fits small small' e =
    let same : len ≡ length body =
      be-injective len (length body) (omega arith) (omega arith) (ap (take 4) e) in
    let e' : cells ++ behind ≡ body ++ rest = ap (drop 4) e in
    let n : length cells ≡ length body = fits ∙ same in
    (
      same,
      sym (take-append cells behind)
          ∙ ap (take (length cells)) e'
          ∙ take-append_eq (length cells) body rest n,
      sym (drop-append cells behind)
          ∙ ap (drop (length cells)) e'
          ∙ drop-append_eq (length cells) body rest n,
    )

-- For a message that is not empty and shorter than 2^31 bytes, of which some bytes are in the buffer
-- and the others on the line, in whatever pieces they come: when `recv_buffer` returns 1, its buffer is
-- the body of the message, its length the number of these bytes, and what follows the message is still
-- on the line.
pub recv_buffer-message :
    (host : Host) (granted : ℕ → Bool) (body rest : List ℕ) (b b' : BufferList) (s s' : Inlet)
    → ((n : ℕ) → granted n ≡ true → n < 2 ^ 31)
    → 0 < length body
    → length body < 2 ^ 31
    → Receiving host (message (length body) body ++ rest) b s
    → recv_buffer host granted (b, s) ≡ ok 1 (b', s')
    → (b'.len ≡ length body) × (b'.buffer ≡ some body) × (s'.line ≡ rest)
recv_buffer-message host granted body rest b b' s s' scarce some_bytes small h e =
    let total = message (length body) body ++ rest in
    let after : Received host total b.curr_offset 1 b' s' =
      subst (AfterRecv host total b.curr_offset) e
        (recv_buffer-After host total granted b s scarce h) in
    let all : take (length body) body ≡ body = take_all (length body) body (omega arith) in
    let line : got host b' ++ s'.line ≡ be 4 (length body) ++ (body ++ rest) =
      after.receiving.line ∙ ap (λ t. be 4 (length body) ++ (t ++ rest)) all in
    let code : b'.curr_offset ≡ to_size b'.len + 4 = ground (arith, after.code) in
    elim after.receiving.held [
      | inl short ↦ absurd (omega (arith, short.1, code))
      | inr (inl b_body) ↦
          let late : ltb b'.curr_offset 4 ≡ false = ground (arith, b_body.behind) in
          let at : b'.curr_offset - 4 ≡ length b_body.cells =
            ground (arith, code, b_body.fits, b_body.small) in
          let held : got host b' ≡ be 4 b'.len ++ b_body.cells =
            got-body host b' b_body.cells b_body.allocated b_body.behind
            ∙ rw at (
                ap (λ t. be 4 b'.len ++ t)
                  (take_all (length b_body.cells) b_body.cells (omega arith))) in
          let parts =
            split b'.len b_body.cells s'.line body rest b_body.fits b_body.small small
              (ap (λ t. t ++ s'.line) (sym held) ∙ line) in
          (parts.0, b_body.allocated ∙ ap (λ t. some t) parts.1, parts.2)
      | inr (inr refused) ↦
          let late : ltb b'.curr_offset 4 ≡ false = ground (arith, refused.1) in
          let zero_len : b'.len ≡ 0 = ground (arith, code, refused.1) in
          let line' : be 4 b'.len ++ s'.line ≡ be 4 (length body) ++ (body ++ rest) =
            rw (late, refused.0) at line in
          let parts = split b'.len [] s'.line body rest (sym zero_len) (omega arith) small line' in
          absurd (omega (arith, parts.0))
    ]
