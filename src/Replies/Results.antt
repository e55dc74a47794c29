-- ===== src/Replies/Results.antt =====
-- `process_completions`: what the functions of the user are called with when the answers have come.
use ruby_zookeeper.Prelude.{
  All, ok, ◌==◌, if◌then◌else◌, Bool-cases, ℕ, ◌+◌, ◌≡◌, refl, sym, ◌∙◌, inl, inr, Bool, true,
  false, Option, some, List, [], ◌∷◌, ◌++◌, arith,
}
use ruby_zookeeper.Jute.Deserialize.{deserialize_reply_header}
use ruby_zookeeper.Jute.Format.{reply_header_bytes}
use ruby_zookeeper.Jute.Readers.{read_reply_header}
use ruby_zookeeper.RecordIo.Archive.{IArchive, create_buffer_iarchive}
use ruby_zookeeper.RecordIo.Read.{Left}
use ruby_zookeeper.Replies.{ping_xid, Body, Event, response}
use ruby_zookeeper.Replies.Bodies.{body_bytes, IsBody, call_for, call_completion-result}
use ruby_zookeeper.Replies.Deliver.{call_completion, call_reply, process_reply, process_replies}
use ruby_zookeeper.Replies.InOrder.{IsAnswer, AreAnswers, responses}
use ruby_zookeeper.Session.{Env, Completion}
use ruby_zookeeper.Wire.{BufferList}
use mathlib.Core.List.{append-nil}
use mathlib.Core.Path.{subst}

-- An answer with the bytes of a result behind its header, unless it carries an error.
pub record IsResult (env : Env) (c : Completion) (b : BufferList) : Type 0 where
  pub answer : IsAnswer env c b
  pub body : Body
  pub of_type : IsBody c.completion_type body
  pub carried : (answer.header.err == 0) ≡ true → answer.packet.payload ≡ body_bytes body
  pub length_told : b.len + 4 ≡ b.curr_offset

abbrev pub AreResults : Env → List (Completion × BufferList) → Type 0
AreResults env pairs = All (λ a. IsResult env a.0 a.1) pairs

abbrev pub calls_for :
    (env : Env) (pairs : List (Completion × BufferList)) → AreResults env pairs → List Event
calls_for env [] are = []
calls_for env ((c, b) ∷ pairs) are =
    let more = calls_for env pairs are.1 in
    if c.xid == ping_xid then more else call_for c (are.0).answer.header (are.0).body ∷ more

pub AreAnswers-results :
    (env : Env) (pairs : List (Completion × BufferList))
    → AreResults env pairs
    → AreAnswers env pairs
AreAnswers-results env [] are = tt
AreAnswers-results env ((c, b) ∷ pairs) are = ((are.0).answer, AreAnswers-results env pairs are.1)

module _ (env : Env) (malloc : ℕ → ℕ → Bool) (granted : (off n : ℕ) → malloc off n ≡ true) where
  -- The header of an answer, read with the length that came before the message.
  result-read :
      (c : Completion) (b : BufferList) (is : IsResult env c b)
      → (ia : IArchive) × (deserialize_reply_header env.host malloc (
            create_buffer_iarchive
              (reply_header_bytes is.answer.header ++ is.answer.packet.payload)
              b.len)
          ≡ ok is.answer.header ia)
        × Left [] ia is.answer.packet.payload
  unfolding create_buffer_iarchive
  result-read c b is =
      let header = is.answer.header in
      let packet = is.answer.packet in
      let bytes = reply_header_bytes header ++ packet.payload in
      let left : Left [] (create_buffer_iarchive bytes b.len) bytes = record {
        bytes = sym (append-nil bytes);
        room = omega (arith, packet.received, is.length_told);
        fits = omega arith;
        small = omega (arith, packet.small, is.length_told);
      } in
      (read_reply_header malloc granted env.host header packet.valid).run []
        (create_buffer_iarchive bytes b.len) packet.payload left

  process_reply-result :
      (chroot : Option (List ℕ)) (c : Completion) (b : BufferList) (is : IsResult env c b)
      → (c.xid == ping_xid) ≡ false
      → process_reply env malloc chroot (response c b)
        ≡ some (call_for c is.answer.header is.body ∷ [])
  unfolding process_reply call_reply
  process_reply-result chroot c b is no_ping =
      let hdr = is.answer.header in
      let (ia, read, left) = result-read c b is in
      let no_ping' : (hdr.xid == ping_xid) ≡ false = rw is.answer.same no_ping in
      let called : call_completion env malloc c hdr ia ≡ some (call_for c hdr is.body ∷ []) =
        call_completion-result env malloc granted c.completion_type c hdr is.body ia refl is.of_type
          no_ping'
          (λ fine.
            subst (λ bs. Left [] ia bs) (is.carried fine ∙ sym (append-nil (body_bytes is.body)))
              left) in
      rw (is.answer.packet.stored, process_reply)
        (rw (read, process_reply) (rw (is.answer.plain.0) called))

  -- If memory is granted: the loop of `process_completions` over answers to asynchronous requests, as
  -- the loop of `zookeeper_process` queues them, calls the function of each request once and in their
  -- order, with the return code of the answer, and when that is 0 with the result whose bytes the
  -- answer carries.
  pub process_replies-Results :
      (chroot : Option (List ℕ)) (pairs : List (Completion × BufferList))
      (are : AreResults env pairs)
      → process_replies env malloc chroot (responses pairs) ≡ some (calls_for env pairs are)
  unfolding process_replies
  process_replies-Results chroot [] are = refl
  process_replies-Results chroot ((c, b) ∷ pairs) are =
      let more = process_replies-Results chroot pairs are.1 in
      elim (Bool-cases (c.xid == ping_xid)) [
        | inl ping ↦ rw ping more
        | inr no_ping ↦ rw no_ping (
            rw (process_reply-result chroot c b are.0 no_ping, process_replies)
              (rw (more, process_replies) refl))
      ]
