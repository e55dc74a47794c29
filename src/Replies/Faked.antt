-- ===== src/Replies/Faked.antt =====
-- What the user and the synchronous callers hear of the requests that wait when the connection is
-- lost.
use ruby_zookeeper.Prelude.{
  drop, take-append-drop, ok, ◌==◌, if◌then◌else◌, ℕ, ◌-◌, ◌^◌, ◌<◌, ◌≡◌, refl, sym, ap, ◌∙◌, Bool,
  true, false, Option, some, List, [], ◌∷◌, ◌++◌, arith,
}
use ruby_zookeeper.Jute.Deserialize.{deserialize_reply_header}
use ruby_zookeeper.Jute.Format.{IsReplyHeader, reply_header_bytes}
use ruby_zookeeper.Jute.Readers.{read_reply_header}
use ruby_zookeeper.Jute.Types.{ReplyHeader}
use ruby_zookeeper.Jute.Writers.{write_reply_header}
use ruby_zookeeper.RecordIo.Archive.{OArchive, IArchive, create_buffer_iarchive, get_buffer_len}
use ruby_zookeeper.RecordIo.Read.{Left}
use ruby_zookeeper.RecordIo.RoundTrip.{Writes-Packs}
use ruby_zookeeper.Replies.{
  watcher_event_xid, ping_xid, no_body, Event, completed, notified, response,
}
use ruby_zookeeper.Replies.Deliver.{call_completion, call_reply, process_reply}
use ruby_zookeeper.Replies.Release.{fake_header, fake_buffer, fake_response}
use ruby_zookeeper.Session.{
  Env, CompletionType, completion_watch, completion_void, completion_stat, completion_data,
  completion_stringlist, completion_acllist, completion_string, Completion,
}
use ruby_zookeeper.Session.Submit.{Grants}
use ruby_zookeeper.Wire.{BufferList}

-- The calls for the asynchronous requests, in their order; a ping is nobody's.
abbrev pub delivered : Env → ℕ → List Completion → List Event
delivered env reason [] = []
delivered env reason (c ∷ cs) =
    let more = delivered env reason cs in
    if c.c == env.synchronous_marker
    then more
    else if c.xid == ping_xid
    then more
    else completed c.completion_type c.c reason no_body c.data_pointer ∷ more

-- The synchronous callers that are notified, in the order of their requests.
abbrev pub told : Env → List Completion → List Event
told env [] = []
told env (c ∷ cs) =
    let more = told env cs in
    if c.c == env.synchronous_marker then notified c.data_pointer ∷ more else more

abbrev pub IsWatch : CompletionType → Type 0
IsWatch completion_watch = Unit {0}
IsWatch _ = ⊥

-- A request as the API puts it on the queue.
pub record IsRequest (c : Completion) : Type 0 where
  pub wide : c.xid < 2 ^ 32
  pub own_xid : (c.xid == watcher_event_xid) ≡ false
  pub typed : IsWatch c.completion_type → ⊥

module _ (env : Env) (malloc : ℕ → ℕ → Bool) (grants : Grants env)
    (granted : (off n : ℕ) → malloc off n ≡ true) (reason : ℕ) (an_int : reason < 2 ^ 32)
    (an_error : (reason == 0) ≡ false) where
  -- The header of the response that is made up for an xid.
  abbrev header : ℕ → ReplyHeader
  header xid = record { xid = xid; zxid = 2 ^ 64 - 1; err = reason }

  faked :
      (xid : ℕ) {oa : OArchive} {b : BufferList}
      → fake_header env xid reason ≡ ok tt oa
      → fake_buffer env oa ≡ some b
      → fake_response env xid reason ≡ some b
  unfolding fake_response
  faked xid e e' = rw (e, fake_response) e'

  pub fake_header-read :
      (xid : ℕ)
      → xid < 2 ^ 32
      → (b : BufferList) × (cells : List ℕ) × (ia : IArchive) × (fake_response env xid reason
          ≡ some b)
        × (b.buffer ≡ some cells)
        × (deserialize_reply_header env.host malloc (create_buffer_iarchive cells b.len)
            ≡ ok (header xid) ia)
  unfolding create_buffer_iarchive fake_header fake_buffer
  fake_header-read xid wide =
      let valid : IsReplyHeader (header xid) = record {
        xid_ok = wide;
        zxid_ok = omega arith;
        err_ok = an_int;
      } in
      let packed =
        Writes-Packs (write_reply_header env.realloc grants.realloc_ok env.host (header xid) valid)
          (omega arith) in
      let len = get_buffer_len packed.archive in
      let b : BufferList = record { buffer = some packed.cells; len = len; curr_offset = 0 } in
      let bytes = reply_header_bytes (header xid) in
      let size : len ≡ 16 = packed.size in
      let tail = drop len packed.cells in
      let start : packed.cells ≡ bytes ++ tail =
        sym (take-append-drop len packed.cells) ∙ ap (λ t. t ++ tail) packed.packet in
      let archive = create_buffer_iarchive packed.cells len in
      let left : Left tail archive bytes = record {
        bytes = start;
        room = omega arith;
        fits = omega arith;
        small = omega arith;
      } in
      let (ia, run, left') =
        (read_reply_header malloc granted env.host (header xid) valid).run tail archive [] left in
      let made : fake_buffer env packed.archive ≡ some b =
        rw (grants.buffer_ok len)
          (ap (λ c. some (record { buffer = c; len = len; curr_offset = 0 })) packed.buffer) in
      (b, packed.cells, ia, faked xid packed.run made, refl, run)

  call_completion-faked :
      (t : CompletionType) (c : Completion) (ia : IArchive)
      → (IsWatch t → ⊥)
      → c.completion_type ≡ t
      → (c.xid == ping_xid) ≡ false
      → call_completion env malloc c (header c.xid) ia
        ≡ some (completed t c.c reason no_body c.data_pointer ∷ [])
  unfolding call_completion
  call_completion-faked completion_watch c ia typed e no_ping = absurd (typed tt)
  call_completion-faked completion_void c ia typed e no_ping =
      rw (e, call_completion) (rw no_ping refl)
  call_completion-faked completion_stat c ia typed e no_ping =
      rw (e, call_completion)
        (rw an_error (ap (λ t. some (completed t c.c reason no_body c.data_pointer ∷ [])) e))
  call_completion-faked completion_data c ia typed e no_ping =
      rw (e, call_completion)
        (rw an_error (ap (λ t. some (completed t c.c reason no_body c.data_pointer ∷ [])) e))
  call_completion-faked completion_stringlist c ia typed e no_ping =
      rw (e, call_completion)
        (rw an_error (ap (λ t. some (completed t c.c reason no_body c.data_pointer ∷ [])) e))
  call_completion-faked completion_acllist c ia typed e no_ping =
      rw (e, call_completion)
        (rw an_error (ap (λ t. some (completed t c.c reason no_body c.data_pointer ∷ [])) e))
  call_completion-faked completion_string c ia typed e no_ping =
      rw (e, call_completion)
        (rw an_error (ap (λ t. some (completed t c.c reason no_body c.data_pointer ∷ [])) e))

  -- The call for the response that is made up for a request.
  pub process_reply-faked :
      (chroot : Option (List ℕ)) (c : Completion) (b : BufferList) (cells : List ℕ) (ia : IArchive)
      → IsRequest c
      → (c.xid == ping_xid) ≡ false
      → b.buffer ≡ some cells
      → deserialize_reply_header env.host malloc (create_buffer_iarchive cells b.len)
        ≡ ok (header c.xid) ia
      → process_reply env malloc chroot (response c b)
        ≡ some (completed c.completion_type c.c reason no_body c.data_pointer ∷ [])
  unfolding process_reply call_reply
  process_reply-faked chroot c b cells ia is no_ping stored read =
      rw (stored, process_reply)
        (rw (read, process_reply)
          (rw (is.own_xid) (call_completion-faked c.completion_type c ia is.typed refl no_ping)))
