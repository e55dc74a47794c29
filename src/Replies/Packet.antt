-- ===== src/Replies/Packet.antt =====
-- The rounds of the loop of `zookeeper_process` in which the answer to a request is read.
use ruby_zookeeper.Prelude.{
  length, ok, ◌==◌, ℕ, ◌+◌, ◌^◌, ◌<◌, ◌≡◌, refl, sym, ap, ◌∙◌, Bool, true, false, some, List, [],
  ◌++◌, arith,
}
use ruby_zookeeper.Auth.{auth_xid}
use ruby_zookeeper.Jute.Deserialize.{deserialize_reply_header}
use ruby_zookeeper.Jute.Format.{IsReplyHeader, reply_header_bytes}
use ruby_zookeeper.Jute.Readers.{read_reply_header}
use ruby_zookeeper.Jute.Types.{ReplyHeader}
use ruby_zookeeper.RecordIo.Archive.{IArchive, create_buffer_iarchive}
use ruby_zookeeper.RecordIo.Read.{Left}
use ruby_zookeeper.Replies.{watcher_event_xid, set_watches_xid, Handle}
use ruby_zookeeper.Replies.Process.{
  see_zxid, process_response, dispatch, process_header, process_cells, process_buffer,
}
use ruby_zookeeper.Session.{Env}
use ruby_zookeeper.Watchers.{HashTable}
use ruby_zookeeper.Wire.{BufferList}
use mathlib.Core.List.{append-nil}

-- A buffer as `recv_buffer` leaves it, with a header and anything behind it.
pub record IsPacket (b : BufferList) (header : ReplyHeader) : Type 0 where
  pub payload : List ℕ
  pub valid : IsReplyHeader header
  pub stored : b.buffer ≡ some (reply_header_bytes header ++ payload)
  pub received : b.curr_offset ≡ length (reply_header_bytes header ++ payload) + 4
  pub small : b.curr_offset < 2 ^ 31

-- Not the xid of a notification, of the watches that were set again, or of authentication.
abbrev pub IsOrdinary : ℕ → Type 0
IsOrdinary xid =
    ((xid == watcher_event_xid) ≡ false)
    × ((xid == set_watches_xid) ≡ false)
    × ((xid == auth_xid) ≡ false)

module _ (env : Env) (malloc : ℕ → ℕ → Bool) (granted : (off n : ℕ) → malloc off n ≡ true) where
  pub packet-read :
      (b : BufferList) (header : ReplyHeader) (is : IsPacket b header)
      → (ia : IArchive) × (deserialize_reply_header env.host malloc
            (create_buffer_iarchive (reply_header_bytes header ++ is.payload) b.curr_offset)
          ≡ ok header ia)
  unfolding create_buffer_iarchive
  packet-read b header is =
      let bytes = reply_header_bytes header in
      let archive = create_buffer_iarchive (bytes ++ is.payload) b.curr_offset in
      let left : Left [] archive (bytes ++ is.payload) = record {
        bytes = sym (append-nil (bytes ++ is.payload));
        room = omega (arith, is.received);
        fits = omega arith;
        small = is.small;
      } in
      let (ia, run, left') =
        (read_reply_header malloc granted env.host header is.valid).run [] archive is.payload
          left in
      (ia, run)

  process_buffer-read :
      {H : HashTable} (b : BufferList) (cells : List ℕ) (header : ReplyHeader) (ia : IArchive)
      (h : Handle H)
      → b.buffer ≡ some cells
      → deserialize_reply_header env.host malloc (create_buffer_iarchive cells b.curr_offset)
        ≡ ok header ia
      → process_buffer env malloc b h ≡ dispatch env malloc header b ia (see_zxid header h)
  unfolding process_buffer process_cells process_header
  process_buffer-read b cells header ia h stored read =
      ap (process_cells env malloc b h) stored ∙ ap (process_header env malloc b h) read

  dispatch-ordinary :
      {H : HashTable} (b : BufferList) (header : ReplyHeader) (ia : IArchive) (h : Handle H)
      → IsOrdinary header.xid
      → dispatch env malloc header b ia h
        ≡ process_response env malloc header b ia h h.zh.sent_requests
  unfolding dispatch
  dispatch-ordinary b header ia h plain = rw (plain.0, plain.1, plain.2) refl

  -- A round with an answer reads its header and goes on with the first request.
  pub process_buffer-packet :
      {H : HashTable} (b : BufferList) (header : ReplyHeader) (h : Handle H)
      (is : IsPacket b header)
      → IsOrdinary header.xid
      → process_buffer env malloc b h
        ≡ process_response env malloc header b
            (packet-read b header is).0
            (see_zxid header h)
            (see_zxid header h).zh.sent_requests
  process_buffer-packet b header h is plain =
      let (ia, read) = packet-read b header is in
      process_buffer-read b (reply_header_bytes header ++ is.payload) header ia h is.stored read
      ∙ dispatch-ordinary b header ia (see_zxid header h) plain
