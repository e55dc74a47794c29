-- ===== src/Jute/Packets.antt =====
-- Whole packets: what one side writes into a fresh archive, the other side reads. The byte orders and
-- the allocators of the two sides have nothing to do with each other.
use ruby_zookeeper.Prelude.{
  ℕ, ◌≤◌, ◌≡◌, ◌++◌, true, Bool, List, length, Run, Void, ok, return, ◌>>=◌, ◌>>◌, [],
}
use ruby_zookeeper.RecordIo.{Host}
use ruby_zookeeper.RecordIo.Archive.{OArchive, IArchive, create_buffer_iarchive}
use ruby_zookeeper.RecordIo.Write.{Writes, Writes-then}
use ruby_zookeeper.RecordIo.Grow.{max_message}
use ruby_zookeeper.RecordIo.Read.{Reads, Reads-both, Left}
use ruby_zookeeper.RecordIo.RoundTrip.{Packs, Writes-Packs, Reads-packet}
use ruby_zookeeper.Jute.Types.{
  ConnectRequest, SetWatches, RequestHeader, AuthPacket, ReplyHeader, GetDataRequest, CreateRequest,
  SetDataRequest, WatcherEvent, GetDataResponse, GetChildrenResponse, GetAclResponse,
}
use ruby_zookeeper.Jute.Format.{
  IsConnectRequest, connect_request_bytes, IsSetWatches, set_watches_bytes, IsRequestHeader,
  request_header_bytes, IsAuthPacket, auth_packet_bytes, IsReplyHeader, reply_header_bytes,
  IsGetDataRequest, get_data_request_bytes, IsSetDataRequest, set_data_request_bytes,
  IsCreateRequest, create_request_bytes, IsWatcherEvent, watcher_event_bytes, IsGetDataResponse,
  get_data_response_bytes, IsGetChildrenResponse, get_children_response_bytes, IsGetAclResponse,
  get_acl_response_bytes,
}
use ruby_zookeeper.Jute.Serialize.{
  serialize_connect_request, serialize_set_watches, serialize_request_header, serialize_auth_packet,
  serialize_reply_header, serialize_get_data_request, serialize_set_data_request,
  serialize_create_request, serialize_watcher_event, serialize_get_data_response,
  serialize_get_children_response, serialize_get_acl_response,
}
use ruby_zookeeper.Jute.Deserialize.{
  deserialize_connect_request, deserialize_set_watches, deserialize_request_header,
  deserialize_auth_packet, deserialize_reply_header, deserialize_get_data_request,
  deserialize_set_data_request, deserialize_create_request, deserialize_watcher_event,
  deserialize_get_data_response, deserialize_get_children_response, deserialize_get_acl_response,
}
use ruby_zookeeper.Jute.Writers.{
  write_connect_request, write_set_watches, write_request_header, write_auth_packet,
  write_reply_header, write_get_data_request, write_set_data_request, write_create_request,
  write_watcher_event, write_get_data_response, write_get_children_response, write_get_acl_response,
}
use ruby_zookeeper.Jute.Readers.{
  read_connect_request, read_set_watches, read_request_header, read_auth_packet, read_reply_header,
  read_get_data_request, read_set_data_request, read_create_request, read_watcher_event,
  read_get_data_response, read_get_children_response, read_get_acl_response,
}

-- `writer` makes a packet of the bytes `bs`, and `reader` gets `a` from them and leaves none.
pub record Carries {A : Type 0} (writer : Run OArchive Void) (reader : Run IArchive A) (bs : List ℕ)
    (a : A) : Type 0 where
  pub packed : Packs writer bs
  pub rest : IArchive
  pub got : reader (create_buffer_iarchive bs (length bs)) ≡ ok a rest
  pub all_read : Left [] rest []

-- A header and the payload behind it.
abbrev pub both : {A B : Type 0} → Run IArchive A → Run IArchive B → Run IArchive (A × B)
both m n = do a ← m; b ← n; return (a, b)

carries :
    {A : Type 0} {writer : Run OArchive Void} {reader : Run IArchive A} {bs : List ℕ} {a : A}
    → Writes writer bs
    → Reads reader bs a
    → length bs ≤ max_message
    → Carries writer reader bs a
carries w r small =
    let (ia, run, left) = Reads-packet r small in
    record { packed = Writes-Packs w small; rest = ia; got = run; all_read = left }

-- Memory is granted on both sides.
module _ (realloc : ℕ → Bool) (grown : (n : ℕ) → realloc n ≡ true) (host : Host)
    (malloc : ℕ → ℕ → Bool) (granted : (off n : ℕ) → malloc off n ≡ true) (peer : Host) where
  -- If memory is granted: a ConnectRequest whose fields fit their wire types, of at most 2^28 bytes in wire format, is written as one packet and read back from it
  -- unchanged, to the last byte, on a peer of either byte order.
  pub connect_request-roundtrip :
      (v : ConnectRequest)
      → IsConnectRequest v
      → length (connect_request_bytes v) ≤ max_message
      → Carries
          (serialize_connect_request host realloc v)
          (deserialize_connect_request peer malloc)
          (connect_request_bytes v)
          v
  connect_request-roundtrip v h small =
      carries (write_connect_request realloc grown host v h)
        (read_connect_request malloc granted peer v h) small

  -- If memory is granted: a RequestHeader and a CreateRequest whose fields fit their wire types, of at most 2^28 bytes together, are
  -- written as one packet and read back from it unchanged, to the last byte, on a peer of either byte order.
  pub create_request-roundtrip :
      (h : RequestHeader) (v : CreateRequest)
      → IsRequestHeader h
      → IsCreateRequest v
      → length (request_header_bytes h ++ create_request_bytes v) ≤ max_message
      → Carries
          (serialize_request_header host realloc h >> serialize_create_request host realloc v)
          (both (deserialize_request_header peer malloc) (deserialize_create_request peer malloc))
          (request_header_bytes h ++ create_request_bytes v)
          (h, v)
  create_request-roundtrip h v is_h is_v small =
      carries
        (Writes-then (write_request_header realloc grown host h is_h)
          (write_create_request realloc grown host v is_v))
        (Reads-both (read_request_header malloc granted peer h is_h)
          (read_create_request malloc granted peer v is_v))
        small

  -- If memory is granted: a RequestHeader and a GetDataRequest whose fields fit their wire types, of at most 2^28 bytes together, are
  -- written as one packet and read back from it unchanged, to the last byte, on a peer of either byte order.
  pub get_data_request-roundtrip :
      (h : RequestHeader) (v : GetDataRequest)
      → IsRequestHeader h
      → IsGetDataRequest v
      → length (request_header_bytes h ++ get_data_request_bytes v) ≤ max_message
      → Carries
          (serialize_request_header host realloc h >> serialize_get_data_request host realloc v)
          (both (deserialize_request_header peer malloc) (deserialize_get_data_request peer malloc))
          (request_header_bytes h ++ get_data_request_bytes v)
          (h, v)
  get_data_request-roundtrip h v is_h is_v small =
      carries
        (Writes-then (write_request_header realloc grown host h is_h)
          (write_get_data_request realloc grown host v is_v))
        (Reads-both (read_request_header malloc granted peer h is_h)
          (read_get_data_request malloc granted peer v is_v))
        small

  -- If memory is granted: a RequestHeader and a SetDataRequest whose fields fit their wire types, of at most 2^28 bytes together, are
  -- written as one packet and read back from it unchanged, to the last byte, on a peer of either byte order.
  pub set_data_request-roundtrip :
      (h : RequestHeader) (v : SetDataRequest)
      → IsRequestHeader h
      → IsSetDataRequest v
      → length (request_header_bytes h ++ set_data_request_bytes v) ≤ max_message
      → Carries
          (serialize_request_header host realloc h >> serialize_set_data_request host realloc v)
          (both (deserialize_request_header peer malloc) (deserialize_set_data_request peer malloc))
          (request_header_bytes h ++ set_data_request_bytes v)
          (h, v)
  set_data_request-roundtrip h v is_h is_v small =
      carries
        (Writes-then (write_request_header realloc grown host h is_h)
          (write_set_data_request realloc grown host v is_v))
        (Reads-both (read_request_header malloc granted peer h is_h)
          (read_set_data_request malloc granted peer v is_v))
        small

  -- If memory is granted: a RequestHeader and a SetWatches whose fields fit their wire types, of at most 2^28 bytes together, are
  -- written as one packet and read back from it unchanged, to the last byte, on a peer of either byte order.
  pub set_watches-roundtrip :
      (h : RequestHeader) (v : SetWatches)
      → IsRequestHeader h
      → IsSetWatches v
      → length (request_header_bytes h ++ set_watches_bytes v) ≤ max_message
      → Carries
          (serialize_request_header host realloc h >> serialize_set_watches host realloc v)
          (both (deserialize_request_header peer malloc) (deserialize_set_watches peer malloc))
          (request_header_bytes h ++ set_watches_bytes v)
          (h, v)
  set_watches-roundtrip h v is_h is_v small =
      carries
        (Writes-then (write_request_header realloc grown host h is_h)
          (write_set_watches realloc grown host v is_v))
        (Reads-both (read_request_header malloc granted peer h is_h)
          (read_set_watches malloc granted peer v is_v))
        small

  -- If memory is granted: a RequestHeader and a AuthPacket whose fields fit their wire types, of at most 2^28 bytes together, are
  -- written as one packet and read back from it unchanged, to the last byte, on a peer of either byte order.
  pub auth_packet-roundtrip :
      (h : RequestHeader) (v : AuthPacket)
      → IsRequestHeader h
      → IsAuthPacket v
      → length (request_header_bytes h ++ auth_packet_bytes v) ≤ max_message
      → Carries
          (serialize_request_header host realloc h >> serialize_auth_packet host realloc v)
          (both (deserialize_request_header peer malloc) (deserialize_auth_packet peer malloc))
          (request_header_bytes h ++ auth_packet_bytes v)
          (h, v)
  auth_packet-roundtrip h v is_h is_v small =
      carries
        (Writes-then (write_request_header realloc grown host h is_h)
          (write_auth_packet realloc grown host v is_v))
        (Reads-both (read_request_header malloc granted peer h is_h)
          (read_auth_packet malloc granted peer v is_v))
        small

  -- If memory is granted: a ReplyHeader and a GetDataResponse whose fields fit their wire types, of at most 2^28 bytes together, are
  -- written as one packet and read back from it unchanged, to the last byte, on a peer of either byte order.
  pub get_data_response-roundtrip :
      (h : ReplyHeader) (v : GetDataResponse)
      → IsReplyHeader h
      → IsGetDataResponse v
      → length (reply_header_bytes h ++ get_data_response_bytes v) ≤ max_message
      → Carries
          (serialize_reply_header host realloc h >> serialize_get_data_response host realloc v)
          (both (deserialize_reply_header peer malloc) (deserialize_get_data_response peer malloc))
          (reply_header_bytes h ++ get_data_response_bytes v)
          (h, v)
  get_data_response-roundtrip h v is_h is_v small =
      carries
        (Writes-then (write_reply_header realloc grown host h is_h)
          (write_get_data_response realloc grown host v is_v))
        (Reads-both (read_reply_header malloc granted peer h is_h)
          (read_get_data_response malloc granted peer v is_v))
        small

  -- If memory is granted: a ReplyHeader and a GetChildrenResponse whose fields fit their wire types, of at most 2^28 bytes together, are
  -- written as one packet and read back from it unchanged, to the last byte, on a peer of either byte order.
  pub get_children_response-roundtrip :
      (h : ReplyHeader) (v : GetChildrenResponse)
      → IsReplyHeader h
      → IsGetChildrenResponse v
      → length (reply_header_bytes h ++ get_children_response_bytes v) ≤ max_message
      → Carries
          (serialize_reply_header host realloc h >> serialize_get_children_response host realloc v)
          (both
            (deserialize_reply_header peer malloc)
            (deserialize_get_children_response peer malloc))
          (reply_header_bytes h ++ get_children_response_bytes v)
          (h, v)
  get_children_response-roundtrip h v is_h is_v small =
      carries
        (Writes-then (write_reply_header realloc grown host h is_h)
          (write_get_children_response realloc grown host v is_v))
        (Reads-both (read_reply_header malloc granted peer h is_h)
          (read_get_children_response malloc granted peer v is_v))
        small

  -- If memory is granted: a ReplyHeader and a GetAclResponse whose fields fit their wire types, of at most 2^28 bytes together, are
  -- written as one packet and read back from it unchanged, to the last byte, on a peer of either byte order.
  pub get_acl_response-roundtrip :
      (h : ReplyHeader) (v : GetAclResponse)
      → IsReplyHeader h
      → IsGetAclResponse v
      → length (reply_header_bytes h ++ get_acl_response_bytes v) ≤ max_message
      → Carries
          (serialize_reply_header host realloc h >> serialize_get_acl_response host realloc v)
          (both (deserialize_reply_header peer malloc) (deserialize_get_acl_response peer malloc))
          (reply_header_bytes h ++ get_acl_response_bytes v)
          (h, v)
  get_acl_response-roundtrip h v is_h is_v small =
      carries
        (Writes-then (write_reply_header realloc grown host h is_h)
          (write_get_acl_response realloc grown host v is_v))
        (Reads-both (read_reply_header malloc granted peer h is_h)
          (read_get_acl_response malloc granted peer v is_v))
        small

  -- If memory is granted: a ReplyHeader and a WatcherEvent whose fields fit their wire types, of at most 2^28 bytes together, are
  -- written as one packet and read back from it unchanged, to the last byte, on a peer of either byte order.
  pub watcher_event-roundtrip :
      (h : ReplyHeader) (v : WatcherEvent)
      → IsReplyHeader h
      → IsWatcherEvent v
      → length (reply_header_bytes h ++ watcher_event_bytes v) ≤ max_message
      → Carries
          (serialize_reply_header host realloc h >> serialize_watcher_event host realloc v)
          (both (deserialize_reply_header peer malloc) (deserialize_watcher_event peer malloc))
          (reply_header_bytes h ++ watcher_event_bytes v)
          (h, v)
  watcher_event-roundtrip h v is_h is_v small =
      carries
        (Writes-then (write_reply_header realloc grown host h is_h)
          (write_watcher_event realloc grown host v is_v))
        (Reads-both (read_reply_header malloc granted peer h is_h)
          (read_watcher_event malloc granted peer v is_v))
        small
