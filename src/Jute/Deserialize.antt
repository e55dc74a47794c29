-- ===== src/Jute/Deserialize.antt =====
-- The `deserialize_` functions of zk/src/c/generated/zookeeper.jute.c.
use ruby_zookeeper.Prelude.{ℕ, Bool, none, ok, Run, ◌>>=◌, ◌>>◌, return}
use ruby_zookeeper.RecordIo.{Host}
use ruby_zookeeper.RecordIo.Archive.{
  IArchive, ia_start_record, ia_end_record, ia_deserialize_int, ia_deserialize_long,
  ia_deserialize_bool, ia_deserialize_string, ia_deserialize_buffer,
}
use ruby_zookeeper.Jute.Vector.{Vector, deserialize_vector}
use ruby_zookeeper.Jute.Types.{
  CString, AclId, Acl, Stat, ConnectRequest, SetWatches, RequestHeader, AuthPacket, ReplyHeader,
  GetDataRequest, SetDataRequest, SetDataResponse, CreateRequest, DeleteRequest, GetChildrenRequest,
  SyncRequest, GetAclRequest, SetAclRequest, WatcherEvent, CreateResponse, ExistsRequest,
  GetDataResponse, GetChildrenResponse, GetAclResponse,
}

-- What `calloc` leaves.
abbrev pub blank_id : AclId
blank_id = record { scheme = none; id = none }

abbrev pub blank_acl : Acl
blank_acl = record { perms = 0; id = blank_id }

module _ (host : Host) (malloc : ℕ → ℕ → Bool) where
  unfoldable pub deserialize_acl_id : Run IArchive AclId
  deserialize_acl_id = do
    ia_start_record
    scheme ← ia_deserialize_string host malloc
    id ← ia_deserialize_string host malloc
    ia_end_record
    return (record { scheme = scheme; id = id })

  unfoldable pub deserialize_acl : Run IArchive Acl
  deserialize_acl = do
    ia_start_record
    perms ← ia_deserialize_int host
    id ← deserialize_acl_id
    ia_end_record
    return (record { perms = perms; id = id })

  -- What a `deserialize_ACL` that fails has filled of an element.
  unfoldable pub partial_id : IArchive → AclId
  partial_id ia = elim (ia_deserialize_string host malloc ia) [
    | ok scheme ia' ↦ elim (ia_deserialize_string host malloc ia') [
      | ok id _ ↦ record { scheme = scheme; id = id }
      | _ ↦ record { scheme = scheme; id = none }
    ]
    | _ ↦ blank_id
  ]

  unfoldable pub partial_acl : IArchive → Acl
  partial_acl ia = elim (ia_deserialize_int host ia) [
    | ok perms ia' ↦ record { perms = perms; id = partial_id ia' }
    | _ ↦ blank_acl
  ]

  -- Pointers take 8 bytes, and an ACL 24.
  unfoldable pub deserialize_string_vector : Run IArchive (Vector CString)
  deserialize_string_vector =
      deserialize_vector host malloc 8 (ia_deserialize_string host malloc) (λ _. none) none

  unfoldable pub deserialize_acl_vector : Run IArchive (Vector Acl)
  deserialize_acl_vector = deserialize_vector host malloc 24 deserialize_acl partial_acl blank_acl

  unfoldable pub deserialize_stat : Run IArchive Stat
  deserialize_stat = do
    ia_start_record
    czxid ← ia_deserialize_long host
    mzxid ← ia_deserialize_long host
    ctime ← ia_deserialize_long host
    mtime ← ia_deserialize_long host
    version ← ia_deserialize_int host
    cversion ← ia_deserialize_int host
    aversion ← ia_deserialize_int host
    ephemeral_owner ← ia_deserialize_long host
    data_length ← ia_deserialize_int host
    num_children ← ia_deserialize_int host
    pzxid ← ia_deserialize_long host
    ia_end_record
    return (record {
      czxid = czxid;
      mzxid = mzxid;
      ctime = ctime;
      mtime = mtime;
      version = version;
      cversion = cversion;
      aversion = aversion;
      ephemeral_owner = ephemeral_owner;
      data_length = data_length;
      num_children = num_children;
      pzxid = pzxid;
    })

  unfoldable pub deserialize_connect_request : Run IArchive ConnectRequest
  deserialize_connect_request = do
    ia_start_record
    protocol_version ← ia_deserialize_int host
    last_zxid_seen ← ia_deserialize_long host
    time_out ← ia_deserialize_int host
    session_id ← ia_deserialize_long host
    passwd ← ia_deserialize_buffer host malloc
    ia_end_record
    return (record {
      protocol_version = protocol_version;
      last_zxid_seen = last_zxid_seen;
      time_out = time_out;
      session_id = session_id;
      passwd = passwd;
    })

  unfoldable pub deserialize_set_watches : Run IArchive SetWatches
  deserialize_set_watches = do
    ia_start_record
    relative_zxid ← ia_deserialize_long host
    data_watches ← deserialize_string_vector
    exist_watches ← deserialize_string_vector
    child_watches ← deserialize_string_vector
    ia_end_record
    return (record {
      relative_zxid = relative_zxid;
      data_watches = data_watches;
      exist_watches = exist_watches;
      child_watches = child_watches;
    })

  unfoldable pub deserialize_request_header : Run IArchive RequestHeader
  deserialize_request_header = do
    ia_start_record
    xid ← ia_deserialize_int host
    type ← ia_deserialize_int host
    ia_end_record
    return (record { xid = xid; type = type })

  unfoldable pub deserialize_auth_packet : Run IArchive AuthPacket
  deserialize_auth_packet = do
    ia_start_record
    type ← ia_deserialize_int host
    scheme ← ia_deserialize_string host malloc
    auth ← ia_deserialize_buffer host malloc
    ia_end_record
    return (record { type = type; scheme = scheme; auth = auth })

  unfoldable pub deserialize_reply_header : Run IArchive ReplyHeader
  deserialize_reply_header = do
    ia_start_record
    xid ← ia_deserialize_int host
    zxid ← ia_deserialize_long host
    err ← ia_deserialize_int host
    ia_end_record
    return (record { xid = xid; zxid = zxid; err = err })

  unfoldable pub deserialize_get_data_request : Run IArchive GetDataRequest
  deserialize_get_data_request = do
    ia_start_record
    path ← ia_deserialize_string host malloc
    watch ← ia_deserialize_bool
    ia_end_record
    return (record { path = path; watch = watch })

  unfoldable pub deserialize_set_data_request : Run IArchive SetDataRequest
  deserialize_set_data_request = do
    ia_start_record
    path ← ia_deserialize_string host malloc
    data_buffer ← ia_deserialize_buffer host malloc
    version ← ia_deserialize_int host
    ia_end_record
    return (record { path = path; data_buffer = data_buffer; version = version })

  unfoldable pub deserialize_set_data_response : Run IArchive SetDataResponse
  deserialize_set_data_response = do
    ia_start_record
    stat ← deserialize_stat
    ia_end_record
    return (record { stat = stat })

  unfoldable pub deserialize_create_request : Run IArchive CreateRequest
  deserialize_create_request = do
    ia_start_record
    path ← ia_deserialize_string host malloc
    data_buffer ← ia_deserialize_buffer host malloc
    acl ← deserialize_acl_vector
    flags ← ia_deserialize_int host
    ia_end_record
    return (record { path = path; data_buffer = data_buffer; acl = acl; flags = flags })

  unfoldable pub deserialize_delete_request : Run IArchive DeleteRequest
  deserialize_delete_request = do
    ia_start_record
    path ← ia_deserialize_string host malloc
    version ← ia_deserialize_int host
    ia_end_record
    return (record { path = path; version = version })

  unfoldable pub deserialize_get_children_request : Run IArchive GetChildrenRequest
  deserialize_get_children_request = do
    ia_start_record
    path ← ia_deserialize_string host malloc
    watch ← ia_deserialize_bool
    ia_end_record
    return (record { path = path; watch = watch })

  unfoldable pub deserialize_sync_request : Run IArchive SyncRequest
  deserialize_sync_request = do
    ia_start_record
    path ← ia_deserialize_string host malloc
    ia_end_record
    return (record { path = path })

  unfoldable pub deserialize_get_acl_request : Run IArchive GetAclRequest
  deserialize_get_acl_request = do
    ia_start_record
    path ← ia_deserialize_string host malloc
    ia_end_record
    return (record { path = path })

  unfoldable pub deserialize_set_acl_request : Run IArchive SetAclRequest
  deserialize_set_acl_request = do
    ia_start_record
    path ← ia_deserialize_string host malloc
    acl ← deserialize_acl_vector
    version ← ia_deserialize_int host
    ia_end_record
    return (record { path = path; acl = acl; version = version })

  unfoldable pub deserialize_watcher_event : Run IArchive WatcherEvent
  deserialize_watcher_event = do
    ia_start_record
    type ← ia_deserialize_int host
    state ← ia_deserialize_int host
    path ← ia_deserialize_string host malloc
    ia_end_record
    return (record { type = type; state = state; path = path })

  unfoldable pub deserialize_create_response : Run IArchive CreateResponse
  deserialize_create_response = do
    ia_start_record
    path ← ia_deserialize_string host malloc
    ia_end_record
    return (record { path = path })

  unfoldable pub deserialize_exists_request : Run IArchive ExistsRequest
  deserialize_exists_request = do
    ia_start_record
    path ← ia_deserialize_string host malloc
    watch ← ia_deserialize_bool
    ia_end_record
    return (record { path = path; watch = watch })

  unfoldable pub deserialize_get_data_response : Run IArchive GetDataResponse
  deserialize_get_data_response = do
    ia_start_record
    data_buffer ← ia_deserialize_buffer host malloc
    stat ← deserialize_stat
    ia_end_record
    return (record { data_buffer = data_buffer; stat = stat })

  unfoldable pub deserialize_get_children_response : Run IArchive GetChildrenResponse
  deserialize_get_children_response = do
    ia_start_record
    children ← deserialize_string_vector
    ia_end_record
    return (record { children = children })

  unfoldable pub deserialize_get_acl_response : Run IArchive GetAclResponse
  deserialize_get_acl_response = do
    ia_start_record
    acl ← deserialize_acl_vector
    stat ← deserialize_stat
    ia_end_record
    return (record { acl = acl; stat = stat })
