-- ===== src/Jute/Writers.antt =====
-- Each `serialize_` function appends the wire format of its struct.
use ruby_zookeeper.Prelude.{ℕ, Bool, true, ◌≡◌}
use ruby_zookeeper.RecordIo.{Host}
use ruby_zookeeper.RecordIo.Archive.{oa_serialize_string}
use ruby_zookeeper.RecordIo.Write.{
  Writes, Writes-start, Writes-then, Writes-end, write_int, write_long, write_bool, write_string,
  write_buffer, string_bytes,
}
use ruby_zookeeper.RecordIo.Read.{IsText, IsText-IsString}
use ruby_zookeeper.Jute.Vector.{Vector, IsVector, vector_bytes, write_vector}
use ruby_zookeeper.Jute.Types.{
  CString, AclId, Acl, Stat, ConnectRequest, SetWatches, RequestHeader, AuthPacket, ReplyHeader,
  GetDataRequest, SetDataRequest, SetDataResponse, CreateRequest, DeleteRequest, GetChildrenRequest,
  SyncRequest, GetAclRequest, SetAclRequest, WatcherEvent, CreateResponse, ExistsRequest,
  GetDataResponse, GetChildrenResponse, GetAclResponse,
}
use ruby_zookeeper.Jute.Format.{
  IsAclId, acl_id_bytes, IsAcl, acl_bytes, IsStat, stat_bytes, IsConnectRequest,
  connect_request_bytes, IsSetWatches, set_watches_bytes, IsRequestHeader, request_header_bytes,
  IsAuthPacket, auth_packet_bytes, IsReplyHeader, reply_header_bytes, IsGetDataRequest,
  get_data_request_bytes, IsSetDataRequest, set_data_request_bytes, IsSetDataResponse,
  set_data_response_bytes, IsCreateRequest, create_request_bytes, IsDeleteRequest,
  delete_request_bytes, IsGetChildrenRequest, get_children_request_bytes, IsSyncRequest,
  sync_request_bytes, IsGetAclRequest, get_acl_request_bytes, IsSetAclRequest,
  set_acl_request_bytes, IsWatcherEvent, watcher_event_bytes, IsCreateResponse,
  create_response_bytes, IsExistsRequest, exists_request_bytes, IsGetDataResponse,
  get_data_response_bytes, IsGetChildrenResponse, get_children_response_bytes, IsGetAclResponse,
  get_acl_response_bytes,
}
use ruby_zookeeper.Jute.Serialize.{
  serialize_string_vector, serialize_acl_vector, serialize_acl_id, serialize_acl, serialize_stat,
  serialize_connect_request, serialize_set_watches, serialize_request_header, serialize_auth_packet,
  serialize_reply_header, serialize_get_data_request, serialize_set_data_request,
  serialize_set_data_response, serialize_create_request, serialize_delete_request,
  serialize_get_children_request, serialize_sync_request, serialize_get_acl_request,
  serialize_set_acl_request, serialize_watcher_event, serialize_create_response,
  serialize_exists_request, serialize_get_data_response, serialize_get_children_response,
  serialize_get_acl_response,
}

module _ (realloc : ℕ → Bool) (granted : (n : ℕ) → realloc n ≡ true) (host : Host) where
  pub write_text :
      (s : CString) → IsText s → Writes (oa_serialize_string host realloc s) (string_bytes s)
  write_text s h = write_string realloc granted host s (IsText-IsString s h)

  pub write_acl_id :
      (v : AclId) → IsAclId v → Writes (serialize_acl_id host realloc v) (acl_id_bytes v)
  unfolding serialize_acl_id
  write_acl_id v h =
      Writes-start
        (Writes-then (write_text v.scheme h.scheme_ok) (Writes-end (write_text v.id h.id_ok)))

  pub write_acl : (v : Acl) → IsAcl v → Writes (serialize_acl host realloc v) (acl_bytes v)
  unfolding serialize_acl
  write_acl v h = Writes-start (
      Writes-then (write_int realloc granted host v.perms) (Writes-end (write_acl_id v.id h.id_ok)))

  pub write_string_vector :
      (v : Vector CString)
      → IsVector IsText v
      → Writes (serialize_string_vector host realloc v) (vector_bytes string_bytes v)
  unfolding serialize_string_vector
  write_string_vector =
      write_vector realloc granted host string_bytes IsText (oa_serialize_string host realloc)
        write_text

  pub write_acl_vector :
      (v : Vector Acl)
      → IsVector IsAcl v
      → Writes (serialize_acl_vector host realloc v) (vector_bytes acl_bytes v)
  unfolding serialize_acl_vector
  write_acl_vector =
      write_vector realloc granted host acl_bytes IsAcl (serialize_acl host realloc) write_acl

  pub write_stat : (v : Stat) → IsStat v → Writes (serialize_stat host realloc v) (stat_bytes v)
  unfolding serialize_stat
  write_stat v h = Writes-start (
      Writes-then (write_long realloc granted host v.czxid h.czxid_ok) (
        Writes-then (write_long realloc granted host v.mzxid h.mzxid_ok) (
          Writes-then (write_long realloc granted host v.ctime h.ctime_ok) (
            Writes-then (write_long realloc granted host v.mtime h.mtime_ok) (
              Writes-then (write_int realloc granted host v.version) (
                Writes-then (write_int realloc granted host v.cversion) (
                  Writes-then (write_int realloc granted host v.aversion) (
                    Writes-then
                      (write_long realloc granted host v.ephemeral_owner h.ephemeral_owner_ok)
                      (Writes-then (write_int realloc granted host v.data_length) (
                        Writes-then (write_int realloc granted host v.num_children) (
                          Writes-end (write_long realloc granted host v.pzxid h.pzxid_ok))))))))))))

  pub write_connect_request :
      (v : ConnectRequest)
      → IsConnectRequest v
      → Writes (serialize_connect_request host realloc v) (connect_request_bytes v)
  unfolding serialize_connect_request
  write_connect_request v h = Writes-start (
      Writes-then (write_int realloc granted host v.protocol_version) (
        Writes-then (write_long realloc granted host v.last_zxid_seen h.last_zxid_seen_ok) (
          Writes-then (write_int realloc granted host v.time_out) (
            Writes-then (write_long realloc granted host v.session_id h.session_id_ok)
              (Writes-end (write_buffer realloc granted host v.passwd h.passwd_ok))))))

  pub write_set_watches :
      (v : SetWatches)
      → IsSetWatches v
      → Writes (serialize_set_watches host realloc v) (set_watches_bytes v)
  unfolding serialize_set_watches
  write_set_watches v h = Writes-start (
      Writes-then (write_long realloc granted host v.relative_zxid h.relative_zxid_ok) (
        Writes-then (write_string_vector v.data_watches h.data_watches_ok) (
          Writes-then (write_string_vector v.exist_watches h.exist_watches_ok)
            (Writes-end (write_string_vector v.child_watches h.child_watches_ok)))))

  pub write_request_header :
      (v : RequestHeader)
      → IsRequestHeader v
      → Writes (serialize_request_header host realloc v) (request_header_bytes v)
  unfolding serialize_request_header
  write_request_header v h = Writes-start (
      Writes-then (write_int realloc granted host v.xid)
        (Writes-end (write_int realloc granted host v.type)))

  pub write_auth_packet :
      (v : AuthPacket)
      → IsAuthPacket v
      → Writes (serialize_auth_packet host realloc v) (auth_packet_bytes v)
  unfolding serialize_auth_packet
  write_auth_packet v h = Writes-start (
      Writes-then (write_int realloc granted host v.type) (
        Writes-then (write_text v.scheme h.scheme_ok)
          (Writes-end (write_buffer realloc granted host v.auth h.auth_ok))))

  pub write_reply_header :
      (v : ReplyHeader)
      → IsReplyHeader v
      → Writes (serialize_reply_header host realloc v) (reply_header_bytes v)
  unfolding serialize_reply_header
  write_reply_header v h = Writes-start (
      Writes-then (write_int realloc granted host v.xid) (
        Writes-then (write_long realloc granted host v.zxid h.zxid_ok)
          (Writes-end (write_int realloc granted host v.err))))

  pub write_get_data_request :
      (v : GetDataRequest)
      → IsGetDataRequest v
      → Writes (serialize_get_data_request host realloc v) (get_data_request_bytes v)
  unfolding serialize_get_data_request
  write_get_data_request v h = Writes-start (
      Writes-then (write_text v.path h.path_ok)
        (Writes-end (write_bool realloc granted host v.watch)))

  pub write_set_data_request :
      (v : SetDataRequest)
      → IsSetDataRequest v
      → Writes (serialize_set_data_request host realloc v) (set_data_request_bytes v)
  unfolding serialize_set_data_request
  write_set_data_request v h = Writes-start (
      Writes-then (write_text v.path h.path_ok) (
        Writes-then (write_buffer realloc granted host v.data_buffer h.data_buffer_ok)
          (Writes-end (write_int realloc granted host v.version))))

  pub write_set_data_response :
      (v : SetDataResponse)
      → IsSetDataResponse v
      → Writes (serialize_set_data_response host realloc v) (set_data_response_bytes v)
  unfolding serialize_set_data_response
  write_set_data_response v h = Writes-start (Writes-end (write_stat v.stat h.stat_ok))

  pub write_create_request :
      (v : CreateRequest)
      → IsCreateRequest v
      → Writes (serialize_create_request host realloc v) (create_request_bytes v)
  unfolding serialize_create_request
  write_create_request v h = Writes-start (
      Writes-then (write_text v.path h.path_ok) (
        Writes-then (write_buffer realloc granted host v.data_buffer h.data_buffer_ok) (
          Writes-then (write_acl_vector v.acl h.acl_ok)
            (Writes-end (write_int realloc granted host v.flags)))))

  pub write_delete_request :
      (v : DeleteRequest)
      → IsDeleteRequest v
      → Writes (serialize_delete_request host realloc v) (delete_request_bytes v)
  unfolding serialize_delete_request
  write_delete_request v h = Writes-start (
      Writes-then (write_text v.path h.path_ok)
        (Writes-end (write_int realloc granted host v.version)))

  pub write_get_children_request :
      (v : GetChildrenRequest)
      → IsGetChildrenRequest v
      → Writes (serialize_get_children_request host realloc v) (get_children_request_bytes v)
  unfolding serialize_get_children_request
  write_get_children_request v h = Writes-start (
      Writes-then (write_text v.path h.path_ok)
        (Writes-end (write_bool realloc granted host v.watch)))

  pub write_sync_request :
      (v : SyncRequest)
      → IsSyncRequest v
      → Writes (serialize_sync_request host realloc v) (sync_request_bytes v)
  unfolding serialize_sync_request
  write_sync_request v h = Writes-start (Writes-end (write_text v.path h.path_ok))

  pub write_get_acl_request :
      (v : GetAclRequest)
      → IsGetAclRequest v
      → Writes (serialize_get_acl_request host realloc v) (get_acl_request_bytes v)
  unfolding serialize_get_acl_request
  write_get_acl_request v h = Writes-start (Writes-end (write_text v.path h.path_ok))

  pub write_set_acl_request :
      (v : SetAclRequest)
      → IsSetAclRequest v
      → Writes (serialize_set_acl_request host realloc v) (set_acl_request_bytes v)
  unfolding serialize_set_acl_request
  write_set_acl_request v h = Writes-start (
      Writes-then (write_text v.path h.path_ok) (
        Writes-then (write_acl_vector v.acl h.acl_ok)
          (Writes-end (write_int realloc granted host v.version))))

  pub write_watcher_event :
      (v : WatcherEvent)
      → IsWatcherEvent v
      → Writes (serialize_watcher_event host realloc v) (watcher_event_bytes v)
  unfolding serialize_watcher_event
  write_watcher_event v h = Writes-start (
      Writes-then (write_int realloc granted host v.type) (
        Writes-then (write_int realloc granted host v.state)
          (Writes-end (write_text v.path h.path_ok))))

  pub write_create_response :
      (v : CreateResponse)
      → IsCreateResponse v
      → Writes (serialize_create_response host realloc v) (create_response_bytes v)
  unfolding serialize_create_response
  write_create_response v h = Writes-start (Writes-end (write_text v.path h.path_ok))

  pub write_exists_request :
      (v : ExistsRequest)
      → IsExistsRequest v
      → Writes (serialize_exists_request host realloc v) (exists_request_bytes v)
  unfolding serialize_exists_request
  write_exists_request v h = Writes-start (
      Writes-then (write_text v.path h.path_ok)
        (Writes-end (write_bool realloc granted host v.watch)))

  pub write_get_data_response :
      (v : GetDataResponse)
      → IsGetDataResponse v
      → Writes (serialize_get_data_response host realloc v) (get_data_response_bytes v)
  unfolding serialize_get_data_response
  write_get_data_response v h = Writes-start (
      Writes-then (write_buffer realloc granted host v.data_buffer h.data_buffer_ok)
        (Writes-end (write_stat v.stat h.stat_ok)))

  pub write_get_children_response :
      (v : GetChildrenResponse)
      → IsGetChildrenResponse v
      → Writes (serialize_get_children_response host realloc v) (get_children_response_bytes v)
  unfolding serialize_get_children_response
  write_get_children_response v h =
      Writes-start (Writes-end (write_string_vector v.children h.children_ok))

  pub write_get_acl_response :
      (v : GetAclResponse)
      → IsGetAclResponse v
      → Writes (serialize_get_acl_response host realloc v) (get_acl_response_bytes v)
  unfolding serialize_get_acl_response
  write_get_acl_response v h =
      Writes-start
        (Writes-then (write_acl_vector v.acl h.acl_ok) (Writes-end (write_stat v.stat h.stat_ok)))
