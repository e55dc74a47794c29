-- ===== src/Jute/Readers.antt =====
-- Each `deserialize_` function reads back what has the wire format of its struct.
use ruby_zookeeper.Prelude.{ℕ, Bool, true, ◌≡◌, none}
use ruby_zookeeper.RecordIo.{Host}
use ruby_zookeeper.RecordIo.Archive.{Buffer, ia_deserialize_string}
use ruby_zookeeper.RecordIo.Write.{string_bytes}
use ruby_zookeeper.RecordIo.Read.{
  IsText, Reads, Reads-start, Reads-bind, Reads-end, read_int, read_long, read_bool, read_string,
  read_buffer,
}
use ruby_zookeeper.Jute.Vector.{Vector, IsVector, vector_bytes, read_vector}
use ruby_zookeeper.Jute.Types.{
  CString, AclId, Acl, Stat, ConnectRequest, SetWatches, RequestHeader, AuthPacket, ReplyHeader,
  GetDataRequest, SetDataRequest, SetDataResponse, CreateRequest, DeleteRequest, GetChildrenRequest,
  SyncRequest, GetAclRequest, SetAclRequest, WatcherEvent, CreateResponse, ExistsRequest,
  GetDataResponse, GetChildrenResponse, GetAclResponse,
}
use ruby_zookeeper.Jute.Format.{
  IsAclId, acl_id_bytes, IsAcl, acl_bytes, IsStat, stat_bytes, IsConnectRequest,
  connect_request_bytes, IsSetWatches, set_watches_bytes, IsRequestHeader, request_header_bytes,
  IsAuthPacket, auth_packet_bytes, IsReplyHeader, reply_header_bytes, IsGetDataRequest,
  get_data_request_bytes, IsSetDataRequest, set_data_request_bytes, IsSetDataResponse,
  set_data_response_bytes, IsCreateRequest, create_request_bytes, IsDeleteRequest,
  delete_request_bytes, IsGetChildrenRequest, get_children_request_bytes, IsSyncRequest,
  sync_request_bytes, IsGetAclRequest, get_acl_request_bytes, IsSetAclRequest,
  set_acl_request_bytes, IsWatcherEvent, watcher_event_bytes, IsCreateResponse,
  create_response_bytes, IsExistsRequest, exists_request_bytes, IsGetDataResponse,
  get_data_response_bytes, IsGetChildrenResponse, get_children_response_bytes, IsGetAclResponse,
  get_acl_response_bytes,
}
use ruby_zookeeper.Jute.Deserialize.{
  blank_acl, partial_acl, deserialize_string_vector, deserialize_acl_vector, deserialize_acl_id,
  deserialize_acl, deserialize_stat, deserialize_connect_request, deserialize_set_watches,
  deserialize_request_header, deserialize_auth_packet, deserialize_reply_header,
  deserialize_get_data_request, deserialize_set_data_request, deserialize_set_data_response,
  deserialize_create_request, deserialize_delete_request, deserialize_get_children_request,
  deserialize_sync_request, deserialize_get_acl_request, deserialize_set_acl_request,
  deserialize_watcher_event, deserialize_create_response, deserialize_exists_request,
  deserialize_get_data_response, deserialize_get_children_response, deserialize_get_acl_response,
}

module _ (malloc : ℕ → ℕ → Bool) (granted : (off n : ℕ) → malloc off n ≡ true) (host : Host) where
  pub read_acl_id :
      (v : AclId) → IsAclId v → Reads (deserialize_acl_id host malloc) (acl_id_bytes v) v
  unfolding deserialize_acl_id
  read_acl_id v h =
      let whole : CString → AclId = λ last. record v { id = last } in
      Reads-start (
        Reads-bind _ (read_string malloc granted host v.scheme h.scheme_ok)
          (Reads-end whole (read_string malloc granted host v.id h.id_ok)))

  pub read_acl : (v : Acl) → IsAcl v → Reads (deserialize_acl host malloc) (acl_bytes v) v
  unfolding deserialize_acl
  read_acl v h =
      let whole : AclId → Acl = λ last. record v { id = last } in
      Reads-start (
        Reads-bind _ (read_int malloc granted host v.perms h.perms_ok)
          (Reads-end whole (read_acl_id v.id h.id_ok)))

  pub read_string_vector :
      (v : Vector CString)
      → IsVector IsText v
      → Reads (deserialize_string_vector host malloc) (vector_bytes string_bytes v) v
  unfolding deserialize_string_vector
  read_string_vector =
      read_vector malloc granted host 8 string_bytes IsText (ia_deserialize_string host malloc)
        (λ _. none) none (read_string malloc granted host)

  pub read_acl_vector :
      (v : Vector Acl)
      → IsVector IsAcl v
      → Reads (deserialize_acl_vector host malloc) (vector_bytes acl_bytes v) v
  unfolding deserialize_acl_vector
  read_acl_vector =
      read_vector malloc granted host 24 acl_bytes IsAcl (deserialize_acl host malloc)
        (partial_acl host malloc) blank_acl read_acl

  pub read_stat : (v : Stat) → IsStat v → Reads (deserialize_stat host malloc) (stat_bytes v) v
  unfolding deserialize_stat
  read_stat v h =
      let whole : ℕ → Stat = λ last. record v { pzxid = last } in
      Reads-start (
        Reads-bind _ (read_long malloc granted host v.czxid h.czxid_ok) (
          Reads-bind _ (read_long malloc granted host v.mzxid h.mzxid_ok) (
            Reads-bind _ (read_long malloc granted host v.ctime h.ctime_ok) (
              Reads-bind _ (read_long malloc granted host v.mtime h.mtime_ok) (
                Reads-bind _ (read_int malloc granted host v.version h.version_ok) (
                  Reads-bind _ (read_int malloc granted host v.cversion h.cversion_ok) (
                    Reads-bind _ (read_int malloc granted host v.aversion h.aversion_ok) (
                      Reads-bind _
                        (read_long malloc granted host v.ephemeral_owner h.ephemeral_owner_ok)
                        (Reads-bind _ (read_int malloc granted host v.data_length h.data_length_ok)
                          (Reads-bind _
                            (read_int malloc granted host v.num_children h.num_children_ok)
                            (Reads-end whole
                              (read_long malloc granted host v.pzxid h.pzxid_ok))))))))))))

  pub read_connect_request :
      (v : ConnectRequest)
      → IsConnectRequest v
      → Reads (deserialize_connect_request host malloc) (connect_request_bytes v) v
  unfolding deserialize_connect_request
  read_connect_request v h =
      let whole : Buffer → ConnectRequest = λ last. record v { passwd = last } in
      Reads-start (
        Reads-bind _ (read_int malloc granted host v.protocol_version h.protocol_version_ok) (
          Reads-bind _ (read_long malloc granted host v.last_zxid_seen h.last_zxid_seen_ok) (
            Reads-bind _ (read_int malloc granted host v.time_out h.time_out_ok) (
              Reads-bind _ (read_long malloc granted host v.session_id h.session_id_ok)
                (Reads-end whole (read_buffer malloc granted host v.passwd h.passwd_ok))))))

  pub read_set_watches :
      (v : SetWatches)
      → IsSetWatches v
      → Reads (deserialize_set_watches host malloc) (set_watches_bytes v) v
  unfolding deserialize_set_watches
  read_set_watches v h =
      let whole : Vector CString → SetWatches = λ last. record v { child_watches = last } in
      Reads-start (
        Reads-bind _ (read_long malloc granted host v.relative_zxid h.relative_zxid_ok) (
          Reads-bind _ (read_string_vector v.data_watches h.data_watches_ok) (
            Reads-bind _ (read_string_vector v.exist_watches h.exist_watches_ok)
              (Reads-end whole (read_string_vector v.child_watches h.child_watches_ok)))))

  pub read_request_header :
      (v : RequestHeader)
      → IsRequestHeader v
      → Reads (deserialize_request_header host malloc) (request_header_bytes v) v
  unfolding deserialize_request_header
  read_request_header v h =
      let whole : ℕ → RequestHeader = λ last. record v { type = last } in
      Reads-start (
        Reads-bind _ (read_int malloc granted host v.xid h.xid_ok)
          (Reads-end whole (read_int malloc granted host v.type h.type_ok)))

  pub read_auth_packet :
      (v : AuthPacket)
      → IsAuthPacket v
      → Reads (deserialize_auth_packet host malloc) (auth_packet_bytes v) v
  unfolding deserialize_auth_packet
  read_auth_packet v h =
      let whole : Buffer → AuthPacket = λ last. record v { auth = last } in
      Reads-start (
        Reads-bind _ (read_int malloc granted host v.type h.type_ok) (
          Reads-bind _ (read_string malloc granted host v.scheme h.scheme_ok)
            (Reads-end whole (read_buffer malloc granted host v.auth h.auth_ok))))

  pub read_reply_header :
      (v : ReplyHeader)
      → IsReplyHeader v
      → Reads (deserialize_reply_header host malloc) (reply_header_bytes v) v
  unfolding deserialize_reply_header
  read_reply_header v h =
      let whole : ℕ → ReplyHeader = λ last. record v { err = last } in
      Reads-start (
        Reads-bind _ (read_int malloc granted host v.xid h.xid_ok) (
          Reads-bind _ (read_long malloc granted host v.zxid h.zxid_ok)
            (Reads-end whole (read_int malloc granted host v.err h.err_ok))))

  pub read_get_data_request :
      (v : GetDataRequest)
      → IsGetDataRequest v
      → Reads (deserialize_get_data_request host malloc) (get_data_request_bytes v) v
  unfolding deserialize_get_data_request
  read_get_data_request v h =
      let whole : ℕ → GetDataRequest = λ last. record v { watch = last } in
      Reads-start (
        Reads-bind _ (read_string malloc granted host v.path h.path_ok)
          (Reads-end whole (read_bool v.watch h.watch_ok)))

  pub read_set_data_request :
      (v : SetDataRequest)
      → IsSetDataRequest v
      → Reads (deserialize_set_data_request host malloc) (set_data_request_bytes v) v
  unfolding deserialize_set_data_request
  read_set_data_request v h =
      let whole : ℕ → SetDataRequest = λ last. record v { version = last } in
      Reads-start (
        Reads-bind _ (read_string malloc granted host v.path h.path_ok) (
          Reads-bind _ (read_buffer malloc granted host v.data_buffer h.data_buffer_ok)
            (Reads-end whole (read_int malloc granted host v.version h.version_ok))))

  pub read_set_data_response :
      (v : SetDataResponse)
      → IsSetDataResponse v
      → Reads (deserialize_set_data_response host malloc) (set_data_response_bytes v) v
  unfolding deserialize_set_data_response
  read_set_data_response v h =
      let whole : Stat → SetDataResponse = λ last. record { stat = last } in
      Reads-start (Reads-end whole (read_stat v.stat h.stat_ok))

  pub read_create_request :
      (v : CreateRequest)
      → IsCreateRequest v
      → Reads (deserialize_create_request host malloc) (create_request_bytes v) v
  unfolding deserialize_create_request
  read_create_request v h =
      let whole : ℕ → CreateRequest = λ last. record v { flags = last } in
      Reads-start (
        Reads-bind _ (read_string malloc granted host v.path h.path_ok) (
          Reads-bind _ (read_buffer malloc granted host v.data_buffer h.data_buffer_ok) (
            Reads-bind _ (read_acl_vector v.acl h.acl_ok)
              (Reads-end whole (read_int malloc granted host v.flags h.flags_ok)))))

  pub read_delete_request :
      (v : DeleteRequest)
      → IsDeleteRequest v
      → Reads (deserialize_delete_request host malloc) (delete_request_bytes v) v
  unfolding deserialize_delete_request
  read_delete_request v h =
      let whole : ℕ → DeleteRequest = λ last. record v { version = last } in
      Reads-start (
        Reads-bind _ (read_string malloc granted host v.path h.path_ok)
          (Reads-end whole (read_int malloc granted host v.version h.version_ok)))

  pub read_get_children_request :
      (v : GetChildrenRequest)
      → IsGetChildrenRequest v
      → Reads (deserialize_get_children_request host malloc) (get_children_request_bytes v) v
  unfolding deserialize_get_children_request
  read_get_children_request v h =
      let whole : ℕ → GetChildrenRequest = λ last. record v { watch = last } in
      Reads-start (
        Reads-bind _ (read_string malloc granted host v.path h.path_ok)
          (Reads-end whole (read_bool v.watch h.watch_ok)))

  pub read_sync_request :
      (v : SyncRequest)
      → IsSyncRequest v
      → Reads (deserialize_sync_request host malloc) (sync_request_bytes v) v
  unfolding deserialize_sync_request
  read_sync_request v h =
      let whole : CString → SyncRequest = λ last. record { path = last } in
      Reads-start (Reads-end whole (read_string malloc granted host v.path h.path_ok))

  pub read_get_acl_request :
      (v : GetAclRequest)
      → IsGetAclRequest v
      → Reads (deserialize_get_acl_request host malloc) (get_acl_request_bytes v) v
  unfolding deserialize_get_acl_request
  read_get_acl_request v h =
      let whole : CString → GetAclRequest = λ last. record { path = last } in
      Reads-start (Reads-end whole (read_string malloc granted host v.path h.path_ok))

  pub read_set_acl_request :
      (v : SetAclRequest)
      → IsSetAclRequest v
      → Reads (deserialize_set_acl_request host malloc) (set_acl_request_bytes v) v
  unfolding deserialize_set_acl_request
  read_set_acl_request v h =
      let whole : ℕ → SetAclRequest = λ last. record v { version = last } in
      Reads-start (
        Reads-bind _ (read_string malloc granted host v.path h.path_ok) (
          Reads-bind _ (read_acl_vector v.acl h.acl_ok)
            (Reads-end whole (read_int malloc granted host v.version h.version_ok))))

  pub read_watcher_event :
      (v : WatcherEvent)
      → IsWatcherEvent v
      → Reads (deserialize_watcher_event host malloc) (watcher_event_bytes v) v
  unfolding deserialize_watcher_event
  read_watcher_event v h =
      let whole : CString → WatcherEvent = λ last. record v { path = last } in
      Reads-start (
        Reads-bind _ (read_int malloc granted host v.type h.type_ok) (
          Reads-bind _ (read_int malloc granted host v.state h.state_ok)
            (Reads-end whole (read_string malloc granted host v.path h.path_ok))))

  pub read_create_response :
      (v : CreateResponse)
      → IsCreateResponse v
      → Reads (deserialize_create_response host malloc) (create_response_bytes v) v
  unfolding deserialize_create_response
  read_create_response v h =
      let whole : CString → CreateResponse = λ last. record { path = last } in
      Reads-start (Reads-end whole (read_string malloc granted host v.path h.path_ok))

  pub read_exists_request :
      (v : ExistsRequest)
      → IsExistsRequest v
      → Reads (deserialize_exists_request host malloc) (exists_request_bytes v) v
  unfolding deserialize_exists_request
  read_exists_request v h =
      let whole : ℕ → ExistsRequest = λ last. record v { watch = last } in
      Reads-start (
        Reads-bind _ (read_string malloc granted host v.path h.path_ok)
          (Reads-end whole (read_bool v.watch h.watch_ok)))

  pub read_get_data_response :
      (v : GetDataResponse)
      → IsGetDataResponse v
      → Reads (deserialize_get_data_response host malloc) (get_data_response_bytes v) v
  unfolding deserialize_get_data_response
  read_get_data_response v h =
      let whole : Stat → GetDataResponse = λ last. record v { stat = last } in
      Reads-start (
        Reads-bind _ (read_buffer malloc granted host v.data_buffer h.data_buffer_ok)
          (Reads-end whole (read_stat v.stat h.stat_ok)))

  pub read_get_children_response :
      (v : GetChildrenResponse)
      → IsGetChildrenResponse v
      → Reads (deserialize_get_children_response host malloc) (get_children_response_bytes v) v
  unfolding deserialize_get_children_response
  read_get_children_response v h =
      let whole : Vector CString → GetChildrenResponse = λ last. record { children = last } in
      Reads-start (Reads-end whole (read_string_vector v.children h.children_ok))

  pub read_get_acl_response :
      (v : GetAclResponse)
      → IsGetAclResponse v
      → Reads (deserialize_get_acl_response host malloc) (get_acl_response_bytes v) v
  unfolding deserialize_get_acl_response
  read_get_acl_response v h =
      let whole : Stat → GetAclResponse = λ last. record v { stat = last } in
      Reads-start (
        Reads-bind _ (read_acl_vector v.acl h.acl_ok)
          (Reads-end whole (read_stat v.stat h.stat_ok)))
