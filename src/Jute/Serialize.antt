-- ===== src/Jute/Serialize.antt =====
-- The `serialize_` functions of zk/src/c/generated/zookeeper.jute.c.
use ruby_zookeeper.Prelude.{ℕ, Bool, some, Run, Void, ◌>>◌}
use ruby_zookeeper.RecordIo.{Host}
use ruby_zookeeper.RecordIo.Archive.{
  OArchive, oa_start_record, oa_end_record, oa_serialize_int, oa_serialize_long, oa_serialize_bool,
  oa_serialize_string, oa_serialize_buffer,
}
use ruby_zookeeper.Jute.Vector.{Vector, serialize_vector}
use ruby_zookeeper.Jute.Types.{
  CString, AclId, Acl, Stat, ConnectRequest, SetWatches, RequestHeader, AuthPacket, ReplyHeader,
  GetDataRequest, SetDataRequest, SetDataResponse, CreateRequest, DeleteRequest, GetChildrenRequest,
  SyncRequest, GetAclRequest, SetAclRequest, WatcherEvent, CreateResponse, ExistsRequest,
  GetDataResponse, GetChildrenResponse, GetAclResponse,
}

module _ (host : Host) (realloc : ℕ → Bool) where
  unfoldable pub serialize_acl_id : AclId → Run OArchive Void
  serialize_acl_id v = do
    oa_start_record
    oa_serialize_string host realloc v.scheme
    oa_serialize_string host realloc v.id
    oa_end_record

  unfoldable pub serialize_acl : Acl → Run OArchive Void
  serialize_acl v = do
    oa_start_record
    oa_serialize_int host realloc v.perms
    serialize_acl_id v.id
    oa_end_record

  unfoldable pub serialize_string_vector : Vector CString → Run OArchive Void
  serialize_string_vector = serialize_vector host realloc (oa_serialize_string host realloc)

  unfoldable pub serialize_acl_vector : Vector Acl → Run OArchive Void
  serialize_acl_vector = serialize_vector host realloc serialize_acl

  unfoldable pub serialize_stat : Stat → Run OArchive Void
  serialize_stat v = do
    oa_start_record
    oa_serialize_long host realloc v.czxid
    oa_serialize_long host realloc v.mzxid
    oa_serialize_long host realloc v.ctime
    oa_serialize_long host realloc v.mtime
    oa_serialize_int host realloc v.version
    oa_serialize_int host realloc v.cversion
    oa_serialize_int host realloc v.aversion
    oa_serialize_long host realloc v.ephemeral_owner
    oa_serialize_int host realloc v.data_length
    oa_serialize_int host realloc v.num_children
    oa_serialize_long host realloc v.pzxid
    oa_end_record

  unfoldable pub serialize_connect_request : ConnectRequest → Run OArchive Void
  serialize_connect_request v = do
    oa_start_record
    oa_serialize_int host realloc v.protocol_version
    oa_serialize_long host realloc v.last_zxid_seen
    oa_serialize_int host realloc v.time_out
    oa_serialize_long host realloc v.session_id
    oa_serialize_buffer host realloc (some v.passwd)
    oa_end_record

  unfoldable pub serialize_set_watches : SetWatches → Run OArchive Void
  serialize_set_watches v = do
    oa_start_record
    oa_serialize_long host realloc v.relative_zxid
    serialize_string_vector v.data_watches
    serialize_string_vector v.exist_watches
    serialize_string_vector v.child_watches
    oa_end_record

  unfoldable pub serialize_request_header : RequestHeader → Run OArchive Void
  serialize_request_header v = do
    oa_start_record
    oa_serialize_int host realloc v.xid
    oa_serialize_int host realloc v.type
    oa_end_record

  unfoldable pub serialize_auth_packet : AuthPacket → Run OArchive Void
  serialize_auth_packet v = do
    oa_start_record
    oa_serialize_int host realloc v.type
    oa_serialize_string host realloc v.scheme
    oa_serialize_buffer host realloc (some v.auth)
    oa_end_record

  unfoldable pub serialize_reply_header : ReplyHeader → Run OArchive Void
  serialize_reply_header v = do
    oa_start_record
    oa_serialize_int host realloc v.xid
    oa_serialize_long host realloc v.zxid
    oa_serialize_int host realloc v.err
    oa_end_record

  unfoldable pub serialize_get_data_request : GetDataRequest → Run OArchive Void
  serialize_get_data_request v = do
    oa_start_record
    oa_serialize_string host realloc v.path
    oa_serialize_bool host realloc v.watch
    oa_end_record

  unfoldable pub serialize_set_data_request : SetDataRequest → Run OArchive Void
  serialize_set_data_request v = do
    oa_start_record
    oa_serialize_string host realloc v.path
    oa_serialize_buffer host realloc (some v.data_buffer)
    oa_serialize_int host realloc v.version
    oa_end_record

  unfoldable pub serialize_set_data_response : SetDataResponse → Run OArchive Void
  serialize_set_data_response v = do oa_start_record; serialize_stat v.stat; oa_end_record

  unfoldable pub serialize_create_request : CreateRequest → Run OArchive Void
  serialize_create_request v = do
    oa_start_record
    oa_serialize_string host realloc v.path
    oa_serialize_buffer host realloc (some v.data_buffer)
    serialize_acl_vector v.acl
    oa_serialize_int host realloc v.flags
    oa_end_record

  unfoldable pub serialize_delete_request : DeleteRequest → Run OArchive Void
  serialize_delete_request v = do
    oa_start_record
    oa_serialize_string host realloc v.path
    oa_serialize_int host realloc v.version
    oa_end_record

  unfoldable pub serialize_get_children_request : GetChildrenRequest → Run OArchive Void
  serialize_get_children_request v = do
    oa_start_record
    oa_serialize_string host realloc v.path
    oa_serialize_bool host realloc v.watch
    oa_end_record

  unfoldable pub serialize_sync_request : SyncRequest → Run OArchive Void
  serialize_sync_request v = do
    oa_start_record
    oa_serialize_string host realloc v.path
    oa_end_record

  unfoldable pub serialize_get_acl_request : GetAclRequest → Run OArchive Void
  serialize_get_acl_request v = do
    oa_start_record
    oa_serialize_string host realloc v.path
    oa_end_record

  unfoldable pub serialize_set_acl_request : SetAclRequest → Run OArchive Void
  serialize_set_acl_request v = do
    oa_start_record
    oa_serialize_string host realloc v.path
    serialize_acl_vector v.acl
    oa_serialize_int host realloc v.version
    oa_end_record

  unfoldable pub serialize_watcher_event : WatcherEvent → Run OArchive Void
  serialize_watcher_event v = do
    oa_start_record
    oa_serialize_int host realloc v.type
    oa_serialize_int host realloc v.state
    oa_serialize_string host realloc v.path
    oa_end_record

  unfoldable pub serialize_create_response : CreateResponse → Run OArchive Void
  serialize_create_response v = do
    oa_start_record
    oa_serialize_string host realloc v.path
    oa_end_record

  unfoldable pub serialize_exists_request : ExistsRequest → Run OArchive Void
  serialize_exists_request v = do
    oa_start_record
    oa_serialize_string host realloc v.path
    oa_serialize_bool host realloc v.watch
    oa_end_record

  unfoldable pub serialize_get_data_response : GetDataResponse → Run OArchive Void
  serialize_get_data_response v = do
    oa_start_record
    oa_serialize_buffer host realloc (some v.data_buffer)
    serialize_stat v.stat
    oa_end_record

  unfoldable pub serialize_get_children_response : GetChildrenResponse → Run OArchive Void
  serialize_get_children_response v = do
    oa_start_record
    serialize_string_vector v.children
    oa_end_record

  unfoldable pub serialize_get_acl_response : GetAclResponse → Run OArchive Void
  serialize_get_acl_response v = do
    oa_start_record
    serialize_acl_vector v.acl
    serialize_stat v.stat
    oa_end_record
