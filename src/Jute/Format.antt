-- ===== src/Jute/Format.antt =====
-- The wire format of each struct, written down on its own, and the values that it can carry.
use ruby_zookeeper.Prelude.{ℕ, ◌<◌, ◌^◌, List, [], ◌∷◌, ◌++◌, if◌then◌else◌, ◌==◌}
use ruby_zookeeper.RecordIo.{be}
use ruby_zookeeper.RecordIo.Write.{string_bytes, buffer_bytes, IsBuffer}
use ruby_zookeeper.RecordIo.Read.{IsText}
use ruby_zookeeper.Jute.Vector.{IsVector, vector_bytes}
use ruby_zookeeper.Jute.Types.{
  AclId, Acl, Stat, ConnectRequest, SetWatches, RequestHeader, AuthPacket, ReplyHeader,
  GetDataRequest, SetDataRequest, SetDataResponse, CreateRequest, DeleteRequest, GetChildrenRequest,
  SyncRequest, GetAclRequest, SetAclRequest, WatcherEvent, CreateResponse, ExistsRequest,
  GetDataResponse, GetChildrenResponse, GetAclResponse,
}

abbrev pub bool_bytes : ℕ → List ℕ
bool_bytes i = (if i == 0 then 0 else 1) ∷ []

pub record IsAclId (v : AclId) : Type 0 where
  pub scheme_ok : IsText v.scheme
  pub id_ok : IsText v.id

abbrev pub acl_id_bytes : AclId → List ℕ
acl_id_bytes v = string_bytes v.scheme ++ string_bytes v.id

pub record IsAcl (v : Acl) : Type 0 where
  pub perms_ok : v.perms < 2 ^ 32
  pub id_ok : IsAclId v.id

abbrev pub acl_bytes : Acl → List ℕ
acl_bytes v = be 4 v.perms ++ acl_id_bytes v.id

pub record IsStat (v : Stat) : Type 0 where
  pub czxid_ok : v.czxid < 2 ^ 64
  pub mzxid_ok : v.mzxid < 2 ^ 64
  pub ctime_ok : v.ctime < 2 ^ 64
  pub mtime_ok : v.mtime < 2 ^ 64
  pub version_ok : v.version < 2 ^ 32
  pub cversion_ok : v.cversion < 2 ^ 32
  pub aversion_ok : v.aversion < 2 ^ 32
  pub ephemeral_owner_ok : v.ephemeral_owner < 2 ^ 64
  pub data_length_ok : v.data_length < 2 ^ 32
  pub num_children_ok : v.num_children < 2 ^ 32
  pub pzxid_ok : v.pzxid < 2 ^ 64

abbrev pub stat_bytes : Stat → List ℕ
stat_bytes v =
    be 8 v.czxid
    ++ (be 8 v.mzxid
        ++ (be 8 v.ctime
            ++ (be 8 v.mtime
                ++ (be 4 v.version
                    ++ (be 4 v.cversion
                        ++ (be 4 v.aversion
                            ++ (be 8 v.ephemeral_owner
                                ++ (be 4 v.data_length
                                    ++ (be 4 v.num_children ++ be 8 v.pzxid)))))))))

pub record IsConnectRequest (v : ConnectRequest) : Type 0 where
  pub protocol_version_ok : v.protocol_version < 2 ^ 32
  pub last_zxid_seen_ok : v.last_zxid_seen < 2 ^ 64
  pub time_out_ok : v.time_out < 2 ^ 32
  pub session_id_ok : v.session_id < 2 ^ 64
  pub passwd_ok : IsBuffer v.passwd

abbrev pub connect_request_bytes : ConnectRequest → List ℕ
connect_request_bytes v =
    be 4 v.protocol_version
    ++ (be 8 v.last_zxid_seen ++ (be 4 v.time_out ++ (be 8 v.session_id ++ buffer_bytes v.passwd)))

pub record IsSetWatches (v : SetWatches) : Type 0 where
  pub relative_zxid_ok : v.relative_zxid < 2 ^ 64
  pub data_watches_ok : IsVector IsText v.data_watches
  pub exist_watches_ok : IsVector IsText v.exist_watches
  pub child_watches_ok : IsVector IsText v.child_watches

abbrev pub set_watches_bytes : SetWatches → List ℕ
set_watches_bytes v =
    be 8 v.relative_zxid
    ++ (vector_bytes string_bytes v.data_watches
        ++ (vector_bytes string_bytes v.exist_watches ++ vector_bytes string_bytes v.child_watches))

pub record IsRequestHeader (v : RequestHeader) : Type 0 where
  pub xid_ok : v.xid < 2 ^ 32
  pub type_ok : v.type < 2 ^ 32

abbrev pub request_header_bytes : RequestHeader → List ℕ
request_header_bytes v = be 4 v.xid ++ be 4 v.type

pub record IsAuthPacket (v : AuthPacket) : Type 0 where
  pub type_ok : v.type < 2 ^ 32
  pub scheme_ok : IsText v.scheme
  pub auth_ok : IsBuffer v.auth

abbrev pub auth_packet_bytes : AuthPacket → List ℕ
auth_packet_bytes v = be 4 v.type ++ (string_bytes v.scheme ++ buffer_bytes v.auth)

pub record IsReplyHeader (v : ReplyHeader) : Type 0 where
  pub xid_ok : v.xid < 2 ^ 32
  pub zxid_ok : v.zxid < 2 ^ 64
  pub err_ok : v.err < 2 ^ 32

abbrev pub reply_header_bytes : ReplyHeader → List ℕ
reply_header_bytes v = be 4 v.xid ++ (be 8 v.zxid ++ be 4 v.err)

pub record IsGetDataRequest (v : GetDataRequest) : Type 0 where
  pub path_ok : IsText v.path
  pub watch_ok : v.watch < 2

abbrev pub get_data_request_bytes : GetDataRequest → List ℕ
get_data_request_bytes v = string_bytes v.path ++ bool_bytes v.watch

pub record IsSetDataRequest (v : SetDataRequest) : Type 0 where
  pub path_ok : IsText v.path
  pub data_buffer_ok : IsBuffer v.data_buffer
  pub version_ok : v.version < 2 ^ 32

abbrev pub set_data_request_bytes : SetDataRequest → List ℕ
set_data_request_bytes v = string_bytes v.path ++ (buffer_bytes v.data_buffer ++ be 4 v.version)

pub record IsSetDataResponse (v : SetDataResponse) : Type 0 where
  pub stat_ok : IsStat v.stat

abbrev pub set_data_response_bytes : SetDataResponse → List ℕ
set_data_response_bytes v = stat_bytes v.stat

pub record IsCreateRequest (v : CreateRequest) : Type 0 where
  pub path_ok : IsText v.path
  pub data_buffer_ok : IsBuffer v.data_buffer
  pub acl_ok : IsVector IsAcl v.acl
  pub flags_ok : v.flags < 2 ^ 32

abbrev pub create_request_bytes : CreateRequest → List ℕ
create_request_bytes v =
    string_bytes v.path
    ++ (buffer_bytes v.data_buffer ++ (vector_bytes acl_bytes v.acl ++ be 4 v.flags))

pub record IsDeleteRequest (v : DeleteRequest) : Type 0 where
  pub path_ok : IsText v.path
  pub version_ok : v.version < 2 ^ 32

abbrev pub delete_request_bytes : DeleteRequest → List ℕ
delete_request_bytes v = string_bytes v.path ++ be 4 v.version

pub record IsGetChildrenRequest (v : GetChildrenRequest) : Type 0 where
  pub path_ok : IsText v.path
  pub watch_ok : v.watch < 2

abbrev pub get_children_request_bytes : GetChildrenRequest → List ℕ
get_children_request_bytes v = string_bytes v.path ++ bool_bytes v.watch

pub record IsSyncRequest (v : SyncRequest) : Type 0 where
  pub path_ok : IsText v.path

abbrev pub sync_request_bytes : SyncRequest → List ℕ
sync_request_bytes v = string_bytes v.path

pub record IsGetAclRequest (v : GetAclRequest) : Type 0 where
  pub path_ok : IsText v.path

abbrev pub get_acl_request_bytes : GetAclRequest → List ℕ
get_acl_request_bytes v = string_bytes v.path

pub record IsSetAclRequest (v : SetAclRequest) : Type 0 where
  pub path_ok : IsText v.path
  pub acl_ok : IsVector IsAcl v.acl
  pub version_ok : v.version < 2 ^ 32

abbrev pub set_acl_request_bytes : SetAclRequest → List ℕ
set_acl_request_bytes v = string_bytes v.path ++ (vector_bytes acl_bytes v.acl ++ be 4 v.version)

pub record IsWatcherEvent (v : WatcherEvent) : Type 0 where
  pub type_ok : v.type < 2 ^ 32
  pub state_ok : v.state < 2 ^ 32
  pub path_ok : IsText v.path

abbrev pub watcher_event_bytes : WatcherEvent → List ℕ
watcher_event_bytes v = be 4 v.type ++ (be 4 v.state ++ string_bytes v.path)

pub record IsCreateResponse (v : CreateResponse) : Type 0 where
  pub path_ok : IsText v.path

abbrev pub create_response_bytes : CreateResponse → List ℕ
create_response_bytes v = string_bytes v.path

pub record IsExistsRequest (v : ExistsRequest) : Type 0 where
  pub path_ok : IsText v.path
  pub watch_ok : v.watch < 2

abbrev pub exists_request_bytes : ExistsRequest → List ℕ
exists_request_bytes v = string_bytes v.path ++ bool_bytes v.watch

pub record IsGetDataResponse (v : GetDataResponse) : Type 0 where
  pub data_buffer_ok : IsBuffer v.data_buffer
  pub stat_ok : IsStat v.stat

abbrev pub get_data_response_bytes : GetDataResponse → List ℕ
get_data_response_bytes v = buffer_bytes v.data_buffer ++ stat_bytes v.stat

pub record IsGetChildrenResponse (v : GetChildrenResponse) : Type 0 where
  pub children_ok : IsVector IsText v.children

abbrev pub get_children_response_bytes : GetChildrenResponse → List ℕ
get_children_response_bytes v = vector_bytes string_bytes v.children

pub record IsGetAclResponse (v : GetAclResponse) : Type 0 where
  pub acl_ok : IsVector IsAcl v.acl
  pub stat_ok : IsStat v.stat

abbrev pub get_acl_response_bytes : GetAclResponse → List ℕ
get_acl_response_bytes v = vector_bytes acl_bytes v.acl ++ stat_bytes v.stat
