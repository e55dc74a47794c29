-- ===== src/Jute/Types.antt =====
-- The structs of zk/src/c/generated/zookeeper.jute.h. An int or a long is its bit pattern; `data` is
-- spelled `data_buffer`.
use ruby_zookeeper.Prelude.{ℕ, Option, List}
use ruby_zookeeper.RecordIo.Archive.{Buffer}
use ruby_zookeeper.Jute.Vector.{Vector}

-- A `char *` with what it points to.
abbrev pub CString : Type 0
CString = Option (List ℕ)

pub record AclId : Type 0 where
  pub scheme : CString
  pub id : CString

pub record Acl : Type 0 where
  pub perms : ℕ
  pub id : AclId

pub record Stat : Type 0 where
  pub czxid : ℕ
  pub mzxid : ℕ
  pub ctime : ℕ
  pub mtime : ℕ
  pub version : ℕ
  pub cversion : ℕ
  pub aversion : ℕ
  pub ephemeral_owner : ℕ
  pub data_length : ℕ
  pub num_children : ℕ
  pub pzxid : ℕ

pub record ConnectRequest : Type 0 where
  pub protocol_version : ℕ
  pub last_zxid_seen : ℕ
  pub time_out : ℕ
  pub session_id : ℕ
  pub passwd : Buffer

pub record SetWatches : Type 0 where
  pub relative_zxid : ℕ
  pub data_watches : Vector CString
  pub exist_watches : Vector CString
  pub child_watches : Vector CString

pub record RequestHeader : Type 0 where
  pub xid : ℕ
  pub type : ℕ

pub record AuthPacket : Type 0 where
  pub type : ℕ
  pub scheme : CString
  pub auth : Buffer

pub record ReplyHeader : Type 0 where
  pub xid : ℕ
  pub zxid : ℕ
  pub err : ℕ

pub record GetDataRequest : Type 0 where
  pub path : CString
  pub watch : ℕ

pub record SetDataRequest : Type 0 where
  pub path : CString
  pub data_buffer : Buffer
  pub version : ℕ

pub record SetDataResponse : Type 0 where
  pub stat : Stat

pub record CreateRequest : Type 0 where
  pub path : CString
  pub data_buffer : Buffer
  pub acl : Vector Acl
  pub flags : ℕ

pub record DeleteRequest : Type 0 where
  pub path : CString
  pub version : ℕ

pub record GetChildrenRequest : Type 0 where
  pub path : CString
  pub watch : ℕ

pub record SyncRequest : Type 0 where
  pub path : CString

pub record GetAclRequest : Type 0 where
  pub path : CString

pub record SetAclRequest : Type 0 where
  pub path : CString
  pub acl : Vector Acl
  pub version : ℕ

pub record WatcherEvent : Type 0 where
  pub type : ℕ
  pub state : ℕ
  pub path : CString

pub record CreateResponse : Type 0 where
  pub path : CString

pub record ExistsRequest : Type 0 where
  pub path : CString
  pub watch : ℕ

pub record GetDataResponse : Type 0 where
  pub data_buffer : Buffer
  pub stat : Stat

pub record GetChildrenResponse : Type 0 where
  pub children : Vector CString

pub record GetAclResponse : Type 0 where
  pub acl : Vector Acl
  pub stat : Stat
