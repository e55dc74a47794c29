-- ===== src/Replies.antt =====
-- zk/src/c/src/zookeeper.c: what the server sends, from the queue of received buffers to the user's
-- functions. The user's functions are only recorded, and do not call the library again; a wrapper of
-- HAVE_LIBRUBY stands for the function that it calls.
pub mod Deliver
pub mod Release
pub mod Sync
pub mod Process
pub mod Faked
pub mod Released
pub mod Announced
pub mod Lost
pub mod Packet
pub mod InOrder
pub mod Bodies
pub mod Results
use ruby_zookeeper.Prelude.{neg, ℕ, Bool, Option, List}
use ruby_zookeeper.Auth.{AuthInfo, Call}
use ruby_zookeeper.Clock.{Timeval}
use ruby_zookeeper.Jute.Types.{
  CString, Acl, Stat, SetDataResponse, CreateResponse, GetDataResponse, GetChildrenResponse,
  GetAclResponse,
}
use ruby_zookeeper.Jute.Vector.{Vector}
use ruby_zookeeper.Session.{CompletionType, Completion, Zhandle}
use ruby_zookeeper.Watchers.{HashTable, WatcherObject, WatchHandle}
use ruby_zookeeper.Wire.{BufferList}
use ruby_zookeeper.Wire.Receive.{Inlet}

abbrev pub watcher_event_xid : ℕ
watcher_event_xid = neg 1

abbrev pub ping_xid : ℕ
ping_xid = neg 2

abbrev pub set_watches_xid : ℕ
set_watches_xid = neg 8

abbrev pub zruntimeinconsistency : ℕ
zruntimeinconsistency = neg 2

abbrev pub zauthfailed : ℕ
zauthfailed = neg 115

abbrev pub connecting_state : ℕ
connecting_state = 1

-- What a response carries behind its header, by the type of the completion.
pub data Body : Type 0 where
  no_body : Body
  data_body : GetDataResponse → Body
  stat_body : SetDataResponse → Body
  strings_body : GetChildrenResponse → Body
  string_body : CreateResponse → Body
  acl_body : GetAclResponse → Body

-- A call of a user's function: the completion of a request (its type, the function, the return code,
-- the result, the user's data) or of an authentication, or a watcher (the type, the state and the path
-- of the event). A synchronous caller is notified instead.
pub data Event : Type 0 where
  completed : CompletionType → ℕ → ℕ → Body → ℕ → Event
  authenticated : Call → Event
  watched : WatcherObject → ℕ → ℕ → Option (List ℕ) → Event
  notified : ℕ → Event

-- The union of `struct sync_completion`; the memory of the caller is in it.
pub data SyncUnion : Type 0 where
  sync_void : SyncUnion
  sync_string : Option (List ℕ) → ℕ → SyncUnion
  sync_stat : Stat → SyncUnion
  sync_data : Option (List ℕ) → ℕ → Stat → SyncUnion
  sync_acl : Vector Acl → Stat → SyncUnion
  sync_strings : Vector CString → SyncUnion

pub record SyncCompletion : Type 0 where
  pub rc : ℕ
  pub u : SyncUnion

-- An entry of `completions_to_process`: a completion with its response, or watchers with the
-- notification for them, which has the completion type -1.
pub data Reply : Type 0 where
  response : Completion → BufferList → Reply
  notification : BufferList → List WatcherObject → Reply

-- `input_buffer`: null, the address of `primer_buffer`, or a buffer of its own.
pub data Input : Type 0 where
  no_input primer_input : Input
  own_input : BufferList → Input

pub record ClientId : Type 0 where
  pub client_id : ℕ
  pub passwd : List ℕ

module _ (H : HashTable) where
  -- The handle; `zh` has the fields that the requests use. `lists` and `fresh` are the memory of the
  -- watcher tables, `syncs` that of the synchronous callers, by address, `inlet` stands behind `fd`,
  -- `deadline` for `next_deadline`, `events` are the calls of the user's functions so far, and
  -- `freed` says that the memory of the handle is given back. Times are in microseconds.
  pub record Handle : Type 0 where
    pub zh : Zhandle
    pub auth_h : List AuthInfo
    pub active_node_watchers : H.Table
    pub active_exist_watchers : H.Table
    pub active_child_watchers : H.Table
    pub lists : ℕ → List WatcherObject
    pub fresh : ℕ
    pub fd : ℕ
    pub connect_index : ℕ
    pub inlet : Inlet
    pub input_buffer : Input
    pub primer_buffer : BufferList
    pub to_process : List BufferList
    pub completions_to_process : List Reply
    pub syncs : ℕ → SyncCompletion
    pub client_id : ClientId
    pub recv_timeout : ℕ
    pub last_zxid : ℕ
    pub last_recv : ℕ
    pub last_ping : ℕ
    pub deadline : Timeval
    pub addrs_count : ℕ
    pub ref_counter : ℕ
    pub close_requested : ℕ
    pub freed : Bool
    pub events : List Event

  -- The part of it that zk_hashtable.c works on, and the handle with that part changed.
  unfoldable pub watches : Handle → WatchHandle H
  watches h = record {
    watcher = h.zh.watcher;
    context = h.zh.context;
    active_node_watchers = h.active_node_watchers;
    active_exist_watchers = h.active_exist_watchers;
    active_child_watchers = h.active_child_watchers;
    lists = h.lists;
    fresh = h.fresh;
  }

  unfoldable pub with_watches : Handle → WatchHandle H → Handle
  with_watches h w = record h {
    active_node_watchers = w.active_node_watchers;
    active_exist_watchers = w.active_exist_watchers;
    active_child_watchers = w.active_child_watchers;
    lists = w.lists;
    fresh = w.fresh;
  }
