-- ===== src/Session.antt =====
-- zk/src/c/src/zookeeper.c: the requests of a handle, from the API call to the socket. The queues
-- are lists here, and the functions of st_adaptor.c stand for those of an adaptor.
pub mod Requests
pub mod Stream
pub mod Submit
pub mod Called
pub mod Calls
use ruby_zookeeper.Prelude.{
  ok, fail, fault, Run, ◌==◌, if◌then◌else◌, neg, is_neg, ℕ, zero, suc, ◌+◌, ◌%◌, ◌^◌, Bool, true,
  false, Option, none, some, List, [], ◌∷◌, ◌++◌,
}
use ruby_zookeeper.RecordIo.{Host}
use ruby_zookeeper.Wire.{Socket, BufferList, send_buffer}

abbrev pub zok : ℕ
zok = 0

abbrev pub zsystemerror : ℕ
zsystemerror = neg 1

abbrev pub zconnectionloss : ℕ
zconnectionloss = neg 4

abbrev pub zmarshallingerror : ℕ
zmarshallingerror = neg 5

abbrev pub zbadarguments : ℕ
zbadarguments = neg 8

abbrev pub zinvalidstate : ℕ
zinvalidstate = neg 9

abbrev pub connected_state : ℕ
connected_state = 3

-- What the code takes from its surroundings: the byte order, whether memory is granted (to a growing
-- archive, to the entry of a completion by its xid, to a buffer by its length), the clock, and the
-- address that marks a synchronous call.
pub record Env : Type 0 where
  pub host : Host
  pub realloc : ℕ → Bool
  pub entry_granted : ℕ → Bool
  pub buffer_granted : ℕ → Bool
  pub time : ℕ
  pub now : ℕ
  pub synchronous_marker : ℕ

-- `completion_type`
pub data CompletionType : Type 0 where
  completion_watch completion_void completion_stat completion_data : CompletionType
  completion_stringlist completion_acllist completion_string : CompletionType

-- The function that says to which table a watcher is added.
pub data ResultChecker : Type 0 where
  exists_result_checker data_result_checker child_result_checker : ResultChecker

-- A function or context pointer is a number, 0 is null.
pub record WatcherRegistration : Type 0 where
  pub watcher : ℕ
  pub context : ℕ
  pub checker : ResultChecker
  pub path : List ℕ

-- `completion_list_t` without its link; `c` is the union of the function pointers.
pub record Completion : Type 0 where
  pub xid : ℕ
  pub completion_type : CompletionType
  pub c : ℕ
  pub data_pointer : ℕ
  pub watcher : Option WatcherRegistration

-- The fields of `struct _zhandle` that the requests use; `xid` is the static variable of `get_xid`,
-- and `socket` stands behind `fd`.
pub record Zhandle : Type 0 where
  pub state : ℕ
  pub chroot : Option (List ℕ)
  pub watcher : ℕ
  pub context : ℕ
  pub to_send : List BufferList
  pub sent_requests : List Completion
  pub outstanding_sync : ℕ
  pub last_send : ℕ
  pub socket : Socket
  pub xid : ℕ

unfoldable pub is_unrecoverable : Zhandle → ℕ
is_unrecoverable zh = if is_neg zh.state then zinvalidstate else zok

-- The xid to use, and the next one.
unfoldable pub get_xid : Env → ℕ → ℕ × ℕ
get_xid env xid = let now = if xid == neg 1 then env.time else xid in (now, (now + 1) % 2 ^ 32)

unfoldable pub create_watcher_registration :
    List ℕ → ResultChecker → ℕ → ℕ → Option WatcherRegistration
create_watcher_registration path checker watcher ctx =
    if watcher == 0
    then none
    else some (record { watcher = watcher; context = ctx; checker = checker; path = path })

unfoldable pub create_completion_entry :
    Env → ℕ → CompletionType → ℕ → ℕ → Option WatcherRegistration → Option Completion
create_completion_entry env xid completion_type dc data_pointer wo =
    if env.entry_granted xid
    then some (record {
      xid = xid;
      completion_type = completion_type;
      c = dc;
      data_pointer = data_pointer;
      watcher = wo;
    })
    else none

-- Always at the back of the list: no caller asks for the front.
unfoldable pub add_completion :
    Env → ℕ → CompletionType → ℕ → ℕ → Option WatcherRegistration → Zhandle → ℕ × Zhandle
add_completion env xid completion_type dc data_pointer wo zh =
    elim (create_completion_entry env xid completion_type dc data_pointer wo) [
      | none ↦ (zsystemerror, zh)
      | some c ↦ (
        zok,
        record zh {
          sent_requests = zh.sent_requests ++ (c ∷ []);
          outstanding_sync =
              if dc == env.synchronous_marker then zh.outstanding_sync + 1 else zh.outstanding_sync;
        },
      )
    ]

-- A buffer of no bytes gets the size of the struct as its length, 24 where a pointer has 8 bytes.
unfoldable pub allocate_buffer : Env → Option (List ℕ) → ℕ → Option BufferList
allocate_buffer env buff len =
    if env.buffer_granted len
    then some (record { buffer = buff; len = if len == 0 then 24 else len; curr_offset = 0 })
    else none

unfoldable pub queue_buffer_bytes : Env → Option (List ℕ) → ℕ → Zhandle → ℕ × Zhandle
queue_buffer_bytes env buff len zh = elim (allocate_buffer env buff len) [
  | none ↦ (zsystemerror, zh)
  | some b ↦ (zok, record zh { to_send = zh.to_send ++ (b ∷ []) })
]

-- The loop of `flush_send_queue` with the timeout 0, over the queue. What is left of the queue, the
-- socket, the time of the last send and the return code.
unfoldable pub flush_loop :
    Env → Bool → List BufferList → Socket → ℕ → Option (ℕ × List BufferList × Socket × ℕ)
flush_loop env connected [] s last_send = some (zok, [], s, last_send)
flush_loop env false (b ∷ queue) s last_send = some (zok, b ∷ queue, s, last_send)
flush_loop env true (b ∷ queue) s last_send = elim (send_buffer env.host (b, s)) [
  | ok zero (b', s') ↦ some (zok, b' ∷ queue, s', last_send)
  | ok (suc n) (b', s') ↦ flush_loop env true queue s' env.now
  | fail rc (b', s') ↦ some (zconnectionloss, b' ∷ queue, s', last_send)
  | fault ↦ none
]

-- `flush_send_queue(zh, 0)`; `adaptor_send_queue` of st_adaptor.c calls it.
unfoldable pub flush_send_queue : Env → Run Zhandle ℕ
flush_send_queue env zh =
    elim (flush_loop env (zh.state == connected_state) zh.to_send zh.socket zh.last_send) [
      | none ↦ fault
      | some r ↦ ok r.0 (record zh { to_send = r.1; socket = r.2; last_send = r.3 })
    ]
