-- ===== src/Examples/Sessions.antt =====
-- Requests of a handle at concrete values.
use ruby_zookeeper.Prelude.{neg, ℕ, ◌≡◌, refl, true, none, some, List, [], ◌∷◌, ◌++◌, arith}
use ruby_zookeeper.Jute.Format.{
  request_header_bytes, get_data_request_bytes, create_request_bytes, sync_request_bytes,
}
use ruby_zookeeper.Jute.Types.{Acl, CreateRequest, SyncRequest}
use ruby_zookeeper.Jute.Vector.{Vector}
use ruby_zookeeper.Jute.Writers.{write_sync_request}
use ruby_zookeeper.Path.{is_sequence, path_loop, valid_within, is_valid_path}
use ruby_zookeeper.Path.Chroot.{prepend_string}
use ruby_zookeeper.RecordIo.{little}
use ruby_zookeeper.Session.{
  Env, completion_data, completion_string, data_result_checker, Zhandle, get_xid,
}
use ruby_zookeeper.Session.Called.{waiting, registered, Called}
use ruby_zookeeper.Session.Calls.{next_header, zoo_acreate-Sent, zoo_awget-Sent}
use ruby_zookeeper.Session.Requests.{
  server_path, submit, has_watcher, zoo_awget, zoo_acreate, async_request,
}
use ruby_zookeeper.Session.Submit.{Sent, Grants, IsHandle, submit-Sent}
use ruby_zookeeper.Wire.{moves}

abbrev granting : Env
granting = record {
  host = little;
  realloc = λ n. true;
  entry_granted = λ n. true;
  buffer_granted = λ n. true;
  time = 1000;
  now = 5;
  synchronous_marker = 99;
}

granting-Grants : Grants granting
granting-Grants = record { realloc_ok = λ n. refl; entry_ok = λ n. refl; buffer_ok = λ n. refl }

-- "/app"
abbrev app : List ℕ
app = 47 ∷ 97 ∷ 112 ∷ 112 ∷ []

-- "/x" and "/app/x"
abbrev x : List ℕ
x = 47 ∷ 120 ∷ []

abbrev app_x : List ℕ
app_x = 47 ∷ 97 ∷ 112 ∷ 112 ∷ 47 ∷ 120 ∷ []

-- Connected, with the kernel taking 6 bytes.
abbrev handle : Zhandle
handle = record {
  state = 3;
  chroot = some app;
  watcher = 11;
  context = 12;
  to_send = [];
  sent_requests = [];
  outstanding_sync = 0;
  last_send = 0;
  socket = record { answers = moves 6 ∷ []; line = [] };
  xid = neg 1;
}

handle-IsHandle : IsHandle granting handle
handle-IsHandle = record { queued = tt; xid_ok = omega arith; time_ok = omega arith }

app_x-path : server_path handle.chroot (some x) ≡ some (some app_x)
unfolding server_path prepend_string
app_x-path = refl

app_x-valid : is_valid_path (some app_x) 0 ≡ some true
unfolding is_valid_path valid_within path_loop is_sequence
app_x-valid = refl

app_x-valid_flags : is_valid_path (some app_x) 2 ≡ some true
unfolding is_valid_path valid_within path_loop is_sequence
app_x-valid_flags = refl

abbrev sync : SyncRequest
sync = record { path = some app_x }

submit-Sent_example :
    Sent granting
      (async_request granting 21 22)
      (get_xid granting handle.xid).0
      (some app_x)
      (request_header_bytes (record { xid = (get_xid granting handle.xid).0; type = 9 })
        ++ sync_request_bytes sync)
      handle
      (submit granting (async_request granting 21 22) (some x) handle)
unfolding async_request
submit-Sent_example =
    submit-Sent granting (async_request granting 21 22) (some x) app_x (sync_request_bytes sync)
      handle granting-Grants handle-IsHandle (omega arith) app_x-path app_x-valid refl
      (write_sync_request (λ n. true) (λ n. refl) little sync (record { path_ok = omega arith }))
      (omega arith)

abbrev no_acls : Vector Acl
no_acls = record { count = 0; elements = [] }

abbrev creation : CreateRequest
creation = record {
  path = some app_x;
  data_buffer = record { len = 2; buff = some (5 ∷ 6 ∷ []) };
  acl = no_acls;
  flags = 2;
}

zoo_acreate-Sent_example :
    Called granting
      (waiting granting handle completion_string 21 22 none)
      (request_header_bytes (next_header granting handle 1) ++ create_request_bytes creation)
      handle
      (zoo_acreate granting (some x) (some (5 ∷ 6 ∷ [])) 2 (some no_acls) 2 21 22 handle)
zoo_acreate-Sent_example =
    zoo_acreate-Sent granting handle (some x) app_x granting-Grants handle-IsHandle app_x-path refl
      (some (5 ∷ 6 ∷ [])) 2 no_acls 2 21 22 app_x-valid_flags
      (record {
        path_ok = omega arith;
        data_buffer_ok = (some (5 ∷ 6 ∷ []), omega arith, refl);
        acl_ok = (refl, omega arith, tt);
        flags_ok = omega arith;
      })
      (omega arith)

zoo_awget-Sent_example :
    Called granting
      (waiting granting handle completion_data 21 22 (registered data_result_checker app_x 31 32))
      (request_header_bytes (next_header granting handle 4)
        ++ get_data_request_bytes (record { path = some app_x; watch = has_watcher 31 }))
      handle
      (zoo_awget granting (some x) 31 32 21 22 handle)
zoo_awget-Sent_example =
    zoo_awget-Sent granting handle (some x) app_x granting-Grants handle-IsHandle app_x-path refl 31
      32 21 22 app_x-valid (record { path_ok = omega arith; watch_ok = omega arith }) (omega arith)
