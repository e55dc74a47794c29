-- ===== src/Examples/Handles.antt =====
-- A handle with requests that wait, and what becomes of it.
use ruby_zookeeper.Prelude.{
  replicate, ok, fail, neg, ℕ, ◌≡◌, refl, Bool, true, false, none, some, [], ◌∷◌, ◌++◌, arith,
}
use ruby_zookeeper.Examples.Watches.{functions, nothing}
use ruby_zookeeper.Jute.Format.{IsReplyHeader, reply_header_bytes}
use ruby_zookeeper.Jute.Types.{ReplyHeader}
use ruby_zookeeper.Path.Chroot.{sub_string}
use ruby_zookeeper.RecordIo.{little}
use ruby_zookeeper.Replies.{zruntimeinconsistency, sync_void, no_input, Handle}
use ruby_zookeeper.Replies.Deliver.{client_path, process_replies}
use ruby_zookeeper.Replies.Faked.{IsRequest}
use ruby_zookeeper.Replies.InOrder.{
  Answered, process_buffers-Answered, process_buffers-out_of_order,
}
use ruby_zookeeper.Replies.Lost.{Lost, handle_error-Lost}
use ruby_zookeeper.Replies.Packet.{IsPacket}
use ruby_zookeeper.Replies.Process.{see_zxid, process_buffers}
use ruby_zookeeper.Replies.Release.{handle_error}
use ruby_zookeeper.Session.{Env, completion_void, completion_data, Completion}
use ruby_zookeeper.Session.Submit.{Grants}
use ruby_zookeeper.Wire.{BufferList}

abbrev pub granting : Env
granting = record {
  host = little;
  realloc = λ n. true;
  entry_granted = λ n. true;
  buffer_granted = λ n. true;
  time = 1000;
  now = 5;
  synchronous_marker = 99;
}

pub granting-Grants : Grants granting
granting-Grants = record { realloc_ok = λ n. refl; entry_ok = λ n. refl; buffer_ok = λ n. refl }

abbrev pub any_memory : ℕ → ℕ → Bool
any_memory off n = true

-- A data request of the function 7, and a deletion whose caller waits at the address 1000.
abbrev pub getting : Completion
getting = record {
  xid = 5;
  completion_type = completion_data;
  c = 7;
  data_pointer = 70;
  watcher = none;
}

abbrev pub deleting : Completion
deleting = record {
  xid = 6;
  completion_type = completion_void;
  c = 99;
  data_pointer = 1000;
  watcher = none;
}

pub getting-IsRequest : IsRequest getting
getting-IsRequest = record { wide = omega arith; own_xid = refl; typed = λ t. t }

pub deleting-IsRequest : IsRequest deleting
deleting-IsRequest = record { wide = omega arith; own_xid = refl; typed = λ t. t }

abbrev pub waiting_handle : Handle functions
waiting_handle = record {
  zh = record {
    state = 3;
    chroot = none;
    watcher = 11;
    context = 12;
    to_send = [];
    sent_requests = getting ∷ deleting ∷ [];
    outstanding_sync = 1;
    last_send = 5;
    socket = record { answers = []; line = [] };
    xid = 7;
  };
  auth_h = [];
  active_node_watchers = nothing;
  active_exist_watchers = nothing;
  active_child_watchers = nothing;
  lists = λ a. [];
  fresh = 0;
  fd = 4;
  connect_index = 0;
  inlet = record { answers = []; line = [] };
  input_buffer = no_input;
  primer_buffer = record { buffer = some (replicate 40 0); len = 40; curr_offset = 0 };
  to_process = [];
  completions_to_process = [];
  syncs = λ a. record { rc = 0; u = sync_void };
  client_id = record { client_id = 5; passwd = replicate 16 9 };
  recv_timeout = 9000;
  last_zxid = 1;
  last_recv = 5;
  last_ping = 5;
  deadline = record { tv_sec = 0; tv_usec = 0 };
  addrs_count = 2;
  ref_counter = 0;
  close_requested = 0;
  freed = false;
  events = [];
}

handle_error-Lost_example :
    (h' : Handle functions) × (handle_error granting any_memory (neg 4) waiting_handle ≡ some h')
    × Lost granting (neg 4) waiting_handle [] (some []) h'
unfolding client_path sub_string process_replies
handle_error-Lost_example =
    handle_error-Lost granting any_memory granting-Grants (λ off n. refl) (neg 4) waiting_handle []
      (some []) (omega arith) refl (omega arith) refl refl
      (getting-IsRequest, (deleting-IsRequest, tt)) refl (omega arith)

-- The answer to the data request, with two bytes behind its header.
abbrev pub header : ReplyHeader
header = record { xid = 5; zxid = 9; err = 0 }

abbrev pub answer : BufferList
answer = record {
  buffer = some (reply_header_bytes header ++ (1 ∷ 2 ∷ []));
  len = 18;
  curr_offset = 22;
}

pub header-IsReplyHeader : IsReplyHeader header
header-IsReplyHeader = record { xid_ok = omega arith; zxid_ok = omega arith; err_ok = omega arith }

pub answer-IsPacket : IsPacket answer header
answer-IsPacket = record {
  payload = 1 ∷ 2 ∷ [];
  valid = header-IsReplyHeader;
  stored = refl;
  received = refl;
  small = omega arith;
}

process_buffers-Answered_example :
    (h' : Handle functions) × (process_buffers granting any_memory (answer ∷ []) waiting_handle
      ≡ ok tt h')
    × Answered waiting_handle ((getting, answer) ∷ []) (deleting ∷ []) h'
    × (h'.to_process ≡ [])
process_buffers-Answered_example =
    process_buffers-Answered granting any_memory (λ off n. refl) ((getting, answer) ∷ [])
      (deleting ∷ []) waiting_handle
      (
        record {
          header = header;
          packet = answer-IsPacket;
          same = refl;
          plain = (refl, refl, refl);
          asynchronous = refl;
        },
        tt,
      )
      refl

-- The handle when the deletion is first: the answer is not its own.
abbrev pub other_first : Handle functions
other_first = record waiting_handle {
  zh = record waiting_handle.zh { sent_requests = deleting ∷ getting ∷ [] };
}

process_buffers-out_of_order_example :
    (h' : Handle functions) × (process_buffers granting any_memory (answer ∷ []) other_first
      ≡ fail zruntimeinconsistency h')
    × Lost granting zruntimeinconsistency
        (see_zxid header (record other_first { to_process = [] }))
        []
        (some [])
        h'
unfolding client_path sub_string process_replies
process_buffers-out_of_order_example =
    process_buffers-out_of_order granting any_memory (λ off n. refl) granting-Grants answer []
      header deleting (getting ∷ []) other_first [] (some []) answer-IsPacket (refl, refl, refl)
      refl refl (omega arith) refl refl (deleting-IsRequest, (getting-IsRequest, tt)) refl
      (omega arith)
