-- ===== src/Examples/Connections.antt =====
-- The connection of a handle at concrete values.
use ruby_zookeeper.Prelude.{
  replicate, fail, ℕ, ◌+◌, ◌≤◌, ◌≡◌, refl, ◌↔◌, Bool, true, false, Option, some, List, [], ◌∷◌,
  ◌++◌, arith,
}
use ruby_zookeeper.Clock.{Timeval, micros, deadline_after, deadline_after-bounds}
use ruby_zookeeper.Connection.{in_progress, Net, expired_session_state, zsessionexpired, zclosing}
use ruby_zookeeper.Connection.Check.{check_events, exchange, flush_events, process_events}
use ruby_zookeeper.Connection.Close.{
  destroy, zookeeper_close, api_prolog, api_epilog, zookeeper_process,
}
use ruby_zookeeper.Connection.Closing.{Reached, start, enters, closes, IsCounted, Reached-IsCounted}
use ruby_zookeeper.Connection.Expired.{handshake-expired}
use ruby_zookeeper.Connection.Handshake.{handshake}
use ruby_zookeeper.Connection.Interest.{Interest}
use ruby_zookeeper.Connection.Leaked.{zookeeper_process-leaks}
use ruby_zookeeper.Connection.Shared.{zookeeper_process-Reached}
use ruby_zookeeper.Connection.Silent.{destroy-silent}
use ruby_zookeeper.Examples.Handles.{
  granting, granting-Grants, any_memory, getting, deleting, getting-IsRequest, deleting-IsRequest,
  waiting_handle, header, answer, answer-IsPacket, other_first,
}
use ruby_zookeeper.Examples.Watches.{functions}
use ruby_zookeeper.Path.Chroot.{sub_string}
use ruby_zookeeper.Replies.{zruntimeinconsistency, Handle}
use ruby_zookeeper.Replies.Deliver.{client_path, process_replies, process_if_async}
use ruby_zookeeper.Replies.Process.{process_buffers}
use ruby_zookeeper.Replies.Faked.{delivered, told}
use ruby_zookeeper.Replies.Lost.{auth_calls, Lost}
use ruby_zookeeper.Session.{zok, zinvalidstate, is_unrecoverable}
use ruby_zookeeper.Wire.Prime.{PrimeStruct}

abbrev early : Timeval
early = record { tv_sec = 10; tv_usec = 999999 }

abbrev late : Timeval
late = record { tv_sec = 11; tv_usec = 1000 }

-- Half a second behind half a second: the microseconds come to a whole second.
abbrev half : Timeval
half = record { tv_sec = 3; tv_usec = 500000 }

deadline_after-bounds_example :
    (micros (deadline_after half half) ≡ micros half + micros half)
    × ((deadline_after half half).tv_usec ≤ 1000000)
    × (((deadline_after half half).tv_usec ≡ 1000000) ↔ (half.tv_usec + half.tv_usec ≡ 1000000))
deadline_after-bounds_example = deadline_after-bounds half half (omega arith) (omega arith)

carry_missed : deadline_after half half ≡ record { tv_sec = 6; tv_usec = 1000000 }
unfolding deadline_after
carry_missed = refl

abbrev pub network : Net
network = record {
  granted = λ n. true;
  new_fd = 4;
  connect = λ i. in_progress;
  new_socket = record { answers = []; line = [] };
  new_inlet = record { answers = []; line = [] };
  sound = true;
}

abbrev connecting_handle : Handle functions
connecting_handle = record waiting_handle { zh = record waiting_handle.zh { state = 1 } }

abbrev stranger : PrimeStruct
stranger = record {
  len = 36;
  protocol_version = 0;
  time_out = 10000;
  session_id = 6;
  passwd_len = 16;
  passwd = replicate 16 9;
}

handshake-expired_example :
    (h' : Handle functions) × (handshake granting any_memory stranger waiting_handle
      ≡ fail zsessionexpired h')
    × Lost granting zsessionexpired
        (record waiting_handle { zh = record waiting_handle.zh { state = expired_session_state } })
        []
        (some [])
        h'
    × (h'.zh.state ≡ expired_session_state)
    × ((readable writable : Bool)
        → zookeeper_process granting any_memory [] network readable writable h'
          ≡ some (zinvalidstate, h'))
unfolding client_path sub_string process_replies
handshake-expired_example =
    handshake-expired granting any_memory granting-Grants (λ off n. refl) [] network stranger
      waiting_handle [] (some []) refl refl refl refl (getting-IsRequest, (deleting-IsRequest, tt))
      refl (omega arith)

destroy-silent_example :
    (h' : Handle functions) × (destroy granting any_memory [] waiting_handle ≡ some h')
    × (h'.freed ≡ true)
    × (h'.events
        ≡ waiting_handle.events
          ++ (told granting waiting_handle.zh.sent_requests ++ auth_calls zclosing waiting_handle))
    × ((chroot : Option (List ℕ))
        → process_replies granting any_memory chroot h'.completions_to_process
          ≡ some (delivered granting zclosing waiting_handle.zh.sent_requests))
destroy-silent_example =
    destroy-silent granting any_memory granting-Grants (λ off n. refl) [] waiting_handle
      (getting-IsRequest, (deleting-IsRequest, tt)) refl

-- Closed while a call is under way.
abbrev calling : Handle functions
calling = record waiting_handle { ref_counter = 1 }

abbrev marked : Handle functions
marked = record calling { close_requested = 1 }

closed_within : Reached granting any_memory [] waiting_handle marked
unfolding zookeeper_close api_prolog
closed_within = closes calling marked 0 (enters waiting_handle start refl) refl refl

Reached-IsCounted_example : IsCounted marked
Reached-IsCounted_example =
    Reached-IsCounted granting any_memory [] waiting_handle marked refl refl refl closed_within

-- The answer to the second request has come first.
abbrev confused : Handle functions
confused = record other_first { to_process = answer ∷ [] }

abbrev confused_within : Handle functions
confused_within = record confused { ref_counter = 1 }

zookeeper_process-leaks_example :
    (h' : Handle functions) × (zookeeper_process granting any_memory [] network false false confused
      ≡ some (zruntimeinconsistency, h'))
    × (h'.ref_counter ≡ confused.ref_counter + 1)
    × (zookeeper_close granting any_memory [] h' ≡ some (zok, record h' { close_requested = 1 }))
unfolding client_path sub_string process_replies check_events exchange flush_events api_prolog
    is_unrecoverable
zookeeper_process-leaks_example =
    zookeeper_process-leaks granting any_memory granting-Grants (λ off n. refl) [] network false
      false confused confused_within answer [] header deleting (getting ∷ []) [] (some []) refl refl
      refl answer-IsPacket (refl, refl, refl) refl refl (omega arith) refl refl
      (deleting-IsRequest, (getting-IsRequest, tt)) refl (omega arith)

-- A call within the call.
zookeeper_process-Reached_example :
    Reached granting any_memory [] waiting_handle marked × IsCounted marked
unfolding zookeeper_process process_events check_events exchange flush_events process_buffers
    process_if_async api_epilog api_prolog is_unrecoverable
zookeeper_process-Reached_example =
    zookeeper_process-Reached granting any_memory [] network false false waiting_handle marked
      marked zok refl refl refl closed_within refl refl
