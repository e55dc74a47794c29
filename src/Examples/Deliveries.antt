-- ===== src/Examples/Deliveries.antt =====
-- The answer to a data request, from the received buffer to the user's function.
use ruby_zookeeper.Examples.Connections.{network}
use ruby_zookeeper.Examples.Handles.{
  granting, any_memory, getting, waiting_handle, header, header-IsReplyHeader,
}
use ruby_zookeeper.Examples.Packets.{body-IsBuffer, some_stat-IsStat, a_get_data_response}
use ruby_zookeeper.Examples.Watches.{functions}
use ruby_zookeeper.Prelude.{◌≡◌, refl, false, some, List, [], ◌∷◌, ◌++◌, arith}
use ruby_zookeeper.Connection.Check.{flush_events, exchange, check_events}
use ruby_zookeeper.Connection.Close.{api_prolog, zookeeper_process}
use ruby_zookeeper.Connection.Delivered.{Delivered, zookeeper_process-Delivered}
use ruby_zookeeper.Jute.Format.{reply_header_bytes, get_data_response_bytes}
use ruby_zookeeper.Replies.{data_body, Handle}
use ruby_zookeeper.Replies.Results.{AreResults, calls_for}
use ruby_zookeeper.Session.{zok, Completion, is_unrecoverable}
use ruby_zookeeper.Wire.{BufferList}

abbrev carrying : BufferList
carrying = record {
  buffer = some (reply_header_bytes header ++ get_data_response_bytes a_get_data_response);
  len = 91;
  curr_offset = 95;
}

abbrev asking : Handle functions
asking = record waiting_handle {
  zh = record waiting_handle.zh { sent_requests = getting ∷ []; outstanding_sync = 0 };
  to_process = carrying ∷ [];
}

abbrev asking_within : Handle functions
asking_within = record asking { ref_counter = 1 }

abbrev exchanged : List (Completion × BufferList)
exchanged = (getting, carrying) ∷ []

exchanged-AreResults : AreResults granting exchanged
exchanged-AreResults = (
  record {
    answer = record {
      header = header;
      packet = record {
        payload = get_data_response_bytes a_get_data_response;
        valid = header-IsReplyHeader;
        stored = refl;
        received = refl;
        small = omega arith;
      };
      same = refl;
      plain = (refl, refl, refl);
      asynchronous = refl;
    };
    body = data_body a_get_data_response;
    of_type = record { data_buffer_ok = body-IsBuffer; stat_ok = some_stat-IsStat };
    carried = λ fine. refl;
    length_told = refl;
  },
  tt,
)

zookeeper_process-Delivered_example :
    (h' : Handle functions) × (zookeeper_process granting any_memory [] network false false asking
      ≡ some (zok, h'))
    × Delivered asking asking_within (calls_for granting exchanged exchanged-AreResults) [] h'
unfolding check_events exchange flush_events api_prolog is_unrecoverable
zookeeper_process-Delivered_example =
    zookeeper_process-Delivered granting any_memory (λ off n. refl) [] network false false asking
      asking_within exchanged [] exchanged-AreResults refl refl refl refl refl refl refl
