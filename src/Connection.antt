-- ===== src/Connection.antt =====
-- zk/src/c/src/zookeeper.c: the connection of a handle, with the functions of st_adaptor.c. The
-- pointers that a caller passes are not null.
pub mod Handshake
pub mod Check
pub mod Interest
pub mod Close
pub mod Counted
pub mod Closing
pub mod Waits
pub mod Expired
pub mod Silent
pub mod Leaked
pub mod Delivered
pub mod Kept
pub mod Worked
pub mod Steps
pub mod Rounds
pub mod Shared
use ruby_zookeeper.Prelude.{Outcome, fail, fault, Void, neg, ℕ, Bool, none, some}
use ruby_zookeeper.Replies.{Handle}
use ruby_zookeeper.Replies.Release.{handle_error}
use ruby_zookeeper.Session.{Env}
use ruby_zookeeper.Watchers.{HashTable}
use ruby_zookeeper.Wire.{Socket}
use ruby_zookeeper.Wire.Receive.{Inlet}

-- How a call of `connect` ends.
pub data Connecting : Type 0 where
  connected in_progress refused : Connecting

-- What the network and the allocator give: memory for a message by its length, the descriptor of a
-- new socket, how `connect` to the server of an index ends, what the new connection will do, and
-- whether `getsockopt` shows no error.
pub record Net : Type 0 where
  pub granted : ℕ → Bool
  pub new_fd : ℕ
  pub connect : ℕ → Connecting
  pub new_socket : Socket
  pub new_inlet : Inlet
  pub sound : Bool

abbrev pub expired_session_state : ℕ
expired_session_state = neg 112

abbrev pub zsessionexpired : ℕ
zsessionexpired = neg 112

abbrev pub zoperationtimeout : ℕ
zoperationtimeout = neg 7

abbrev pub zclosing : ℕ
zclosing = neg 116

abbrev pub znothing : ℕ
znothing = neg 117

abbrev pub ping_op : ℕ
ping_op = 11

abbrev pub close_op : ℕ
close_op = neg 11

abbrev pub setwatches_op : ℕ
setwatches_op = 101

module _ (env : Env) (malloc : ℕ → ℕ → Bool) {H : HashTable} where
  -- `handle_socket_error_msg`: the code is returned after `handle_error`.
  unfoldable pub socket_error : ℕ → Handle H → Outcome (Handle H) Void
  socket_error rc h = elim (handle_error env malloc rc h) [ none ↦ fault | some h' ↦ fail rc h' ]
