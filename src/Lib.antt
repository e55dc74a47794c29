-- ===== src/Lib.antt =====
-- Verification of the ZooKeeper C client under zk/src/c, the library that the Ruby bindings wrap.
--
-- The client writes a request as a jute message into an archive, queues the bytes as a packet, lets the
-- completion of the request wait for the reply, and sends what the socket takes. What the server sends is
-- put together to messages; each is matched with the first request that waits, or is a notification, and
-- goes to the functions of the user. The parts, and the files that model them:
--
--  * RecordIo (zk/src/c/src/recordio.c): an archive is the list of its memory cells with `len` and `off`
--    as C ints. `oa_serialize_*` and `ia_deserialize_*` keep their names; `resize_buffer` doubles with
--    `double_len`. The byte order of the host and the answers of the allocator are parameters, so
--    the pair of `htonl` and the copy into memory is there for both orders.
--  * Jute (zk/src/c/generated/zookeeper.jute.c and .h): one record per struct, `serialize_x` and
--    `deserialize_x` per function; String_vector and ACL_vector are `Vector`, with the loops in
--    Jute/Vector. Jute/Format writes the wire format down on its own.
--  * Path (zk/src/c/src/zookeeper.c): `isValidPath`, `prepend_string`, `sub_string`, and the part of
--    `zookeeper_init` that finds the chroot in the host string. Path/Names says what a valid path is.
--  * Wire (zk/src/c/src/zookeeper.c): `send_buffer` over a socket that is a list of answers of the
--    kernel and the bytes on the line, and in Wire/Receive `recv_buffer` over the answers and the bytes
--    that have come; Wire/Prime has the two messages of the handshake.
--  * Session (zk/src/c/src/zookeeper.c and st_adaptor.c): the part of the handle that requests use,
--    `get_xid`, `add_completion`, `queue_buffer_bytes`, `flush_send_queue`, and the requests `zoo_a*`. What
--    the requests have in common stands once, in `submit`; each `zoo_a*` gives its operation, message and
--    completion. Session/Called says what a request leaves in the handle.
--  * Queue (zk/src/c/src/zookeeper.c): the linked lists of buffers and completions, in a memory of
--    nodes with a pointer to the last one. Session, Auth and Replies have lists in their place.
--  * Auth (zk/src/c/src/zookeeper.c): the list of authentication data, the packets that carry it, and
--    the functions that wait for the answer.
--  * Watchers (zk/src/c/src/zk_hashtable.c): the tables of watchers by path, over a hash table that is
--    a parameter with its documented behaviour, `collectWatchers` and `activateWatcher`.
--  * Clock (zk/src/c/src/zookeeper.c): `calculate_interval`, `get_timeval` and the deadline.
--  * Replies (zk/src/c/src/zookeeper.c): the whole handle, and what the server sends from the queue of
--    received buffers on. Replies/Process is the loop of `zookeeper_process`, Replies/Sync the copy of a
--    result to a synchronous caller, Replies/Deliver `process_completions` and `deliverWatchers`,
--    Replies/Release `queue_session_event`, `free_completions`, `cleanup_bufs` and `handle_error`. The
--    calls of the user's functions are recorded in the order in which they are made.
--  * Connection (zk/src/c/src/zookeeper.c and st_adaptor.c): Connection/Handshake has
--    `prime_connection` and the answer to it, Connection/Check `check_events`, Connection/Interest
--    `zookeeper_interest` and `send_ping`, Connection/Close `zookeeper_close`, `destroy`, the count of the
--    calls under way, `zookeeper_process`, and `flush_send_queue` with a timeout.
--  * Prelude: lists and tests over native numbers, and functions with a state. `ok` is a result,
--    `fail` a negative return code, `fault` undefined behaviour or a failed assertion.
--  * Examples: runs and instances at concrete values.
--
-- A C int or long is its bit pattern, a number below 2^32 or 2^64, and `neg k` is the pattern of -k. A
-- string is the list of its bytes without the terminator, a null pointer is `none`, a function or
-- context pointer is a number and 0 is null. The clock stands still within a call of the API. The
-- adaptor is the one of st_adaptor.c, without threads: nothing else runs while a call is under way, and
-- the functions of the user do not call the library. A wrapper of HAVE_LIBRUBY stands for the function
-- that it calls.
--
-- Bounds and fuel. `double_len` takes 32 rounds: a length doubles in each, and is refused from 2^31 on, so
-- that no more are needed. `max_message` is 2^28 bytes: below it the doubling stays within an int, and
-- all lengths of strings and vectors fit. `path_loop` takes as many rounds as the path has bytes behind the
-- first. `get_queue_len` takes the rounds that it is given, and ends with as many as there are elements.
-- An `int` that holds a `strlen` is cut off at 2^32 in `valid_within`, and one that counts the elements
-- of a list in `count_from`: what is shown of them asks for sizes below 2^31. The sum in `is_complete` is
-- not cut off at 2^64, which concerns only the lengths from -4 to -1 at an offset below 4.
-- `flush_loop` is recursive on the queue: without a timeout each round takes a packet off or stops.
-- `flush_waiting`, with a timeout, takes the list of what the clock and `poll` say in each round; behind
-- its end `poll` times out. The loops over received buffers, completions and requests are recursive on
-- their lists, to which no round adds.
--
-- Not modelled: the release of memory, and log lines with what only they use; the synchronous calls of
-- zookeeper.c, the rest of `zookeeper_init` and name resolution; the threads of mt_adaptor.c; the names
-- of codes and states; the copy of a hash table library; cli.c and load_gen.c; the server's messages in
-- zookeeper.jute.c, which repeat the pattern of the client's; the Ruby files.
pub mod Prelude
pub mod RecordIo
pub mod Jute
pub mod Path
pub mod Wire
pub mod Session
pub mod Queue
pub mod Auth
pub mod Clock
pub mod Watchers
pub mod Replies
pub mod Connection
mod Examples
