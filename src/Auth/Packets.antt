-- ===== src/Auth/Packets.antt =====
-- What the functions that send authentication data put in the queue.
use ruby_zookeeper.Prelude.{
  length, take, All, ok, Run, ◌>>=◌, return, bind-ok, ◌==◌, if◌then◌else◌, is_neg, ℕ, ◌≤◌, ◌≡◌,
  refl, sym, ap, ◌∙◌, false, Option, some, List, [], ◌∷◌, ◌++◌, arith,
}
use ruby_zookeeper.Auth.{
  AuthInfo, auth_xid, setauth_op, queue_front_buffer_bytes, marshal_auth, send_info_packet,
  send_auths, send_auth_info, copy_cert,
}
use ruby_zookeeper.Jute.Format.{
  IsRequestHeader, request_header_bytes, IsAuthPacket, auth_packet_bytes,
}
use ruby_zookeeper.Jute.Types.{RequestHeader, AuthPacket}
use ruby_zookeeper.Jute.Writers.{write_request_header, write_auth_packet}
use ruby_zookeeper.RecordIo.{be}
use ruby_zookeeper.RecordIo.Grow.{max_message}
use ruby_zookeeper.RecordIo.RoundTrip.{Writes-Packs}
use ruby_zookeeper.RecordIo.Write.{Writes-then}
use ruby_zookeeper.Session.{zok, zmarshallingerror, Env, allocate_buffer}
use ruby_zookeeper.Session.Stream.{IsQueued, pending}
use ruby_zookeeper.Session.Submit.{packet-IsQueued, framed, Grants}
use ruby_zookeeper.Wire.{BufferList}

-- The packet of an entry.
abbrev pub auth_packet : AuthInfo → AuthPacket
auth_packet a = record { type = 0; scheme = some a.scheme; auth = a.auth }

abbrev pub auth_header : RequestHeader
auth_header = record { xid = auth_xid; type = setauth_op }

abbrev pub auth_bytes : AuthInfo → List ℕ
auth_bytes a = request_header_bytes auth_header ++ auth_packet_bytes (auth_packet a)

-- An entry whose packet can be written.
pub record IsAuthInfo (a : AuthInfo) : Type 0 where
  pub packet_ok : IsAuthPacket (auth_packet a)
  pub short : length (auth_bytes a) ≤ max_message

-- The packets of the entries stand in front of the queue, the last one first.
abbrev pub in_front : List AuthInfo → List ℕ → List ℕ
in_front [] rest = rest
in_front (a ∷ auths) rest = in_front auths (framed (auth_bytes a) ++ rest)

-- `m` returns `rc`, and the queue then has the bytes `bs` to send.
pub record Queues (m : Run (List BufferList) ℕ) (rc : ℕ) (bs : List ℕ) (queue : List BufferList)
    : Type 0 where
  pub after : List BufferList
  pub run : m queue ≡ ok rc after
  pub queued : All IsQueued after
  pub bytes : pending after ≡ bs

module _ (env : Env) (g : Grants env) where
  send_info_packet-Queues :
      (a : AuthInfo) (queue : List BufferList)
      → IsAuthInfo a
      → All IsQueued queue
      → Queues (send_info_packet env a) zok (framed (auth_bytes a) ++ pending queue) queue
  unfolding send_info_packet marshal_auth queue_front_buffer_bytes allocate_buffer
  send_info_packet-Queues a queue h hs =
      let bs = auth_bytes a in
      let header_ok : IsRequestHeader auth_header = record {
        xid_ok = omega arith;
        type_ok = omega arith;
      } in
      let packed =
        Writes-Packs
          (Writes-then
            (write_request_header env.realloc g.realloc_ok env.host auth_header header_ok)
            (write_auth_packet env.realloc g.realloc_ok env.host (auth_packet a) h.packet_ok))
          h.short in
      let b : BufferList = record {
        buffer = some packed.cells;
        len = length bs;
        curr_offset = 0;
      } in
      let content : take (length bs) packed.cells ≡ bs =
        ap (λ n. take n packed.cells) (sym packed.size) ∙ packed.packet in
      let nonempty : (length bs == 0) ≡ false = ground arith in
      let allocated : allocate_buffer env (some packed.cells) (length bs) ≡ some b =
        rw (g.buffer_ok (length bs), nonempty) refl in
      record {
        after = b ∷ queue;
        run =
            rw
              (
                packed.run, packed.buffer, packed.size, allocated, send_info_packet,
                queue_front_buffer_bytes,
              )
              refl;
        queued = (packet-IsQueued packed.cells bs content h.short, hs);
        bytes = ap (λ t. (be 4 (length bs) ++ t) ++ pending queue) content;
      }

  send_auths-more :
      (rc : ℕ) (b : AuthInfo) (auths : List AuthInfo) (a : AuthInfo)
      → send_auths env rc (b ∷ (auths ++ (a ∷ [])))
        ≡ (send_info_packet env b >>= λ rc'. send_auths env rc' (auths ++ (a ∷ [])))
  unfolding send_auths
  send_auths-more rc b [] a = refl
  send_auths-more rc b (c ∷ auths) a = refl

  send_auths-Queues :
      (rc : ℕ) (auths : List AuthInfo) (a : AuthInfo) (queue : List BufferList)
      → is_neg rc ≡ false
      → All IsAuthInfo auths
      → All IsQueued queue
      → (rc' : ℕ) × (is_neg rc' ≡ false)
        × Queues (send_auths env rc (auths ++ (a ∷ []))) rc' (in_front auths (pending queue)) queue
  unfolding send_auths
  send_auths-Queues rc [] a queue fine hs qs =
      (rc, fine, record { after = queue; run = refl; queued = qs; bytes = refl })
  send_auths-Queues rc (b ∷ auths) a queue fine hs qs =
      let first = send_info_packet-Queues b queue hs.0 qs in
      let (rc', fine', rest) = send_auths-Queues zok auths a first.after refl hs.1 first.queued in
      (
        rc',
        fine',
        record {
          after = rest.after;
          run =
              ap (λ m. m queue) (send_auths-more rc b auths a)
              ∙ bind-ok (send_info_packet env b) (λ r. send_auths env r (auths ++ (a ∷ [])))
                  first.run
              ∙ rest.run;
          queued = rest.queued;
          bytes = rest.bytes ∙ ap (in_front auths) first.bytes;
        },
      )

  -- If memory is granted and the entries can be written, `send_auth_info` returns ZOK, and the packets of
  -- all entries but the last one stand in front of the queue, in the opposite order.
  pub send_auth_info-Queues :
      (auths : List AuthInfo) (a : AuthInfo) (queue : List BufferList)
      → All IsAuthInfo auths
      → All IsQueued queue
      → Queues (send_auth_info env (auths ++ (a ∷ []))) zok (in_front auths (pending queue)) queue
  unfolding send_auth_info
  send_auth_info-Queues auths a queue hs qs =
      let (rc, fine, sent) = send_auths-Queues 0 auths a queue refl hs qs in
      record {
        after = sent.after;
        run =
            bind-ok (send_auths env 0 (auths ++ (a ∷ [])))
              (λ r. return (if is_neg r then zmarshallingerror else zok)) sent.run
            ∙ rw fine refl;
        queued = sent.queued;
        bytes = sent.bytes;
      }

  -- The entry that `zoo_add_auth` makes.
  abbrev pub new_auth : ℕ → List ℕ → Option (List ℕ) → ℕ → ℕ → ℕ → AuthInfo
  new_auth fresh_state scheme cert cert_len completion data_pointer = record {
    state = fresh_state;
    scheme = scheme;
    auth = copy_cert env cert cert_len;
    completion = completion;
    data_pointer = data_pointer;
  }
