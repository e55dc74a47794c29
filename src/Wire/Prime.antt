-- ===== src/Wire/Prime.antt =====
-- The two messages of the handshake, which zookeeper.c copies field by field without an archive.
use ruby_zookeeper.Prelude.{
  length, take, drop, read_cells, write_cells, length-append, take-append, drop-append, drop-drop,
  length-drop, take_all, leb, ℕ, ◌+◌, ◌^◌, ◌≤◌, ◌<◌, ◌≡◌, refl, sym, ap, ◌∙◌, true, Option, none,
  some, List, [], ◌∷◌, ◌++◌, arith,
}
use ruby_zookeeper.Jute.Format.{connect_request_bytes}
use ruby_zookeeper.RecordIo.{
  Host, be, to_memory, of_memory, htonl, ntohl, htonll, to_memory-htonl, to_memory-htonll, ntohl-be,
  htonll-be,
}
use mathlib.Core.List.{append_assoc, append-nil}

-- `struct connect_req`
pub record ConnectReq : Type 0 where
  pub protocol_version : ℕ
  pub last_zxid_seen : ℕ
  pub time_out : ℕ
  pub session_id : ℕ
  pub passwd_len : ℕ
  pub passwd : List ℕ

-- `struct prime_struct`
pub record PrimeStruct : Type 0 where
  pub len : ℕ
  pub protocol_version : ℕ
  pub time_out : ℕ
  pub session_id : ℕ
  pub passwd_len : ℕ
  pub passwd : List ℕ

-- `memcpy(buffer + offset, field, sizeof(field))` and `offset + sizeof(field)`, field after field;
-- `none` is a write behind the end.
unfoldable pub copy_fields : List (List ℕ) → ℕ → List ℕ → Option (List ℕ)
copy_fields [] offset buffer = some buffer
copy_fields (field ∷ rest) offset buffer = elim (write_cells buffer offset field) [
  | none ↦ none
  | some buffer' ↦ copy_fields rest (offset + length field) buffer'
]

unfoldable pub serialize_prime_connect : Host → ConnectReq → List ℕ → Option (List ℕ)
serialize_prime_connect host req buffer =
    copy_fields
      (to_memory host 4 (htonl host req.protocol_version)
        ∷ to_memory host 8 (htonll host req.last_zxid_seen)
        ∷ to_memory host 4 (htonl host req.time_out)
        ∷ to_memory host 8 (htonll host req.session_id)
        ∷ to_memory host 4 (htonl host req.passwd_len)
        ∷ req.passwd
        ∷ [])
      0 buffer

-- The field of `size` bytes at an offset; `none` is a read behind the end.
unfoldable pub deserialize_prime_response : Host → List ℕ → Option PrimeStruct
deserialize_prime_response host buffer = elim (read_cells buffer 0 40) [
  | none ↦ none
  | some _ ↦ some (record {
    len = ntohl host (of_memory host (take 4 (drop 0 buffer)));
    protocol_version = ntohl host (of_memory host (take 4 (drop 4 buffer)));
    time_out = ntohl host (of_memory host (take 4 (drop 8 buffer)));
    session_id = htonll host (of_memory host (take 8 (drop 12 buffer)));
    passwd_len = ntohl host (of_memory host (take 4 (drop 20 buffer)));
    passwd = take 16 (drop 24 buffer);
  })
]

abbrev all_of : List (List ℕ) → List ℕ
all_of [] = []
all_of (f ∷ fs) = f ++ all_of fs

write_cells-behind :
    (pre field rest : List ℕ)
    → length field ≤ length rest
    → write_cells (pre ++ rest) (length pre) field
      ≡ some ((pre ++ field) ++ drop (length field) rest)
write_cells-behind pre field rest fits =
    let inside : leb (length pre + length field) (length (pre ++ rest)) ≡ true =
      ground (arith, length-append pre rest) in
    let behind : drop (length pre + length field) (pre ++ rest) ≡ drop (length field) rest =
      drop-drop (length pre) (length field) (pre ++ rest)
      ∙ ap (drop (length field)) (drop-append pre rest) in
    rw (inside, take-append pre rest, behind)
      (ap (λ b. some b) (sym (append_assoc pre field (drop (length field) rest))))

copy_fields-all_of :
    (fields : List (List ℕ)) (pre rest : List ℕ)
    → length (all_of fields) ≡ length rest
    → copy_fields fields (length pre) (pre ++ rest) ≡ some (pre ++ all_of fields)
unfolding copy_fields
copy_fields-all_of [] pre [] e = refl
copy_fields-all_of [] pre (r ∷ rest) e = absurd (omega arith)
copy_fields-all_of (f ∷ fs) pre rest e =
    let size = length-append f (all_of fs) in
    let left : length (all_of fs) ≡ length (drop (length f) rest) =
      omega (arith, length-drop (length f) rest) in
    let more = copy_fields-all_of fs (pre ++ f) (drop (length f) rest) left in
    let step = write_cells-behind pre f rest (omega arith) in
    let at_field = length-append pre f in
    rw (step, copy_fields) (rw at_field at more) ∙ ap (λ b. some b) (append_assoc pre f (all_of fs))

-- For a request whose fields fit their wire types, with a password of 16 bytes, and a buffer of 44 bytes:
-- what `serialize_prime_connect` writes is the wire format of the jute message ConnectRequest, on a host of
-- either byte order.
pub serialize_prime_connect-bytes :
    (host : Host) (req : ConnectReq) (buffer : List ℕ)
    → req.last_zxid_seen < 2 ^ 64
    → req.session_id < 2 ^ 64
    → req.passwd_len ≡ 16
    → length req.passwd ≡ 16
    → length buffer ≡ 44
    → serialize_prime_connect host req buffer
      ≡ some (
          connect_request_bytes (record {
            protocol_version = req.protocol_version;
            last_zxid_seen = req.last_zxid_seen;
            time_out = req.time_out;
            session_id = req.session_id;
            passwd = record { len = 16; buff = some req.passwd };
          }))
unfolding serialize_prime_connect
serialize_prime_connect-bytes host req buffer zxid_ok session_ok len_ok passwd_ok size =
    let e =
      copy_fields-all_of
        (be 4 req.protocol_version
          ∷ be 8 req.last_zxid_seen
          ∷ be 4 req.time_out
          ∷ be 8 req.session_id
          ∷ be 4 16
          ∷ req.passwd
          ∷ [])
        [] buffer (omega (arith, ap (λ (l : List ℕ). length l) (append-nil req.passwd))) in
    rw
      (
        to_memory-htonl host req.protocol_version,
        to_memory-htonll host req.last_zxid_seen zxid_ok,
        to_memory-htonl host req.time_out,
        to_memory-htonll host req.session_id session_ok,
        len_ok,
        to_memory-htonl host 16,
      )
      (rw (append-nil req.passwd) at e)

-- The wire format of the answer, its length first.
abbrev pub prime_bytes : PrimeStruct → List ℕ
prime_bytes r =
    be 4 r.len
    ++ (be 4 r.protocol_version
        ++ (be 4 r.time_out ++ (be 8 r.session_id ++ (be 4 r.passwd_len ++ r.passwd))))

-- For every answer whose fields fit their wire types, with a password of 16 bytes, on a host of either byte
-- order: `deserialize_prime_response` reads from its 40 bytes the fields that were sent.
pub deserialize_prime_response-bytes :
    (host : Host) (r : PrimeStruct)
    → r.len < 2 ^ 32
    → r.protocol_version < 2 ^ 32
    → r.time_out < 2 ^ 32
    → r.session_id < 2 ^ 64
    → r.passwd_len < 2 ^ 32
    → length r.passwd ≡ 16
    → deserialize_prime_response host (prime_bytes r) ≡ some r
unfolding deserialize_prime_response
deserialize_prime_response-bytes host r len_ok version_ok time_ok session_ok passwd_len_ok size =
    let inside : leb 40 (length (prime_bytes r)) ≡ true = ground arith in
    let filled : read_cells (prime_bytes r) 0 40 ≡ some (take 40 (prime_bytes r)) =
      rw inside refl in
    let password : take 16 r.passwd ≡ r.passwd = take_all 16 r.passwd (omega arith) in
    rw (filled, deserialize_prime_response)
      (rw
        (
          ntohl-be host r.len len_ok,
          ntohl-be host r.protocol_version version_ok,
          ntohl-be host r.time_out time_ok,
          htonll-be host r.session_id session_ok,
          ntohl-be host r.passwd_len passwd_len_ok,
          password,
        )
        refl)
