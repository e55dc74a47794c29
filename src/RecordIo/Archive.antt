-- ===== src/RecordIo/Archive.antt =====
-- The archives of recordio.c as state transformers. `host` is the machine's byte order, `realloc n`
-- and `malloc off n` say whether the allocator grants `n` bytes (to the reader at offset `off`).
use ruby_zookeeper.Prelude.{
  ℕ, zero, suc, ◌+◌, ◌-◌, ◌*◌, ◌%◌, ◌^◌, Bool, Option, none, some, List, [], ◌∷◌, ◌++◌, length,
  replicate, read_cells, write_cells, ltb, ◌==◌, if◌then◌else◌, neg, lt_int, sub_int, to_size, Run,
  Void, ok, fail, fault, ◌>>=◌, ◌>>◌, return, defined,
}
use ruby_zookeeper.RecordIo.Bytes.{Host, to_memory, of_memory, htonl, ntohl, htonll}

abbrev pub e2big : ℕ
e2big = 7

abbrev pub enomem : ℕ
enomem = 12

-- `struct buffer`: the null pointer is `none`.
pub record Buffer : Type 0 where
  pub len : ℕ
  pub buff : Option (List ℕ)

-- `struct buff_struct` of an oarchive. The memory is the list of all `len` cells.
pub record OArchive : Type 0 where
  pub len : ℕ
  pub off : ℕ
  pub buffer : Option (List ℕ)

-- `struct buff_struct` of an iarchive, over memory that the caller owns.
pub record IArchive : Type 0 where
  pub len : ℕ
  pub off : ℕ
  pub buffer : List ℕ

-- A cell that is allocated and not yet written.
abbrev blank : ℕ
blank = 0

unfoldable pub create_buffer_oarchive : OArchive
create_buffer_oarchive = record { len = 128; off = 0; buffer = some (replicate 128 blank) }

unfoldable pub create_buffer_iarchive : List ℕ → ℕ → IArchive
create_buffer_iarchive buffer len = record { len = len; off = 0; buffer = buffer }

unfoldable pub get_buffer : OArchive → Option (List ℕ)
get_buffer oa = oa.buffer

unfoldable pub get_buffer_len : OArchive → ℕ
get_buffer_len oa = oa.off

-- `priv->len - priv->off` converted to `size_t`, which the comparison with a `sizeof` does.
abbrev pub room_size : ℕ → ℕ → ℕ
room_size len off = to_size (sub_int len off)

-- `while (s->len < newlen) s->len *= 2`; `none` is a signed overflow, or a loop that does not end.
unfoldable pub double_len : ℕ → ℕ → ℕ → Option ℕ
double_len zero len newlen = none
double_len (suc fuel) len newlen =
    let more = if ltb (len * 2) (2 ^ 31) then double_len fuel (len * 2) newlen else none in
    if lt_int len newlen then more else some len

-- `memcpy(priv->buffer + priv->off, bytes, n)` and `priv->off += n`.
unfoldable pub put_bytes : List ℕ → Run OArchive Void
put_bytes bytes oa = elim oa.buffer [
  | none ↦ fault
  | some cells ↦ elim (write_cells cells oa.off bytes) [
    | none ↦ fault
    | some cells' ↦ ok tt (record oa { off = oa.off + length bytes; buffer = some cells' })
  ]
]

-- `n` bytes from `src`; copying none touches no memory.
unfoldable pub copy_from : Option (List ℕ) → ℕ → Option (List ℕ)
copy_from none n = if n == 0 then some [] else none
copy_from (some cells) n = read_cells cells 0 n

module _ (realloc : ℕ → Bool) where
  unfoldable pub resize_buffer : ℕ → Run OArchive Void
  resize_buffer newlen oa = elim (double_len 32 oa.len newlen) [
    | none ↦ fault
    | some len ↦
        if realloc len
        then elim oa.buffer [
          | none ↦ ok tt (record { len = len; off = oa.off; buffer = some (replicate len blank) })
          | some cells ↦ ok tt (record {
            len = len;
            off = oa.off;
            buffer = some (cells ++ replicate (len - length cells) blank);
          })
        ]
        else fail (neg enomem) (record { len = len; off = oa.off; buffer = none })
  ]

  -- The growth step of each writer: `if (too_small) resize_buffer(priv, priv->len + n)`.
  unfoldable pub reserve : Bool → ℕ → Run OArchive Void
  reserve too_small n oa = if too_small then resize_buffer ((oa.len + n) % 2 ^ 32) oa else ok tt oa

  -- The tail of the writers of buffers and strings: `len` bytes from `src`.
  unfoldable pub put_counted : Option (List ℕ) → ℕ → Run OArchive Void
  put_counted src len oa =
      (do
        reserve (lt_int (sub_int oa.len oa.off) len) len
        bytes ← defined (copy_from src (to_size len))
        put_bytes bytes)
        oa

unfoldable pub oa_start_record : Run OArchive Void
oa_start_record = return tt

unfoldable pub oa_end_record : Run OArchive Void
oa_end_record = return tt

unfoldable pub oa_end_vector : Run OArchive Void
oa_end_vector = return tt

module _ (host : Host) (realloc : ℕ → Bool) where
  unfoldable pub oa_serialize_int : ℕ → Run OArchive Void
  oa_serialize_int d oa =
      (reserve realloc (ltb (room_size oa.len oa.off) 4) 4
          >> put_bytes (to_memory host 4 (htonl host d)))
        oa

  unfoldable pub oa_serialize_long : ℕ → Run OArchive Void
  oa_serialize_long d oa =
      (reserve realloc (ltb (room_size oa.len oa.off) 8) 8
          >> put_bytes (to_memory host 8 (htonll host d)))
        oa

  unfoldable pub oa_start_vector : ℕ → Run OArchive Void
  oa_start_vector count = oa_serialize_int count

  unfoldable pub oa_serialize_bool : ℕ → Run OArchive Void
  oa_serialize_bool i oa =
      (reserve realloc (lt_int (sub_int oa.len oa.off) 1) 1
          >> put_bytes ((if i == 0 then 0 else 1) ∷ []))
        oa

  unfoldable pub oa_serialize_buffer : Option Buffer → Run OArchive Void
  oa_serialize_buffer none = oa_serialize_int (neg 1)
  oa_serialize_buffer (some b) = do
    oa_serialize_int b.len
    if b.len == neg 1 then return tt else put_counted realloc b.buff b.len

  -- After a null string the return code is 0, whatever the write of its length returned. `strlen`
  -- is converted to an int.
  unfoldable pub oa_serialize_string : Option (List ℕ) → Run OArchive Void
  oa_serialize_string none oa = elim (oa_serialize_int (neg 1) oa) [
    | ok _ oa' ↦ ok tt oa'
    | fail _ oa' ↦ ok tt oa'
    | fault ↦ fault
  ]
  oa_serialize_string (some s) oa =
      let len = length s % 2 ^ 32 in (oa_serialize_int len >> put_counted realloc (some s) len) oa

-- `memcpy(to, priv->buffer + priv->off, n)` and `priv->off += n`.
unfoldable pub take_bytes : ℕ → Run IArchive (List ℕ)
take_bytes n ia = elim (read_cells ia.buffer ia.off n) [
  | none ↦ fault
  | some bytes ↦ ok bytes (record ia { off = ia.off + n })
]

-- `-E2BIG` when the test says that the bytes left are too few.
unfoldable pub check_room : Bool → Run IArchive Void
check_room too_few ia = if too_few then fail (neg e2big) ia else ok tt ia

unfoldable pub ia_start_record : Run IArchive Void
ia_start_record = return tt

unfoldable pub ia_end_record : Run IArchive Void
ia_end_record = return tt

unfoldable pub ia_end_vector : Run IArchive Void
ia_end_vector = return tt

-- `if ((priv->len - priv->off) < len) return -E2BIG`
unfoldable pub check_remaining : ℕ → Run IArchive Void
check_remaining len ia = check_room (lt_int (sub_int ia.len ia.off) len) ia

-- A `char` is signed.
unfoldable pub ia_deserialize_bool : Run IArchive ℕ
ia_deserialize_bool ia =
    (do
      check_room (lt_int (sub_int ia.len ia.off) 1)
      bytes ← take_bytes 1
      return (elim bytes [ [] ↦ 0 | b ∷ _ ↦ if ltb b 128 then b else b + 2 ^ 32 - 256 ]))
      ia

module _ (host : Host) where
  unfoldable pub ia_deserialize_int : Run IArchive ℕ
  ia_deserialize_int ia =
      (do
        check_room (ltb (room_size ia.len ia.off) 4)
        bytes ← take_bytes 4
        return (ntohl host (of_memory host bytes)))
        ia

  unfoldable pub ia_deserialize_long : Run IArchive ℕ
  ia_deserialize_long ia =
      (do
        check_room (ltb (room_size ia.len ia.off) 8)
        bytes ← take_bytes 8
        return (htonll host (of_memory host bytes)))
        ia

  unfoldable pub ia_start_vector : Run IArchive ℕ
  ia_start_vector = ia_deserialize_int

module _ (malloc : ℕ → ℕ → Bool) where
  -- `malloc(size)`, then the copy of `n` bytes into it.
  unfoldable pub alloc_bytes : ℕ → ℕ → Run IArchive (List ℕ)
  alloc_bytes size n ia = if malloc ia.off size then take_bytes n ia else fail (neg enomem) ia

  -- What `ia_deserialize_buffer` does after the length.
  unfoldable pub buffer_body : ℕ → Run IArchive Buffer
  buffer_body len =
      check_remaining len
      >> (if len == neg 1
          then return (record { len = len; buff = none })
          else alloc_bytes (to_size len) (to_size len) >>= λ bytes.
              return (record { len = len; buff = some bytes }))

module _ (host : Host) (malloc : ℕ → ℕ → Bool) where
  unfoldable pub ia_deserialize_buffer : Run IArchive Buffer
  ia_deserialize_buffer = ia_deserialize_int host >>= buffer_body malloc

  -- The string that is read is terminated by a 0 that is written behind its `len` bytes.
  unfoldable pub ia_deserialize_string : Run IArchive (Option (List ℕ))
  ia_deserialize_string = do
    len ← ia_deserialize_int host
    check_remaining len
    bytes ← alloc_bytes malloc (to_size ((len + 1) % 2 ^ 32)) (to_size len)
    return (some bytes)
