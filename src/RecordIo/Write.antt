-- ===== src/RecordIo/Write.antt =====
-- What the writers of recordio.c append, whatever was written before.
use mathlib.Core.List.{append_assoc, append-nil}
use ruby_zookeeper.Prelude.{
  ℕ, ◌+◌, ◌-◌, ◌%◌, ◌^◌, ◌≤◌, ◌<◌, ◌≡◌, refl, ap, ◌∙◌, Bool, true, Option, none, some, List, [],
  ◌∷◌, ◌++◌, length, take, drop, length-append, length-take_le, length-drop, take-append_eq,
  bind-ok, Run, Void, ok, return, ◌>>=◌, ◌>>◌, arith, ltb, neg, Bool-cases, inl, inr, sym,
  if◌then◌else◌, ◌==◌, take_all, to_size, defined, lt_int, sub_int, false,
}
use ruby_zookeeper.RecordIo.Bytes.{Host, be, to_memory-htonl, to_memory-htonll}
use ruby_zookeeper.RecordIo.Grow.{Holds, max_message, resize_buffer-Holds}
use ruby_zookeeper.RecordIo.Archive.{
  OArchive, Buffer, put_bytes, reserve, oa_start_record, oa_end_record, oa_end_vector,
  oa_serialize_int, oa_serialize_long, oa_serialize_bool, put_counted, copy_from,
  oa_serialize_buffer, oa_serialize_string,
}

-- `m` appends the bytes `bs` to any usable archive that stays within the bound.
abbrev Appends : Run OArchive Void → List ℕ → Type 0
Appends m bs =
    (oa : OArchive) (pre : List ℕ)
    → Holds oa pre
    → length pre + length bs ≤ max_message
    → (oa' : OArchive) × (m oa ≡ ok tt oa') × Holds oa' (pre ++ bs)

-- The same as a type of its own.
pub record Writes (m : Run OArchive Void) (bs : List ℕ) : Type 0 where
  pub run : Appends m bs

Appends-then :
    (m k : Run OArchive Void) (ws bs : List ℕ)
    → Appends m ws
    → Appends k bs
    → Appends (m >> k) (ws ++ bs)
Appends-then m k ws bs first second oa pre h small =
    let (oa', run, h') = first oa pre h (omega (arith, length-append ws bs)) in
    let (oa'', run', h'') =
      second oa' (pre ++ ws) h' (omega (arith, length-append ws bs, length-append pre ws)) in
    (oa'', bind-ok m (λ _. k) run ∙ run', rw append_assoc at h'')

-- A string or buffer of jute: its length, -1 for null, and its bytes.
abbrev pub IsString : Option (List ℕ) → Type 0
IsString none = Unit {0}
IsString (some s) = length s ≤ max_message

abbrev pub string_bytes : Option (List ℕ) → List ℕ
string_bytes none = be 4 (neg 1)
string_bytes (some s) = be 4 (length s) ++ s

abbrev pub buffer_of : Option (List ℕ) → Buffer
buffer_of none = record { len = neg 1; buff = none }
buffer_of (some s) = record { len = length s; buff = some s }

-- A buffer that is null, or has as many bytes as it says.
abbrev pub IsBuffer : Buffer → Type 0
IsBuffer b = (s : Option (List ℕ)) × IsString s × (b ≡ buffer_of s)

abbrev pub pointed_bytes : Option (List ℕ) → List ℕ
pointed_bytes none = []
pointed_bytes (some s) = s

abbrev pub buffer_bytes : Buffer → List ℕ
buffer_bytes b = be 4 b.len ++ pointed_bytes b.buff

pub bytes-buffer_of : (s : Option (List ℕ)) → buffer_bytes (buffer_of s) ≡ string_bytes s
bytes-buffer_of none = refl
bytes-buffer_of (some s) = refl

put_bytes-Holds :
    (oa : OArchive) (pre bytes : List ℕ)
    → Holds oa pre
    → oa.off + length bytes ≤ oa.len
    → (oa' : OArchive) × (put_bytes bytes oa ≡ ok tt oa') × Holds oa' (pre ++ bytes)
unfolding put_bytes
put_bytes-Holds oa pre bytes h room =
    let n = length bytes in
    let back : List ℕ = drop (oa.off + n) h.cells in
    let front : List ℕ = take oa.off h.cells in
    let cells' : List ℕ = front ++ (bytes ++ back) in
    let front_size : length front ≡ oa.off = length-take_le oa.off h.cells (omega arith) in
    let sizes : length cells' ≡ oa.len =
      rw (length-append, length-append, front_size, length-drop) (omega arith) in
    let whole : take (oa.off + n) cells' ≡ pre ++ bytes =
      ap (take (oa.off + n)) (sym (append_assoc front bytes back))
      ∙ take-append_eq (oa.off + n) (front ++ bytes) back
          (omega (arith, length-append front bytes, front_size))
      ∙ ap (λ t. t ++ bytes) h.contents in
    (
      record oa { off = oa.off + n; buffer = some cells' },
      ground arith,
      record {
        cells = cells';
        allocated = refl;
        sized = sizes;
        written = omega (arith, length-append pre bytes);
        fits = room;
        positive = h.positive;
        small = h.small;
        contents = whole;
      },
    )

module _ (realloc : ℕ → Bool) (granted : (n : ℕ) → realloc n ≡ true) where
  reserve-Holds :
      (oa : OArchive) (pre : List ℕ) (n : ℕ)
      → Holds oa pre
      → length pre + n ≤ max_message
      → (oa' : OArchive) × (reserve realloc (ltb (oa.len - oa.off) n) n oa ≡ ok tt oa')
        × Holds oa' pre
        × (oa'.off + n ≤ oa'.len)
  unfolding reserve
  reserve-Holds oa pre n h small = elim (Bool-cases (ltb (oa.len - oa.off) n)) [
    | inl short ↦
        let (oa', run, h', above, kept) =
          resize_buffer-Holds realloc granted oa pre ((oa.len + n) % 2 ^ 32) h (ground arith) in
        (oa', rw short run, h', ground arith)
    | inr enough ↦ (oa, rw enough, h, ground arith)
  ]

  reserve_put :
      (oa : OArchive) (pre bytes : List ℕ) (short : Bool)
      → Holds oa pre
      → length pre + length bytes ≤ max_message
      → short ≡ ltb (oa.len - oa.off) (length bytes)
      → (oa' : OArchive) × ((reserve realloc short (length bytes) >> put_bytes bytes) oa
          ≡ ok tt oa')
        × Holds oa' (pre ++ bytes)
  reserve_put oa pre bytes short h small e =
      let (oa', run, h', room) = reserve-Holds oa pre (length bytes) h small in
      let (oa'', run', h'') = put_bytes-Holds oa' pre bytes h' room in
      (oa'', rw e (bind-ok (reserve realloc _ _) (λ _. put_bytes bytes) run ∙ run'), h'')

  module _ (host : Host) where
    oa_serialize_int-Appends : (d : ℕ) → Appends (oa_serialize_int host realloc d) (be 4 d)
    unfolding oa_serialize_int
    oa_serialize_int-Appends d oa pre h small =
        rw to_memory-htonl (reserve_put oa pre (be 4 d) _ h small (ground arith))

    oa_serialize_long-Appends :
        (d : ℕ) → d < 2 ^ 64 → Appends (oa_serialize_long host realloc d) (be 8 d)
    unfolding oa_serialize_long
    oa_serialize_long-Appends d lt oa pre h small =
        rw (to_memory-htonll host d lt) (reserve_put oa pre (be 8 d) _ h small (ground arith))

    oa_serialize_bool-Appends :
        (i : ℕ) → Appends (oa_serialize_bool host realloc i) ((if i == 0 then 0 else 1) ∷ [])
    unfolding oa_serialize_bool
    oa_serialize_bool-Appends i oa pre h small =
        reserve_put oa pre ((if i == 0 then 0 else 1) ∷ []) _ h small (ground arith)

    copy-whole :
        (s : List ℕ) → length s ≤ max_message → copy_from (some s) (to_size (length s)) ≡ some s
    unfolding copy_from
    copy-whole s short = ground (arith, take_all (length s) s)

    put_counted-Appends :
        (s : List ℕ) → length s ≤ max_message → Appends (put_counted realloc (some s) (length s)) s
    unfolding put_counted
    put_counted-Appends s short oa pre h small =
        let n = length s in
        let (oa', run, h', room) = reserve-Holds oa pre n h small in
        let (oa'', run', h'') = put_bytes-Holds oa' pre s h' room in
        let e : lt_int (sub_int oa.len oa.off) n ≡ ltb (oa.len - oa.off) n = ground arith in
        (
          oa'',
          rw e (
              bind-ok (reserve realloc (ltb (oa.len - oa.off) n) n)
                (λ _. defined (copy_from (some s) (to_size n)) >>= put_bytes) run
              ∙ rw (copy-whole s short) run'),
          h'',
        )

    oa_serialize_string-Appends :
        (s : Option (List ℕ))
        → IsString s
        → Appends (oa_serialize_string host realloc s) (string_bytes s)
    unfolding oa_serialize_string
    oa_serialize_string-Appends none valid oa pre h small =
        let (oa', run, h') = oa_serialize_int-Appends (neg 1) oa pre h small in
        (oa', rw (run, oa_serialize_string), h')
    oa_serialize_string-Appends (some s) valid oa pre h small =
        let e : length s % 2 ^ 32 ≡ length s = omega arith in
        rw e (
          Appends-then _ _ (be 4 (length s)) s (oa_serialize_int-Appends (length s))
            (put_counted-Appends s valid) oa pre h small)

    oa_serialize_buffer-Appends :
        (b : Option (List ℕ))
        → IsString b
        → Appends (oa_serialize_buffer host realloc (some (buffer_of b))) (string_bytes b)
    unfolding oa_serialize_buffer
    oa_serialize_buffer-Appends none valid oa pre h small =
        let (oa', run, h') = oa_serialize_int-Appends (neg 1) oa pre h small in
        (oa', rw (run, oa_serialize_buffer, ◌>>=◌), h')
    oa_serialize_buffer-Appends (some s) valid oa pre h small =
        let e : (length s == neg 1) ≡ false = ground arith in
        rw e (
          Appends-then _ _ (be 4 (length s)) s (oa_serialize_int-Appends (length s))
            (put_counted-Appends s valid) oa pre h small)

pub Writes-then :
    {m k : Run OArchive Void} {ws bs : List ℕ}
    → Writes m ws
    → Writes k bs
    → Writes (m >> k) (ws ++ bs)
Writes-then {m} {k} {ws} {bs} first second = record {
  run = Appends-then m k ws bs first.run second.run;
}

pub Writes-start :
    {k : Run OArchive Void} {bs : List ℕ} → Writes k bs → Writes (oa_start_record >> k) bs
unfolding oa_start_record
Writes-start second = record { run = second.run }

pub Writes-end :
    {m : Run OArchive Void} {bs : List ℕ} → Writes m bs → Writes (m >> oa_end_record) bs
unfolding oa_end_record
Writes-end {m} {bs} first = record {
  run =
      λ oa pre h small. let (oa', run, h') = first.run oa pre h small in (oa', bind-ok m _ run, h');
}

module _ (realloc : ℕ → Bool) (granted : (n : ℕ) → realloc n ≡ true) (host : Host) where
  pub write_int : (d : ℕ) → Writes (oa_serialize_int host realloc d) (be 4 d)
  write_int d = record { run = oa_serialize_int-Appends realloc granted host d }

  pub write_long : (d : ℕ) → d < 2 ^ 64 → Writes (oa_serialize_long host realloc d) (be 8 d)
  write_long d lt = record { run = oa_serialize_long-Appends realloc granted host d lt }

  pub write_bool :
      (i : ℕ) → Writes (oa_serialize_bool host realloc i) ((if i == 0 then 0 else 1) ∷ [])
  write_bool i = record { run = oa_serialize_bool-Appends realloc granted host i }

  pub write_string :
      (s : Option (List ℕ))
      → IsString s
      → Writes (oa_serialize_string host realloc s) (string_bytes s)
  write_string s valid = record { run = oa_serialize_string-Appends realloc granted host s valid }

  pub write_buffer :
      (b : Buffer)
      → IsBuffer b
      → Writes (oa_serialize_buffer host realloc (some b)) (buffer_bytes b)
  write_buffer b (s, valid, e) =
      rw (e, bytes-buffer_of s)
        (record { run = oa_serialize_buffer-Appends realloc granted host s valid })

pub Writes-nil : Writes (return tt) []
Writes-nil = record { run = λ oa pre h small. (oa, refl, rw append-nil h) }

pub Writes-end_vector :
    {m : Run OArchive Void} {bs : List ℕ} → Writes m bs → Writes (m >> oa_end_vector) bs
unfolding oa_end_vector
Writes-end_vector {m} {bs} first = record {
  run =
      λ oa pre h small. let (oa', run, h') = first.run oa pre h small in (oa', bind-ok m _ run, h');
}
