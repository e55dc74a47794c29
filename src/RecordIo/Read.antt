-- ===== src/RecordIo/Read.antt =====
-- What the readers of recordio.c take from an archive that begins with given bytes.
use mathlib.Core.List.{append_assoc}
use ruby_zookeeper.Prelude.{
  ℕ, ◌+◌, ◌-◌, ◌%◌, ◌^◌, ◌≤◌, ◌<◌, ◌≡◌, refl, ap, ◌∙◌, Bool, true, Option, none, some, List, [],
  ◌∷◌, ◌++◌, length, take, drop, length-append, take-append_eq, drop-append_eq, drop-drop,
  length-drop, leb, read_cells, bind-ok, Run, ok, return, ◌>>=◌, ◌>>◌, arith, ltb, neg,
  if◌then◌else◌, ◌==◌, to_size, lt_int, sub_int, false,
}
use ruby_zookeeper.RecordIo.Bytes.{Host, be, of_memory, ntohl, htonll, ntohl-be, htonll-be}
use ruby_zookeeper.RecordIo.Grow.{max_message}
use ruby_zookeeper.RecordIo.Write.{
  IsString, string_bytes, buffer_of, IsBuffer, buffer_bytes, bytes-buffer_of,
}
use ruby_zookeeper.RecordIo.Archive.{
  IArchive, ia_start_record, ia_end_record, Buffer, take_bytes, check_room, check_remaining,
  room_size, alloc_bytes, buffer_body, ia_deserialize_int, ia_deserialize_long, ia_deserialize_bool,
  ia_deserialize_buffer, ia_deserialize_string,
}

-- What is left to read in `ia` is `bs`, with `behind` in the memory after it. The length of the
-- archive allows that much, and may be more than that of the memory.
pub record Left (behind : List ℕ) (ia : IArchive) (bs : List ℕ) : Type 0 where
  pub bytes : drop ia.off ia.buffer ≡ bs ++ behind
  pub room : ia.off + length bs ≤ ia.len
  pub fits : ia.off ≤ length ia.buffer
  pub small : ia.len < 2 ^ 31

-- `m` takes the bytes `bs` from any archive that begins with them, and returns `a`.
abbrev Takes : {A : Type 0} → Run IArchive A → List ℕ → A → Type 0
Takes m bs a =
    (behind : List ℕ) (ia : IArchive) (rest : List ℕ)
    → Left behind ia (bs ++ rest)
    → (ia' : IArchive) × (m ia ≡ ok a ia') × Left behind ia' rest

-- The same as a type of its own.
pub record Reads {A : Type 0} (m : Run IArchive A) (bs : List ℕ) (a : A) : Type 0 where
  pub run : Takes m bs a

Takes-bind :
    {A B : Type 0} (m : Run IArchive A) (f : A → Run IArchive B) (as' bs : List ℕ) (a : A) (b : B)
    → Takes m as' a
    → Takes (f a) bs b
    → Takes (m >>= f) (as' ++ bs) b
Takes-bind m f as' bs a b first second behind ia rest h =
    let (ia', run, h') = first behind ia (bs ++ rest) (rw append_assoc at h) in
    let (ia'', run', h'') = second behind ia' rest h' in (ia'', bind-ok m f run ∙ run', h'')

-- The bytes left are no more than the lengths say.
length-Left :
    (behind : List ℕ) (ia : IArchive) (bs : List ℕ)
    → Left behind ia bs
    → length bs ≤ ia.len - ia.off
length-Left behind ia bs h = omega (arith, h.room)

take_bytes-Takes : (bs : List ℕ) → Takes (take_bytes (length bs)) bs bs
unfolding take_bytes
take_bytes-Takes bs behind ia rest h =
    let n = length bs in
    let start : drop ia.off ia.buffer ≡ bs ++ (rest ++ behind) =
      h.bytes ∙ append_assoc bs rest behind in
    let size = length-append bs (rest ++ behind) in
    let total = ap (λ (l : List ℕ). length l) start in
    let inside : leb (ia.off + n) (length ia.buffer) ≡ true =
      ground (arith, length-drop ia.off ia.buffer, length-append bs rest, h.fits) in
    let got : take n (drop ia.off ia.buffer) ≡ bs =
      ap (take n) start ∙ take-append_eq n bs (rest ++ behind) refl in
    let cells : read_cells ia.buffer ia.off n ≡ some bs = rw (inside, got) refl in
    (
      record ia { off = ia.off + n },
      rw (cells, take_bytes) refl,
      record {
        bytes =
            drop-drop ia.off n ia.buffer
            ∙ ap (drop n) start
            ∙ drop-append_eq n bs (rest ++ behind) refl;
        room = omega (arith, h.room, length-append bs rest);
        fits = omega (arith, h.fits, length-drop ia.off ia.buffer);
        small = h.small;
      },
    )

module _ (host : Host) where
  ia_deserialize_int-Takes : (v : ℕ) → v < 2 ^ 32 → Takes (ia_deserialize_int host) (be 4 v) v
  unfolding ia_deserialize_int check_room
  ia_deserialize_int-Takes v lt behind ia rest h =
      let size : length (be 4 v ++ rest) ≤ ia.len - ia.off =
        length-Left behind ia (be 4 v ++ rest) h in
      let (ia', run, h') = take_bytes-Takes (be 4 v) behind ia rest h in
      let roomy : ltb (room_size ia.len ia.off) 4 ≡ false = ground arith in
      (
        ia',
        rw roomy (
            bind-ok (take_bytes 4) (λ bytes. return (ntohl host (of_memory host bytes))) run
            ∙ ap (λ w. ok w ia') (ntohl-be host v lt)),
        h',
      )

  ia_deserialize_long-Takes : (v : ℕ) → v < 2 ^ 64 → Takes (ia_deserialize_long host) (be 8 v) v
  unfolding ia_deserialize_long check_room
  ia_deserialize_long-Takes v lt behind ia rest h =
      let size : length (be 8 v ++ rest) ≤ ia.len - ia.off =
        length-Left behind ia (be 8 v ++ rest) h in
      let (ia', run, h') = take_bytes-Takes (be 8 v) behind ia rest h in
      let roomy : ltb (room_size ia.len ia.off) 8 ≡ false = ground arith in
      (
        ia',
        rw roomy (
            bind-ok (take_bytes 8) (λ bytes. return (htonll host (of_memory host bytes))) run
            ∙ ap (λ w. ok w ia') (htonll-be host v lt)),
        h',
      )

ia_deserialize_bool-Takes :
    (i : ℕ) → i < 2 → Takes ia_deserialize_bool ((if i == 0 then 0 else 1) ∷ []) i
unfolding ia_deserialize_bool check_room
ia_deserialize_bool-Takes i lt behind ia rest h =
    let b : ℕ = if i == 0 then 0 else 1 in
    let size : length ((b ∷ []) ++ rest) ≤ ia.len - ia.off =
      length-Left behind ia ((b ∷ []) ++ rest) h in
    let (ia', run, h') = take_bytes-Takes (b ∷ []) behind ia rest h in
    let roomy : lt_int (sub_int ia.len ia.off) 1 ≡ false = ground arith in
    let same : (if ltb b 128 then b else b + 2 ^ 32 - 256) ≡ i = ground arith in
    (ia', rw roomy (bind-ok (take_bytes 1) _ run ∙ ap (λ w. ok w ia') same), h')

-- The check before the bytes of a string or buffer passes when they are all there.
check_remaining-Takes :
    (s behind : List ℕ) (ia : IArchive) (rest : List ℕ)
    → length s ≤ max_message
    → Left behind ia (s ++ rest)
    → check_remaining (length s) ia ≡ ok tt ia
unfolding check_remaining check_room
check_remaining-Takes s behind ia rest short h =
    ground (arith, length-Left behind ia (s ++ rest) h, length-append s rest)

module _ (malloc : ℕ → ℕ → Bool) (granted : (off n : ℕ) → malloc off n ≡ true) where
  alloc_bytes-Takes :
      (size : ℕ) (s : List ℕ)
      → length s ≤ max_message
      → Takes (alloc_bytes malloc size (to_size (length s))) s s
  unfolding alloc_bytes
  alloc_bytes-Takes size s short behind ia rest h =
      let e : to_size (length s) ≡ length s = ground arith in
      rw (granted ia.off size, e) (take_bytes-Takes s behind ia rest h)

  counted-Takes :
      {A : Type 0} (g : List ℕ → A) (size : ℕ) (s : List ℕ)
      → length s ≤ max_message
      → Takes
          (check_remaining (length s)
            >> (alloc_bytes malloc size (to_size (length s)) >>= λ bytes. return (g bytes)))
          s
          (g s)
  counted-Takes g size s short behind ia rest h =
      let fetch = alloc_bytes malloc size (to_size (length s)) in
      let (ia', run, h') = alloc_bytes-Takes size s short behind ia rest h in
      (
        ia',
        bind-ok (check_remaining (length s)) (λ _. fetch >>= λ bytes. return (g bytes))
              (check_remaining-Takes s behind ia rest short h)
            ∙ bind-ok fetch (λ bytes. return (g bytes)) run,
        h',
      )

  buffer_body-Takes :
      (s : List ℕ)
      → length s ≤ max_message
      → Takes (buffer_body malloc (length s)) s (buffer_of (some s))
  unfolding buffer_body
  buffer_body-Takes s short =
      let e : (length s == neg 1) ≡ false = ground arith in
      rw e (
        counted-Takes (λ bytes. record { len = length s; buff = some bytes }) (to_size (length s)) s
          short)

  null_body-Takes : Takes (buffer_body malloc (neg 1)) [] (buffer_of none)
  unfolding buffer_body check_remaining check_room
  null_body-Takes behind ia rest h = (ia, ground (arith, length-Left behind ia rest h), h)

  module _ (host : Host) where
    ia_deserialize_string-Takes :
        (s : List ℕ)
        → length s ≤ max_message
        → Takes (ia_deserialize_string host malloc) (string_bytes (some s)) (some s)
    unfolding ia_deserialize_string
    ia_deserialize_string-Takes s short =
        Takes-bind (ia_deserialize_int host) _ (be 4 (length s)) s (length s) (some s)
          (ia_deserialize_int-Takes host (length s) (omega arith))
          (counted-Takes some (to_size ((length s + 1) % 2 ^ 32)) s short)

    ia_deserialize_buffer-Takes :
        (b : Option (List ℕ))
        → IsString b
        → Takes (ia_deserialize_buffer host malloc) (string_bytes b) (buffer_of b)
    unfolding ia_deserialize_buffer
    ia_deserialize_buffer-Takes none valid =
        Takes-bind (ia_deserialize_int host) (buffer_body malloc) (be 4 (neg 1)) [] (neg 1)
          (buffer_of none) (ia_deserialize_int-Takes host (neg 1) (omega arith)) null_body-Takes
    ia_deserialize_buffer-Takes (some s) valid =
        Takes-bind (ia_deserialize_int host) (buffer_body malloc) (be 4 (length s)) s (length s)
          (buffer_of (some s)) (ia_deserialize_int-Takes host (length s) (omega arith))
          (buffer_body-Takes s valid)

-- A string that is read back as it was written: a null string is not.
abbrev pub IsText : Option (List ℕ) → Type 0
IsText none = ⊥
IsText (some s) = length s ≤ max_message

pub IsText-IsString : (s : Option (List ℕ)) → IsText s → IsString s
IsText-IsString none h = tt
IsText-IsString (some s) h = h

pub Reads-start :
    {B : Type 0} {k : Run IArchive B} {bs : List ℕ} {b : B}
    → Reads k bs b
    → Reads (ia_start_record >> k) bs b
unfolding ia_start_record
Reads-start second = record { run = second.run }

module _ {A B : Type 0} where
  pub Reads-bind :
      {m : Run IArchive A} (f : A → Run IArchive B) {ws bs : List ℕ} {a : A} {b : B}
      → Reads m ws a
      → Reads (f a) bs b
      → Reads (m >>= f) (ws ++ bs) b
  Reads-bind {m} f {ws} {bs} {a} {b} first second = record {
    run = Takes-bind m f ws bs a b first.run second.run;
  }

  -- Two readings in a row.
  pub Reads-both :
      {m : Run IArchive A} {n : Run IArchive B} {ws bs : List ℕ} {a : A} {b : B}
      → Reads m ws a
      → Reads n bs b
      → Reads {A = A × B} (m >>= λ x. n >>= λ y. return (x, y)) (ws ++ bs) (a, b)
  Reads-both {m} {n} {ws} {bs} {a} {b} first second = record {
    run =
        Takes-bind m _ ws bs a (a, b) first.run
          (λ behind ia rest h.
            let (ia', run, h') = second.run behind ia rest h in (ia', bind-ok n _ run, h'));
  }

  -- The last field of a record, and the end of the record.
  pub Reads-end :
      {m : Run IArchive A} (g : A → B) {bs : List ℕ} {a : A}
      → Reads m bs a
      → Reads (m >>= λ x. ia_end_record >> return (g x)) bs (g a)
  unfolding ia_end_record
  Reads-end {m} g first = record {
    run = λ behind ia rest h.
        let (ia', run, h') = first.run behind ia rest h in (ia', bind-ok m _ run, h');
  }

module _ (malloc : ℕ → ℕ → Bool) (granted : (off n : ℕ) → malloc off n ≡ true) (host : Host) where
  pub read_int : (v : ℕ) → v < 2 ^ 32 → Reads (ia_deserialize_int host) (be 4 v) v
  read_int v lt = record { run = ia_deserialize_int-Takes host v lt }

  pub read_long : (v : ℕ) → v < 2 ^ 64 → Reads (ia_deserialize_long host) (be 8 v) v
  read_long v lt = record { run = ia_deserialize_long-Takes host v lt }

  pub read_string :
      (s : Option (List ℕ))
      → IsText s
      → Reads (ia_deserialize_string host malloc) (string_bytes s) s
  read_string none h = absurd h
  read_string (some s) h = record { run = ia_deserialize_string-Takes malloc granted host s h }

  pub read_buffer :
      (b : Buffer) → IsBuffer b → Reads (ia_deserialize_buffer host malloc) (buffer_bytes b) b
  read_buffer b (s, valid, e) =
      rw (e, bytes-buffer_of s)
        (record { run = ia_deserialize_buffer-Takes malloc granted host s valid })

-- A Boolean is one byte, 0 or 1.
pub read_bool : (i : ℕ) → i < 2 → Reads ia_deserialize_bool ((if i == 0 then 0 else 1) ∷ []) i
read_bool i lt = record { run = ia_deserialize_bool-Takes i lt }
