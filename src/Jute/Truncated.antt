-- ===== src/Jute/Truncated.antt =====
-- Vectors of strings in packets that end too early.
use ruby_zookeeper.Prelude.{
  length, replicate, All, read_cells, length-drop, Outcome, ok, fail, fault, Run, ◌>>=◌, return,
  bind-ok, bind-fail, bind-fault, Outcome-cases, ltb, ◌==◌, neg, lt_int, sub_int, to_size,
  Bool-cases, Option-cases, ℕ, zero, suc, ◌+◌, ◌-◌, ◌*◌, ◌%◌, ◌^◌, ◌<◌, ◌≡◌, refl, sym, ap, ◌∙◌,
  inl, inr, Bool, true, false, ◌||◌, none, some, List, [], ◌∷◌, ◌++◌, arith,
}
use ruby_zookeeper.Jute.Deserialize.{deserialize_string_vector}
use ruby_zookeeper.Jute.Types.{CString}
use ruby_zookeeper.Jute.Vector.{loop_count, concat, deserialize_elements, deserialize_vector}
use ruby_zookeeper.RecordIo.{Host, be, of_memory, ntohl}
use ruby_zookeeper.RecordIo.Archive.{
  e2big, IArchive, room_size, take_bytes, check_room, ia_end_vector, check_remaining,
  ia_deserialize_int, ia_start_vector, alloc_bytes, ia_deserialize_string,
}
use ruby_zookeeper.RecordIo.Read.{Left, IsText, read_int, read_string}
use ruby_zookeeper.RecordIo.Write.{string_bytes}
use mathlib.Core.List.{append_assoc, append-nil}

-- A step leaves the memory of the archive and its length alone.
abbrev KeepsAfter : {A : Type 0} → IArchive → Outcome IArchive A → Type 0
KeepsAfter ia (ok a ia') = (ia'.len ≡ ia.len) × (ia'.buffer ≡ ia.buffer)
KeepsAfter ia (fail rc ia') = Unit {0}
KeepsAfter ia fault = Unit {0}

record Keeps {A : Type 0} (m : Run IArchive A) : Type 0 where
  at : (ia : IArchive) → KeepsAfter ia (m ia)

KeepsAfter-trans :
    {B : Type 0} (ia ia' : IArchive) (o : Outcome IArchive B)
    → (ia'.len ≡ ia.len) × (ia'.buffer ≡ ia.buffer)
    → KeepsAfter ia' o
    → KeepsAfter ia o
KeepsAfter-trans ia ia' (ok b ia'') one two = (two.0 ∙ one.0, two.1 ∙ one.1)
KeepsAfter-trans ia ia' (fail rc ia'') one two = tt
KeepsAfter-trans ia ia' fault one two = tt

Keeps-bind :
    {A B : Type 0} (m : Run IArchive A) (f : A → Run IArchive B)
    → Keeps m
    → ((a : A) → Keeps (f a))
    → Keeps (m >>= f)
Keeps-bind m f first second = record {
  at = λ ia. elim (Outcome-cases (m ia)) [
    | inl (a, ia', e) ↦
        let one : (ia'.len ≡ ia.len) × (ia'.buffer ≡ ia.buffer) = rw e at (first.at ia) in
        rw (bind-ok m f e) (KeepsAfter-trans ia ia' (f a ia') one ((second a).at ia'))
    | inr (inl (rc, ia', e)) ↦ rw (bind-fail m f e) tt
    | inr (inr e) ↦ rw (bind-fault m f e) tt
  ];
}

take_bytes-Keeps : (n : ℕ) → Keeps (take_bytes n)
unfolding take_bytes
take_bytes-Keeps n = record {
  at = λ ia. elim (Option-cases (read_cells ia.buffer ia.off n)) [
    | inl e ↦ rw (e, take_bytes) tt
    | inr (bytes, e) ↦ rw (e, take_bytes) (refl, refl)
  ];
}

check_room-Keeps : (few : Bool) → Keeps (check_room few)
unfolding check_room
check_room-Keeps true = record { at = λ ia. tt }
check_room-Keeps false = record { at = λ ia. (refl, refl) }

alloc_bytes-Keeps : (malloc : ℕ → ℕ → Bool) (size n : ℕ) → Keeps (alloc_bytes malloc size n)
unfolding alloc_bytes
alloc_bytes-Keeps malloc size n = record {
  at = λ ia. elim (Bool-cases (malloc ia.off size)) [
    | inl e ↦ rw e ((take_bytes-Keeps n).at ia)
    | inr e ↦ rw e tt
  ];
}

ia_deserialize_int-Keeps : (host : Host) → Keeps (ia_deserialize_int host)
unfolding ia_deserialize_int
ia_deserialize_int-Keeps host = record {
  at = λ ia.
      (Keeps-bind (check_room (ltb (room_size ia.len ia.off) 4)) _
          (check_room-Keeps (ltb (room_size ia.len ia.off) 4))
          (λ _.
            Keeps-bind (take_bytes 4) (λ bytes. return (ntohl host (of_memory host bytes)))
              (take_bytes-Keeps 4) (λ bytes. record { at = λ ia'. (refl, refl) }))).at
        ia;
}

ia_deserialize_string-Keeps :
    (malloc : ℕ → ℕ → Bool) (host : Host) → Keeps (ia_deserialize_string host malloc)
unfolding ia_deserialize_string check_remaining
ia_deserialize_string-Keeps malloc host =
    Keeps-bind (ia_deserialize_int host) _ (ia_deserialize_int-Keeps host) (λ len.
      Keeps-bind (check_remaining len) _
        (record { at = λ ia. (check_room-Keeps (lt_int (sub_int ia.len ia.off) len)).at ia })
        (λ _.
          Keeps-bind (alloc_bytes malloc (to_size ((len + 1) % 2 ^ 32)) (to_size len))
            (λ bytes. return (some bytes))
            (alloc_bytes-Keeps malloc (to_size ((len + 1) % 2 ^ 32)) (to_size len))
            (λ bytes. record { at = λ ia'. (refl, refl) })))

-- Where nothing is left of an archive that is as long as its memory, no string can be read.
string-ended :
    (malloc : ℕ → ℕ → Bool) (host : Host) (ia : IArchive)
    → Left [] ia []
    → ia.len ≡ length ia.buffer
    → ia_deserialize_string host malloc ia ≡ fail (neg e2big) ia
unfolding ia_deserialize_string ia_deserialize_int check_room
string-ended malloc host ia h whole =
    let size = ap (λ (l : List ℕ). length l) h.bytes in
    let few : ltb (room_size ia.len ia.off) 4 ≡ true =
      ground (arith, size, length-drop ia.off ia.buffer, h.fits, h.room, whole, h.small) in
    let stopped : ia_deserialize_int host ia ≡ fail (neg e2big) ia = rw few refl in
    bind-fail (ia_deserialize_int host) _ stopped

module _ (malloc : ℕ → ℕ → Bool) (granted : (off n : ℕ) → malloc off n ≡ true) (host : Host) where
  elements-cut :
      (xs : List CString) (n : ℕ) (ia : IArchive)
      → All IsText xs
      → length xs < n
      → Left [] ia (concat string_bytes xs ++ [])
      → ia.len ≡ length ia.buffer
      → (ia' : IArchive) × (deserialize_elements
            (ia_deserialize_string host malloc)
            (λ _. none)
            none
            n
            ia
          ≡ ok (xs ++ replicate (n - length xs) none) ia')
  unfolding deserialize_elements
  elements-cut [] zero ia texts more h whole = absurd (omega arith)
  elements-cut [] (suc n) ia texts more h whole =
      let missing : suc n - 0 ≡ suc n = omega arith in
      (ia, rw (string-ended malloc host ia h whole, deserialize_elements) (rw missing refl))
  elements-cut (x ∷ xs) zero ia texts more h whole = absurd (omega arith)
  elements-cut (x ∷ xs) (suc n) ia texts more h whole =
      let (ia', run, h') =
        (read_string malloc granted host x texts.0).run [] ia (concat string_bytes xs ++ [])
          (rw append_assoc at h) in
      let same : (ia'.len ≡ ia.len) × (ia'.buffer ≡ ia.buffer) =
        rw run at ((ia_deserialize_string-Keeps malloc host).at ia) in
      let whole' : ia'.len ≡ length ia'.buffer =
        same.0 ∙ whole ∙ ap (λ (l : List ℕ). length l) (sym same.1) in
      let fewer : n - length xs ≡ suc n - suc (length xs) = omega arith in
      let (ia'', runs) = elements-cut xs n ia' texts.1 (omega arith) h' whole' in
      (
        ia'',
        rw (run, deserialize_elements)
            (bind-ok (deserialize_elements (ia_deserialize_string host malloc) (λ _. none) none n)
                (λ ys. return (x ∷ ys)) runs
              ∙ ap (λ k. ok (x ∷ (xs ++ replicate k none)) ia'') fewer),
      )

  -- If memory is granted: `deserialize_String_vector` on a packet shorter than 2^31 bytes that says that
  -- it has `count` strings, a positive int, and ends behind the first of them, `xs`, none of which is a
  -- null pointer or longer than 2^28 bytes, returns no error. It gives a vector of `count` strings, of
  -- which those that are missing in the packet are null pointers.
  pub deserialize_string_vector-cut :
      (count : ℕ) (xs : List CString) (ia : IArchive)
      → All IsText xs
      → length xs < count
      → count < 2 ^ 31
      → Left [] ia (be 4 count ++ concat string_bytes xs)
      → ia.len ≡ length ia.buffer
      → (ia' : IArchive) × (deserialize_string_vector host malloc ia
          ≡ ok (record { count = count; elements = xs ++ replicate (count - length xs) none }) ia')
  unfolding deserialize_string_vector deserialize_vector ia_end_vector ia_start_vector
  deserialize_string_vector-cut count xs ia texts more small h whole =
      let (ia', run, h') =
        (read_int malloc granted host count (omega arith)).run [] ia (concat string_bytes xs ++ [])
          (rw (append-nil (concat string_bytes xs)) h) in
      let same : (ia'.len ≡ ia.len) × (ia'.buffer ≡ ia.buffer) =
        rw run at ((ia_deserialize_int-Keeps host).at ia) in
      let whole' : ia'.len ≡ length ia'.buffer =
        same.0 ∙ whole ∙ ap (λ (l : List ℕ). length l) (sym same.1) in
      let rounds : loop_count count ≡ count = ground arith in
      let allocated : (loop_count count == 0 || malloc ia'.off (to_size count * 8)) ≡ true =
        ground (arith, granted ia'.off (to_size count * 8)) in
      let (ia'', runs) = elements-cut xs count ia' texts more h' whole' in
      let read = deserialize_elements (ia_deserialize_string host malloc) (λ _. none) none in
      let runs' : read (loop_count count) ia' ≡ ok (xs ++ replicate (count - length xs) none) ia'' =
        ap (λ n. read n ia') rounds ∙ runs in
      (
        ia'',
        rw (run, deserialize_vector) (rw allocated (bind-ok (read (loop_count count)) _ runs')),
      )
