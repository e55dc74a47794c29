-- ===== src/Jute/Vector.antt =====
-- `String_vector` and `ACL_vector`: the code is the same for both, up to the element.
use mathlib.Core.List.{append_assoc}
use ruby_zookeeper.Prelude.{
  ℕ, zero, suc, ◌*◌, ◌^◌, ◌<◌, ◌≡◌, refl, Bool, true, ◌||◌, List, [], ◌∷◌, ◌++◌, length, replicate,
  All, Run, Void, ok, fail, fault, return, ◌>>=◌, ◌>>◌, bind-ok, arith, if◌then◌else◌, ◌==◌, is_neg,
  to_size,
}
use ruby_zookeeper.RecordIo.{Host, be}
use ruby_zookeeper.RecordIo.Archive.{
  OArchive, IArchive, oa_start_vector, oa_end_vector, ia_start_vector, ia_end_vector,
}
use ruby_zookeeper.RecordIo.Write.{Writes, Writes-then, Writes-nil, Writes-end_vector, write_int}
use ruby_zookeeper.RecordIo.Read.{Reads, read_int}

pub record Vector (A : Type 0) : Type 0 where
  pub count : ℕ
  pub elements : List A

-- The rounds of `for (i = 0; i < count; i++)`.
abbrev pub loop_count : ℕ → ℕ
loop_count count = if is_neg count then 0 else count

abbrev pub concat {ℓ} : {A : Type ℓ} → (A → List ℕ) → List A → List ℕ
concat bytes [] = []
concat bytes (x ∷ xs) = bytes x ++ concat bytes xs

module _ {A : Type 0} where
  abbrev pub IsVector : (A → Type 0) → Vector A → Type 0
  IsVector P v = (v.count ≡ length v.elements) × (v.count < 2 ^ 31) × All P v.elements

  abbrev pub vector_bytes : (A → List ℕ) → Vector A → List ℕ
  vector_bytes bytes v = be 4 v.count ++ concat bytes v.elements

  -- Reading `data[i]` behind the end of the array is undefined.
  unfoldable pub serialize_elements : (A → Run OArchive Void) → ℕ → List A → Run OArchive Void
  serialize_elements serialize zero xs = return tt
  serialize_elements serialize (suc n) [] = λ _. fault
  serialize_elements serialize (suc n) (x ∷ xs) = serialize x >> serialize_elements serialize n xs

  unfoldable pub serialize_vector :
      Host → (ℕ → Bool) → (A → Run OArchive Void) → Vector A → Run OArchive Void
  serialize_vector host realloc serialize v = do
    oa_start_vector host realloc v.count
    serialize_elements serialize (loop_count v.count) v.elements
    oa_end_vector

  -- After an element that fails the rest stays as `calloc` left it, and so does what `partial` does
  -- not fill of the element itself.
  unfoldable pub deserialize_elements :
      Run IArchive A → (IArchive → A) → A → ℕ → Run IArchive (List A)
  deserialize_elements deserialize partial blank zero ia = ok [] ia
  deserialize_elements deserialize partial blank (suc n) ia = elim (deserialize ia) [
    | ok x ia' ↦ (deserialize_elements deserialize partial blank n >>= λ xs. return (x ∷ xs)) ia'
    | fail rc ia' ↦ ok (partial ia ∷ replicate n blank) ia'
    | fault ↦ fault
  ]

  -- The return code is that of `end_vector` alone. With no count the loop runs on an uninitialised
  -- one, and elements are written through a null pointer when `calloc` fails.
  unfoldable pub deserialize_vector :
      Host → (ℕ → ℕ → Bool) → ℕ → Run IArchive A → (IArchive → A) → A → Run IArchive (Vector A)
  deserialize_vector host malloc element_size deserialize partial blank ia =
      elim (ia_start_vector host ia) [
        | ok count ia' ↦
            if loop_count count == 0 || malloc ia'.off (to_size count * element_size)
            then (deserialize_elements deserialize partial blank (loop_count count) >>= λ xs.
                  ia_end_vector >> return (record { count = count; elements = xs }))
                ia'
            else fault
        | fail rc ia' ↦ fault
        | fault ↦ fault
      ]

  serialize_elements-Writes :
      (bytes : A → List ℕ) (P : A → Type 0) (serialize : A → Run OArchive Void)
      → ((x : A) → P x → Writes (serialize x) (bytes x))
      → (xs : List A) → All P xs
      → Writes (serialize_elements serialize (length xs) xs) (concat bytes xs)
  unfolding serialize_elements
  serialize_elements-Writes bytes P serialize each [] h = Writes-nil
  serialize_elements-Writes bytes P serialize each (x ∷ xs) h =
      Writes-then (each x h.0) (serialize_elements-Writes bytes P serialize each xs h.1)

  pub write_vector :
      (realloc : ℕ → Bool) (granted : (n : ℕ) → realloc n ≡ true) (host : Host) (bytes : A → List ℕ)
      (P : A → Type 0) (serialize : A → Run OArchive Void)
      → ((x : A) → P x → Writes (serialize x) (bytes x))
      → (v : Vector A) → IsVector P v
      → Writes (serialize_vector host realloc serialize v) (vector_bytes bytes v)
  unfolding serialize_vector oa_start_vector
  write_vector realloc granted host bytes P serialize each v (sized, small, valid) =
      let e : loop_count v.count ≡ length v.elements = ground arith in
      rw e (
        Writes-then (write_int realloc granted host v.count)
          (Writes-end_vector (serialize_elements-Writes bytes P serialize each v.elements valid)))

  deserialize_elements-Reads :
      (bytes : A → List ℕ) (P : A → Type 0) (deserialize : Run IArchive A) (partial : IArchive → A)
      (blank : A)
      → ((x : A) → P x → Reads deserialize (bytes x) x)
      → (xs : List A) → All P xs
      → Reads (deserialize_elements deserialize partial blank (length xs)) (concat bytes xs) xs
  unfolding deserialize_elements
  deserialize_elements-Reads bytes P deserialize partial blank each [] h = record {
    run = λ behind ia rest left. (ia, refl, left);
  }
  deserialize_elements-Reads bytes P deserialize partial blank each (x ∷ xs) h =
      let more = deserialize_elements-Reads bytes P deserialize partial blank each xs h.1 in
      record {
        run = λ behind ia rest left.
            let (ia', run, left') =
              (each x h.0).run behind ia (concat bytes xs ++ rest) (rw append_assoc at left) in
            let (ia'', run', left'') = more.run behind ia' rest left' in
            (
              ia'',
              rw (run, deserialize_elements)
                  (bind-ok (deserialize_elements deserialize partial blank (length xs))
                    (λ ys. return (x ∷ ys)) run'),
              left'',
            );
      }

  pub read_vector :
      (malloc : ℕ → ℕ → Bool) (granted : (off n : ℕ) → malloc off n ≡ true) (host : Host)
      (element_size : ℕ) (bytes : A → List ℕ) (P : A → Type 0) (deserialize : Run IArchive A)
      (partial : IArchive → A) (blank : A)
      → ((x : A) → P x → Reads deserialize (bytes x) x)
      → (v : Vector A) → IsVector P v
      → Reads
          (deserialize_vector host malloc element_size deserialize partial blank)
          (vector_bytes bytes v)
          v
  unfolding deserialize_vector ia_start_vector ia_end_vector
  read_vector malloc granted host element_size bytes P deserialize partial blank each v
        (sized, small, valid) =
      let wide : v.count < 2 ^ 32 = omega arith in
      let loop = deserialize_elements deserialize partial blank in
      let e : loop_count v.count ≡ length v.elements = ground arith in
      let whole : List A → Vector A = λ xs. record { count = v.count; elements = xs } in
      let elements =
        deserialize_elements-Reads bytes P deserialize partial blank each v.elements valid in
      record {
        run = λ behind ia rest left.
            let (ia', run, left') =
              (read_int malloc granted host v.count wide).run behind ia
                (concat bytes v.elements ++ rest) left in
            let (ia'', run', left'') = elements.run behind ia' rest left' in
            let pass : (loop_count v.count == 0 || malloc ia'.off (to_size v.count * element_size))
                ≡ true =
              ground (arith, granted ia'.off (to_size v.count * element_size)) in
            (
              ia'',
              rw (run, deserialize_vector)
                  (rw pass (
                    rw e (
                      bind-ok (loop (length v.elements)) (λ xs. ia_end_vector >> return (whole xs))
                        run'))),
              left'',
            );
      }
