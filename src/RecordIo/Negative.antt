-- ===== src/RecordIo/Negative.antt =====
-- Negative lengths on the wire.
use ruby_zookeeper.Prelude.{
  length, read_cells, length-append, length-drop, ok, fail, fault, ◌>>=◌, ◌>>◌, return, bind-ok,
  bind-fail, bind-fault, leb, ◌==◌, if◌then◌else◌, neg, lt_int, sub_int, to_size, Bool-cases, ℕ,
  ◌+◌, ◌%◌, ◌^◌, ◌≤◌, ◌<◌, ◌≡◌, refl, ap, ◌∙◌, inl, inr, Bool, true, false, none, some, List, [],
  ◌++◌, arith,
}
use ruby_zookeeper.RecordIo.{Host, be}
use ruby_zookeeper.RecordIo.Archive.{
  enomem, IArchive, take_bytes, check_room, check_remaining, ia_deserialize_int, alloc_bytes,
  ia_deserialize_string,
}
use ruby_zookeeper.RecordIo.Read.{Left, read_int}

take_bytes-behind :
    (n : ℕ) (ia : IArchive) → length ia.buffer < ia.off + n → take_bytes n ia ≡ fault
unfolding take_bytes
take_bytes-behind n ia h =
    let outside : leb (ia.off + n) (length ia.buffer) ≡ false = ground arith in
    let nothing : read_cells ia.buffer ia.off n ≡ none = rw outside refl in
    rw (nothing, take_bytes) refl

-- The test of the length and the copy, for a negative length.
module _ (malloc : ℕ → ℕ → Bool) (len : ℕ) (rest : List ℕ) (ia : IArchive) (low : 2 ^ 31 ≤ len)
    (high : len < 2 ^ 32) (h : Left [] ia rest) where
  passes : check_remaining len ia ≡ ok tt ia
  unfolding check_remaining check_room
  passes =
      let enough : lt_int (sub_int ia.len ia.off) len ≡ false = ground (arith, h.room, h.small) in
      rw enough refl

  behind_end : length ia.buffer < ia.off + to_size len
  behind_end =
      let size = ap (λ (l : List ℕ). length l) h.bytes in
      ground
        (arith, size, length-drop ia.off ia.buffer, length-append rest [], h.fits, h.room, h.small)

  copied :
      ((off : ℕ) → malloc off 0 ≡ true)
      → ((off n : ℕ) → 2 ^ 63 ≤ n → malloc off n ≡ false)
      → alloc_bytes malloc (to_size ((len + 1) % 2 ^ 32)) (to_size len) ia
        ≡ (if len == neg 1 then fault else fail (neg enomem) ia)
  unfolding alloc_bytes
  copied none_granted huge_refused = elim (Bool-cases (len == neg 1)) [
    | inl null ↦
        let size : to_size ((len + 1) % 2 ^ 32) ≡ 0 = ground (arith, null) in
        rw (null, size, none_granted ia.off) (take_bytes-behind (to_size len) ia behind_end)
    | inr other ↦
        let size : 2 ^ 63 ≤ to_size ((len + 1) % 2 ^ 32) = ground (arith, other, low, high) in
        rw (other, huge_refused ia.off (to_size ((len + 1) % 2 ^ 32)) size) refl
  ]

  tested :
      ((off : ℕ) → malloc off 0 ≡ true)
      → ((off n : ℕ) → 2 ^ 63 ≤ n → malloc off n ≡ false)
      → (check_remaining len
            >> (alloc_bytes malloc (to_size ((len + 1) % 2 ^ 32)) (to_size len) >>= λ bytes.
                return (some bytes)))
          ia
        ≡ (if len == neg 1 then fault else fail (neg enomem) ia)
  tested none_granted huge_refused =
      let fetch = alloc_bytes malloc (to_size ((len + 1) % 2 ^ 32)) (to_size len) in
      bind-ok (check_remaining len) _ passes ∙ elim (Bool-cases (len == neg 1)) [
        | inl null ↦ rw null (bind-fault fetch _ (copied none_granted huge_refused ∙ rw null refl))
        | inr other ↦
            rw other (bind-fail fetch _ (copied none_granted huge_refused ∙ rw other refl))
      ]

-- A string whose length on the wire is negative as an int, on a host of either byte order, where
-- `malloc` grants no bytes and refuses 2^63 and more: behind the length, the test of the length passes,
-- though so many bytes, as a `size_t`, end behind the buffer. For the length -1, which
-- `oa_serialize_string` writes for a null pointer, `ia_deserialize_string` copies them, which is
-- undefined behaviour; for the others it returns -ENOMEM.
pub ia_deserialize_string-negative :
    (malloc : ℕ → ℕ → Bool) (host : Host) (len : ℕ) (rest : List ℕ) (ia : IArchive)
    → ((off : ℕ) → malloc off 0 ≡ true)
    → ((off n : ℕ) → 2 ^ 63 ≤ n → malloc off n ≡ false)
    → 2 ^ 31 ≤ len
    → len < 2 ^ 32
    → Left [] ia (be 4 len ++ rest)
    → (ia' : IArchive) × (ia_deserialize_int host ia ≡ ok len ia')
      × (check_remaining len ia' ≡ ok tt ia')
      × (length ia'.buffer < ia'.off + to_size len)
      × (ia_deserialize_string host malloc ia
          ≡ (if len == neg 1 then fault else fail (neg enomem) ia'))
unfolding ia_deserialize_string
ia_deserialize_string-negative malloc host len rest ia none_granted huge_refused low high h =
    let (ia', run, h') =
      (read_int (λ off n. true) (λ off n. refl) host len high).run [] ia rest h in
    (
      ia',
      run,
      passes malloc len rest ia' low high h',
      behind_end malloc len rest ia' low high h',
      bind-ok (ia_deserialize_int host) _ run
          ∙ tested malloc len rest ia' low high h' none_granted huge_refused,
    )
