-- ===== src/RecordIo/RoundTrip.antt =====
-- From a fresh oarchive, through the bytes that are sent, to an iarchive over them.
use ruby_zookeeper.Prelude.{
  ℕ, ◌≤◌, ◌≡◌, refl, sym, ap, ◌∙◌, ◌++◌, some, List, [], length, take, replicate, Run, Void, ok,
  arith,
}
use mathlib.Core.List.{append-nil}
use ruby_zookeeper.RecordIo.Grow.{Holds, max_message}
use ruby_zookeeper.RecordIo.Write.{Writes}
use ruby_zookeeper.RecordIo.Read.{Reads, Left}
use ruby_zookeeper.RecordIo.Archive.{
  OArchive, IArchive, create_buffer_oarchive, create_buffer_iarchive, get_buffer, get_buffer_len,
}

pub create-Holds : Holds create_buffer_oarchive []
unfolding create_buffer_oarchive
create-Holds = record {
  cells = replicate 128 0;
  allocated = refl;
  sized = refl;
  written = refl;
  fits = omega arith;
  positive = omega arith;
  small = omega arith;
  contents = refl;
}

-- `m` run on a fresh archive returns 0, and what it leaves is the packet `bs`: the first
-- `get_buffer_len` bytes of `get_buffer`.
pub record Packs (m : Run OArchive Void) (bs : List ℕ) : Type 0 where
  pub archive : OArchive
  pub cells : List ℕ
  pub run : m create_buffer_oarchive ≡ ok tt archive
  pub buffer : get_buffer archive ≡ some cells
  pub size : get_buffer_len archive ≡ length bs
  pub packet : take (get_buffer_len archive) cells ≡ bs

pub Writes-Packs :
    {m : Run OArchive Void} {bs : List ℕ} → Writes m bs → length bs ≤ max_message → Packs m bs
unfolding get_buffer get_buffer_len
Writes-Packs {m} {bs} w small =
    let (oa, run, h) = w.run create_buffer_oarchive [] create-Holds (omega arith) in
    record {
      archive = oa;
      cells = h.cells;
      run = run;
      buffer = h.allocated;
      size = h.written;
      packet = h.contents;
    }

-- A reader over exactly the bytes `bs` returns `a` and is then at the end.
pub Reads-packet :
    {A : Type 0} {d : Run IArchive A} {bs : List ℕ} {a : A}
    → Reads d bs a
    → length bs ≤ max_message
    → (ia : IArchive) × (d (create_buffer_iarchive bs (length bs)) ≡ ok a ia) × Left [] ia []
unfolding create_buffer_iarchive
Reads-packet {bs = bs} r small =
    r.run [] (record { len = length bs; off = 0; buffer = bs }) []
      (record {
        bytes = sym (ap (λ t. t ++ []) (append-nil bs) ∙ append-nil bs);
        room = omega (arith, ap (λ (l : List ℕ). length l) (append-nil bs));
        fits = omega arith;
        small = omega arith;
      })
