-- ===== src/RecordIo/Grow.antt =====
-- `resize_buffer` and the bounds of recordio.c under which it neither overflows nor loops for ever.
use ruby_zookeeper.Prelude.{
  ℕ, zero, suc, ◌-◌, ◌*◌, ◌^◌, ◌≤◌, ◌<◌, ◌≡◌, refl, ◌∙◌, Bool, true, some, List, ◌++◌, length, take,
  replicate, length-append, length-replicate, take-append_le, ok, arith,
}
use native.Mathlib.Decide.{dec_lt}
use native.Mathlib.Nat.{pow-suc}
use ruby_zookeeper.RecordIo.Archive.{OArchive, double_len, resize_buffer}

-- Messages up to this length are written with no signed overflow.
abbrev pub max_message : ℕ
max_message = 2 ^ 28

-- The doubling ends, at a length that is large enough, and did not overflow.
pub double_len_total :
    (fuel len newlen : ℕ)
    → len < 2 ^ 30
    → newlen ≤ 2 ^ 29
    → newlen ≤ len * 2 ^ fuel
    → (r : ℕ) × (double_len (suc fuel) len newlen ≡ some r)
      × (newlen ≤ r)
      × (len ≤ r)
      × (r < 2 ^ 30)
unfolding double_len
double_len_total zero len newlen hl hn h =
    (len, ground arith, omega arith, omega arith, omega arith)
double_len_total (suc fuel) len newlen hl hn h = elim (dec_lt len newlen) [
  | yes more ↦
      let (r, run, above, grown, small) =
        double_len_total fuel (len * 2) newlen (omega arith) hn (omega (arith, rw pow-suc at h)) in
      (r, ground arith, above, omega arith, small)
  | no enough ↦ (len, ground arith, omega arith, omega arith, hl)
]

-- `oa` is a usable archive to which `bs` has been written.
pub record Holds (oa : OArchive) (bs : List ℕ) : Type 0 where
  pub cells : List ℕ
  pub allocated : oa.buffer ≡ some cells
  pub sized : length cells ≡ oa.len
  pub written : oa.off ≡ length bs
  pub fits : oa.off ≤ oa.len
  pub positive : 0 < oa.len
  pub small : oa.len < 2 ^ 30
  pub contents : take oa.off cells ≡ bs

module _ (realloc : ℕ → Bool) (granted : (n : ℕ) → realloc n ≡ true) where
  pub resize_buffer-Holds :
      (oa : OArchive) (bs : List ℕ) (newlen : ℕ)
      → Holds oa bs
      → newlen ≤ 2 ^ 29
      → (oa' : OArchive) × (resize_buffer realloc newlen oa ≡ ok tt oa')
        × Holds oa' bs
        × (newlen ≤ oa'.len)
        × (oa'.off ≡ oa.off)
  unfolding resize_buffer
  resize_buffer-Holds oa bs newlen h small =
      let (r, run, above, grown, fits) =
        double_len_total 31 oa.len newlen h.small small (omega arith) in
      let more : List ℕ = replicate (r - length h.cells) 0 in
      (
        record { len = r; off = oa.off; buffer = some (h.cells ++ more) },
        ground (arith, run, granted r),
        record {
          cells = h.cells ++ more;
          allocated = refl;
          sized = rw (length-append, length-replicate) (omega arith);
          written = h.written;
          fits = omega arith;
          positive = omega arith;
          small = fits;
          contents = take-append_le oa.off h.cells more (omega arith) ∙ h.contents;
        },
        above,
        refl,
      )
