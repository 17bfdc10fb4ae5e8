-- ===== src/Ibwt/Correct.antt =====
-- src/decode.c, decode(): the list leads through the block before the sorting.
use lbzip.Shared.{
  ℕ, zero, suc, ◌+◌, ◌-◌, ◌/◌, ◌^◌, ◌≤◌, ◌<◌, ◌≡◌, refl, sym, ◌∙◌, ap, List, true, ◌==◌, ◌&&◌,
  if◌then◌else◌, get_or, length, arith, ◌⊎◌, inl, inr, Bool-cases, some,
}
use lbzip.Prefix.Sums.{sum_below, sum_below-suc}
use lbzip.Emit.{DecoderState}
use lbzip.Emit.Steps.{walk}
use lbzip.Ibwt.{Retrieved, cumulate, link, reorder, flip, derandomize, decode, rand_thresh}
use lbzip.Ibwt.Original.{seen, lesser, IsInverse, original, unrandomized, IsRetrieved}
use lbzip.Ibwt.Columns.{sum_below_ext, seen-lesser, all_lesser}
use lbzip.Ibwt.Links.{
  Linked, cumulate-sum, length-cumulate, cumulate-each, start-Linked, link-Linked,
}
use lbzip.Ibwt.Reorder.{Follows, reorder-original, walk-original}
use lbzip.Ibwt.Rand.{walk-reform, flip-unrandomized, length-flip, low_bytes}
use lbzip.Ibwt.Reorder.{length-reorder}

before_or_at : (j m n : ℕ) → j < n → (j < m) ⊎ (m ≤ j)
before_or_at j m n lt = omega arith

none_below : (f : ℕ → ℕ) (j : ℕ) → j < sum_below f 0 → ⊥
unfolding sum_below
none_below f j lt = omega arith

-- the byte that stands at a place
locate :
    (f : ℕ → ℕ) (k j : ℕ)
    → j < sum_below f k
    → (u : ℕ) × (u < k) × (sum_below f u ≤ j) × (j < sum_below f (suc u))
locate f zero j lt = absurd (none_below f j lt)
locate f (suc k) j lt = elim (before_or_at j (sum_below f k) (sum_below f (suc k)) lt) [
  | inl before ↦ let (u, is, lo, hi) = locate f k j before in (u, omega arith, lo, hi)
  | inr after ↦ (k, omega arith, after, lt)
]

module _ (r : Retrieved) (ok : IsRetrieved r) where
  abbrev f : ℕ → ℕ
  f u = get_or r.ftab u 0

  abbrev indices : List ℕ × ℕ
  indices = cumulate 0 r.ftab

  abbrev linked : List ℕ × List ℕ
  linked = link r.block_size 0 indices.0 r.tt

  -- the node that comes after the one at `j`
  abbrev after : ℕ → ℕ
  after j = get_or linked.1 j 0 / 2 ^ 8

  start : (u : ℕ) → u ≤ 256 → sum_below f u ≡ lesser r.tt u r.block_size
  start u le =
      sum_below_ext f (λ v. seen r.tt v r.block_size) u (λ v lt. ok.counted v (omega arith))
      ∙ seen-lesser r.tt u r.block_size

  whole : sum_below f 256 ≡ r.block_size
  whole = start 256 (omega arith) ∙ all_lesser r.tt 256 r.block_size ok.bytes

  fits : 0 + sum_below f (length r.ftab) < 2 ^ 32
  fits = omega (arith, whole, ap (sum_below f) ok.all_bytes, ok.small)

  all_Linked : Linked r.tt f r.block_size r.block_size linked.0 linked.1
  all_Linked =
      link-Linked r.tt f r.block_size ok.small ok.bytes ok.counted whole r.block_size 0 indices.0
        r.tt (omega arith)
        (start-Linked r.tt f r.block_size ok.small ok.bytes ok.counted whole indices.0
          (length-cumulate 0 r.ftab ∙ ok.all_bytes) ok.fits
          (λ u is. cumulate-each 0 r.ftab u fits (omega (arith, is, ok.all_bytes)) ∙ omega arith))

  node :
      (j : ℕ)
      → j < r.block_size
      → (u : ℕ) × (u < 256)
        × (sum_below f u ≤ j)
        × (j < sum_below f (suc u))
        × (after j < r.block_size)
        × (get_or r.tt (after j) 0 ≡ u)
        × (sum_below f u + seen r.tt u (after j) ≡ j)
  node j lt =
      let (u, is, lo, hi) = locate f 256 j (omega (arith, whole)) in
      let (low, byte, at) =
        all_Linked.linked u j is lo (omega (arith, sum_below-suc f u, ok.counted u is)) in
      (u, is, lo, hi, low, byte, at)

  after-IsInverse : IsInverse r.tt r.block_size after
  after-IsInverse = record {
    below = λ j lt. let (u, is, lo, hi, low, byte, at) = node j lt in low;
    placed = λ j lt.
        let (u, is, lo, hi, low, byte, at) = node j lt in
        rw byte (ap (λ (n : ℕ). n + seen r.tt u (after j)) (sym (start u (omega arith))) ∙ at);
  }

  linked-Follows : Follows f after r.block_size linked.0 linked.1 r.tt
  linked-Follows = record {
    ends = λ u is. omega (arith, all_Linked.index u is, sum_below-suc f u, ok.counted u is);
    whole = whole;
    pointer = λ j lt. refl;
    low = all_Linked.low;
    below = after-IsInverse.below;
    byte = λ j lt. let (u, is, lo, hi, low, byte, at) = node j lt in rw byte (is, lo, hi);
  }

  abbrev result : List ℕ → ℕ → DecoderState
  result tt index = record {
    tt = tt;
    rle_state = 0;
    rle_crc = 2 ^ 32 - 1;
    rle_index = index;
    rle_avail = r.block_size;
    rle_char = 0;
    rle_prev = 0;
    crc = r.crc;
  }

  asserted : ((indices.1 == r.block_size) && (get_or linked.0 255 0 == r.block_size)) ≡ true
  asserted = ground (
    arith,
    cumulate-sum 0 r.ftab fits,
    ap (sum_below f) ok.all_bytes,
    whole,
    linked-Follows.ends 255 (omega arith),
  )

  -- the bytes of the block before the sorting
  abbrev text : List ℕ
  text = original r.tt after r.bwt_idx r.block_size

  -- the array of a randomised block
  ordered : low_bytes (reorder r.block_size 0 r.bwt_idx linked.0 linked.1) 0 r.block_size ≡ text
  ordered =
      reorder-original f after r.block_size linked.0 linked.1 r.tt linked-Follows r.block_size 0
        r.bwt_idx linked.1 (omega arith) ok.primary all_Linked.fits (λ a lt. refl)

  derandomized : walk (derandomize r linked.0 linked.1) 0 r.block_size ≡ unrandomized 0 0 text
  unfolding derandomize
  derandomized =
      let size = r.block_size in
      let ts = reorder size 0 r.bwt_idx linked.0 linked.1 in
      let long : size ≤ length ts =
        omega (arith, length-reorder size 0 r.bwt_idx linked.0 linked.1, all_Linked.fits) in
      walk-reform size 0 0 size (flip size size 0 rand_thresh ts) (omega arith) (omega arith)
        (omega (arith, length-flip size size 0 rand_thresh ts, long)) ok.small
      ∙ flip-unrandomized size ts long
      ∙ ap (unrandomized 0 0) ordered

-- On what retrieve() leaves, fewer than 2 ^ 24 bytes with the count of each of them and a primary
-- index among them, no assertion of decode() fails. The list that emit() follows in the result has
-- the bytes of the block before the sorting: it starts at the primary index, and goes from each
-- place to the byte of the last column that has this place in the first one, which is the next byte.
-- In a randomised block the bytes are changed as the format has it.
pub decode-original :
    (r : Retrieved)
    → IsRetrieved r
    → (ds : DecoderState) × (inv : ℕ → ℕ) × (decode r ≡ some ds)
      × IsInverse r.tt r.block_size inv
      × (walk ds.tt ds.rle_index ds.rle_avail ≡ (
          if r.rand
          then unrandomized 0 0 (original r.tt inv r.bwt_idx r.block_size)
          else original r.tt inv r.bwt_idx r.block_size))
unfolding decode
decode-original r ok = elim (Bool-cases r.rand) [
  | inl on ↦ (
    result r ok (derandomize r (linked r ok).0 (linked r ok).1) 0,
    after r ok,
    rw (on, asserted r ok) refl,
    after-IsInverse r ok,
    rw on (derandomized r ok),
  )
  | inr off ↦ (
    result r ok (linked r ok).1 (get_or (linked r ok).1 r.bwt_idx 0),
    after r ok,
    rw (off, asserted r ok) refl,
    after-IsInverse r ok,
    rw off (
        walk-original (f r ok) (after r ok) r.block_size (linked r ok).0 (linked r ok).1 r.tt
          (linked-Follows r ok) r.block_size r.bwt_idx ok.primary),
  )
]
