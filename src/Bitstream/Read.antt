-- ===== src/Bitstream/Read.antt =====
-- Reading from the buffer: each operation takes the first of the bits to come.
use lbzip.Shared.{
  ℕ, ◌+◌, ◌-◌, ◌*◌, ◌%◌, ◌^◌, ◌≤◌, ◌<◌, ◌≡◌, refl, sym, ap, subst, ◌∙◌, List, [], ◌∷◌, ◌++◌, arith,
  length, append_assoc, leb, leb→le, Bool-cases, false, lt→leb, if◌then◌else◌, inl, inr,
  length-append,
}
use lbzip.Shared.BitList.{bits, all_bits, length-bits, length-all_bits, bits-join, bits-injective}
use lbzip.Common.{Code, ok, more, finish}
use lbzip.Bitstream.{Bitstream, refill, bits_need, bits_peek, bits_dump, bits_align}
use lbzip.Bitstream.View.{
  AllWords, top, IsValid, view, Holds-IsValid, Holds-view, refill-Holds, bits_dump-view,
}

-- `n` bits were made available, and the bits to come are those of `bs`.
pub record Needed (bs : Bitstream) (n : ℕ) (r : Code × Bitstream) : Type 0 where
  pub code : r.0 ≡ ok
  pub enough : n ≤ r.1.live
  pub valid : IsValid r.1
  pub same : view r.1 ≡ view bs
  pub eof : r.1.eof ≡ bs.eof

pub length-view : (bs : Bitstream) → length (view bs) ≡ bs.live + 32 * length bs.words
unfolding view
length-view bs = omega (
  arith,
  length-append (bits bs.live (top bs)) (all_bits 32 bs.words),
  length-bits bs.live (top bs),
  length-all_bits 32 bs.words,
)

module _ (bs : Bitstream) (v : IsValid bs) where
  -- A refill leaves the view as it is.
  refill-view :
      (w : ℕ) (ws : List ℕ)
      → bs.words ≡ w ∷ ws
      → bs.live < 32
      → IsValid (refill (w ∷ ws) bs).1 × (view (refill (w ∷ ws) bs).1 ≡ view bs)
  unfolding refill all_bits
  refill-view w ws e small =
      let t = top bs in
      let sizes : (w < 2 ^ 32) × AllWords ws = subst AllWords e v.words in
      let held = refill-Holds bs t w ws v.holds small sizes.0 in
      (
        Holds-IsValid held sizes.1,
        Holds-view held
            ∙ ap (λ (xs : List ℕ). xs ++ all_bits 32 ws) (bits-join bs.live 32 t w sizes.0)
            ∙ append_assoc (bits bs.live t) (bits 32 w) (all_bits 32 ws)
            ∙ ap (λ (xs : List ℕ). bits bs.live t ++ all_bits 32 xs) (sym e)
            ∙ sym (Holds-view v.holds),
      )

  needed :
      (n : ℕ) (ws : List ℕ)
      → bs.words ≡ ws
      → n ≤ 32
      → leb n bs.live ≡ false
      → n ≤ length (view bs)
      → Needed bs n (bits_need bs n)
  unfolding bits_need
  needed n [] e small few h =
      absurd (ground (arith, length-view bs, ap (λ (xs : List ℕ). length xs) e))
  needed n (w ∷ ws) e small few h =
      let kept = refill-view w ws e (ground arith) in
      let loaded : bits_need bs n ≡ (ok, (refill (w ∷ ws) bs).1) =
        rw few (ap (λ (xs : List ℕ). refill xs bs) e) in
      rw loaded
        (record { code = refl; enough = omega arith; valid = kept.0; same = kept.1; eof = refl })

-- `bits_need` makes `n` bits available if there are as many, and changes nothing that is to come.
pub bits_need-enough :
    (bs : Bitstream) (n : ℕ)
    → IsValid bs
    → n ≤ 32
    → n ≤ length (view bs)
    → Needed bs n (bits_need bs n)
unfolding bits_need
bits_need-enough bs n v small h = elim (Bool-cases (leb n bs.live)) [
  | inl there ↦
      rw there (record {
        code = refl;
        enough = leb→le n bs.live there;
        valid = v;
        same = refl;
        eof = refl;
      })
  | inr few ↦ needed bs v n bs.words refl small few h
]

-- With fewer bits it reports the end of the input, or asks for more, and changes nothing.
pub bits_need-short :
    (bs : Bitstream) (n : ℕ)
    → length (view bs) < n
    → n ≤ 32
    → bits_need bs n ≡ (if bs.eof then finish else more, bs)
unfolding bits_need
bits_need-short bs n h small = short bs.words refl
  where
    short : (ws : List ℕ) → bs.words ≡ ws → bits_need bs n ≡ (if bs.eof then finish else more, bs)
    short [] e =
        rw (lt→leb bs.live n (omega (arith, length-view bs))) (ap (λ (xs : List ℕ). refill xs bs) e)
    short (w ∷ ws) e = absurd (omega (arith, length-view bs, ap (λ (xs : List ℕ). length xs) e))

-- One read: `bits_need`, `bits_peek` and `bits_dump` take the first `n` bits of the view.
pub record HasRead (bs : Bitstream) (n w : ℕ) (rest : List ℕ) : Type 0 where
  pub code : (bits_need bs n).0 ≡ ok
  pub word : bits_peek (bits_need bs n).1 n ≡ w
  pub valid : IsValid (bits_dump (bits_need bs n).1 n)
  pub left : view (bits_dump (bits_need bs n).1 n) ≡ rest
  pub eof : (bits_dump (bits_need bs n).1 n).eof ≡ bs.eof

pub read_bits :
    (bs : Bitstream) (n w : ℕ) (rest : List ℕ)
    → IsValid bs
    → n ≤ 32
    → w < 2 ^ n
    → view bs ≡ bits n w ++ rest
    → HasRead bs n w rest
unfolding bits_dump
read_bits bs n w rest v small fits e = record {
  code = need.code;
  word = same.0;
  valid = dumped.2;
  left = same.1;
  eof = need.eof;
}
  where
    enough : n ≤ length (view bs)
    enough = rw e (omega (arith, length-append (bits n w) rest, length-bits n w))

    need : Needed bs n (bits_need bs n)
    need = bits_need-enough bs n v small enough

    b : Bitstream
    b = (bits_need bs n).1

    dumped :
        (view b ≡ bits n (bits_peek b n) ++ view (bits_dump b n))
        × (bits_peek b n < 2 ^ n)
        × IsValid (bits_dump b n)
        × ((bits_dump b n).live ≡ b.live - n)
    dumped = bits_dump-view b n need.valid need.enough

    same : (bits_peek b n ≡ w) × (view (bits_dump b n) ≡ rest)
    same =
        bits-injective n (bits_peek b n) w (view (bits_dump b n)) rest dumped.1 fits
          (sym dumped.0 ∙ need.same ∙ e)

-- `bits_align` drops at most seven bits, those up to the next byte.
pub bits_align-view :
    (bs : Bitstream)
    → IsValid bs
    → IsValid (bits_align bs)
      × (view bs ≡ bits (bs.live % 8) (bits_peek bs (bs.live % 8)) ++ view (bits_align bs))
      × (length (view (bits_align bs)) % 8 ≡ 0)
unfolding bits_align
bits_align-view bs v =
    let dumped = bits_dump-view bs (bs.live % 8) v (omega arith) in
    (dumped.2, dumped.0, omega (arith, length-view (bits_dump bs (bs.live % 8)), dumped.3))

-- the word that a read of `n` bits takes, and the reader after it
abbrev pub next_word : Bitstream → ℕ → ℕ
next_word bs n = bits_peek (bits_need bs n).1 n

abbrev pub after_read : Bitstream → ℕ → Bitstream
after_read bs n = bits_dump (bits_need bs n).1 n

pub read_any :
    (bs : Bitstream) (n : ℕ)
    → IsValid bs
    → n ≤ 32
    → n ≤ length (view bs)
    → HasRead bs n (next_word bs n) (view (after_read bs n))
      × (view bs ≡ bits n (next_word bs n) ++ view (after_read bs n))
      × (next_word bs n < 2 ^ n)
read_any bs n v small enough =
    let need = bits_need-enough bs n v small enough in
    let (split, fits, _, _) = bits_dump-view (bits_need bs n).1 n need.valid need.enough in
    let same : view bs ≡ bits n (next_word bs n) ++ view (after_read bs n) =
      sym need.same ∙ split in
    (read_bits bs n (next_word bs n) (view (after_read bs n)) v small fits same, same, fits)
