-- ===== src/Bitstream/View.antt =====
-- What the reader stands for: the list of the bits that are still to come.
use native.Mathlib.Nat.{
  mul-div_cancel, mul-div-mul_right, mul-lt-mul_of_pos_right, mod-lt, div-lt_iff_lt-mul,
  mod-eq_of_lt, le_trans, pow-le-pow_right, div-add-mod',
}
use lbzip.Shared.{
  ℕ, ◌+◌, ◌-◌, ◌*◌, ◌/◌, ◌%◌, ◌^◌, ◌≤◌, ◌<◌, bit_or, ◌≡◌, sym, ap, subst, ap₂, ◌∙◌, Bool, List, [],
  ◌∷◌, ◌++◌, arith, append_assoc,
}
use lbzip.Shared.Bits.{bit_or-add}
use lbzip.Shared.BitList.{bits, all_bits, bits-join, pow-add, pow-split, pow_pos}
use lbzip.Bitstream.{Bitstream, sub32, refill, bits_peek, bits_dump}

-- The buffer holds the number `top` of `live` bits in its highest places, and zeros below.
pub record Holds (bs : Bitstream) (top : ℕ) : Type 0 where
  pub room : bs.live < 64
  pub fits : top < 2 ^ bs.live
  pub placed : bs.buff ≡ top * 2 ^ (64 - bs.live)

-- Every word has 32 bits.
abbrev pub AllWords : List ℕ → Type 0
AllWords [] = Unit
AllWords (w ∷ ws) = (w < 2 ^ 32) × AllWords ws

pub AllWords-append : (vs ws : List ℕ) → AllWords vs → AllWords ws → AllWords (vs ++ ws)
AllWords-append [] ws p q = q
AllWords-append (v ∷ vs) ws p q = (p.0, AllWords-append vs ws p.1 q)

unfoldable pub top : Bitstream → ℕ
top bs = bs.buff / 2 ^ (64 - bs.live)

pub record IsValid (bs : Bitstream) : Type 0 where
  pub holds : Holds bs (top bs)
  pub words : AllWords bs.words

-- Only the buffer is of the number `top`.
pub change_words-IsValid :
    (b : Bitstream) (ws : List ℕ) (e : Bool)
    → IsValid b
    → AllWords ws
    → IsValid (record b { words = ws; eof = e })
unfolding top
change_words-IsValid b ws e v fit = record {
  holds = record { room = v.holds.room; fits = v.holds.fits; placed = v.holds.placed };
  words = fit;
}

-- the bits that are still to come: those of the buffer and then those of the words
unfoldable pub view : Bitstream → List ℕ
view bs = bits bs.live (top bs) ++ all_bits 32 bs.words

Holds-top : {bs : Bitstream} {t : ℕ} → Holds bs t → t ≡ top bs
unfolding top
Holds-top {bs} {t} h = rw h.placed (sym (mul-div_cancel t (pow_pos (64 - bs.live))))

pub Holds-IsValid : {bs : Bitstream} {t : ℕ} → Holds bs t → AllWords bs.words → IsValid bs
Holds-IsValid {bs} h ws = record { holds = subst (Holds bs) (Holds-top h) h; words = ws }

pub Holds-view :
    {bs : Bitstream} {t : ℕ} → Holds bs t → view bs ≡ bits bs.live t ++ all_bits 32 bs.words
unfolding view
Holds-view h = rw (← Holds-top h)

-- The word is placed below the bits that are there.
pub refill-Holds :
    (bs : Bitstream) (t w : ℕ) (ws : List ℕ)
    → Holds bs t
    → bs.live < 32
    → w < 2 ^ 32
    → Holds (refill (w ∷ ws) bs).1 (t * 2 ^ 32 + w)
unfolding refill
refill-Holds bs t w ws h small fits = record {
  room = omega arith;
  fits = omega (arith, pow-add bs.live 32, h.fits);
  placed = omega (
    arith,
    h.placed,
    bit_or-add (64 - bs.live) t (w * low) below,
    ap (λ (x : ℕ). bit_or x (w * low)) h.placed,
    ap (λ (x : ℕ). bit_or bs.buff x) small_word,
    ap (λ (x : ℕ). t * x) high,
    ap (λ (x : ℕ). (t * 2 ^ 32 + w) * x) rest,
  );
}
  where
    low : ℕ
    low = 2 ^ (32 - bs.live)

    high : 2 ^ (64 - bs.live) ≡ 2 ^ 32 * low
    high = pow-split (64 - bs.live) 32 (32 - bs.live) (omega arith)

    rest : 2 ^ (64 - (bs.live + 32)) ≡ low
    rest = ap (λ (x : ℕ). 2 ^ x) (omega arith)

    below : w * low < 2 ^ (64 - bs.live)
    below = rw high (mul-lt-mul_of_pos_right fits (pow_pos (32 - bs.live)))

    small_word : w * low % 2 ^ 64 ≡ w * low
    small_word =
        mod-eq_of_lt (le_trans below (pow-le-pow_right (omega arith) {j = 64} (omega arith)))

module _ (bs : Bitstream) (k : ℕ) (t : ℕ) (h : Holds bs t) (enough : k ≤ bs.live) where
  abbrev left : ℕ
  left = bs.live - k

  split_live : 2 ^ bs.live ≡ 2 ^ k * 2 ^ left
  split_live = pow-split bs.live k left (omega arith)

  pub bits_peek-top : bits_peek bs k ≡ t / 2 ^ left
  unfolding bits_peek
  bits_peek-top =
      rw (h.placed, pow-split (64 - k) left (64 - bs.live) (omega (arith, h.room)))
        (mul-div-mul_right t (2 ^ left) (pow_pos (64 - bs.live)))

  pub bits_dump-Holds : Holds (bits_dump bs k) (t % 2 ^ left)
  unfolding bits_dump
  bits_dump-Holds = record {
    room = omega (arith, h.room, sub32-le);
    fits = rw sub32-le (mod-lt t (pow_pos left));
    placed = rw sub32-le shifted;
  }
    where
      sub32-le : sub32 bs.live k ≡ left
      sub32-le = omega (arith, h.room)

      unit : ℕ
      unit = 2 ^ (64 - left)

      whole : 2 ^ 64 ≡ 2 ^ left * unit
      whole = pow-split 64 left (64 - left) (omega (arith, h.room))

      moved : 2 ^ (64 - bs.live) * 2 ^ k ≡ unit
      moved = sym (pow-split (64 - left) (64 - bs.live) k (omega (arith, h.room)))

      parts : t * unit ≡ t / 2 ^ left * 2 ^ 64 + t % 2 ^ left * unit
      parts = omega (
        arith,
        ap (λ (x : ℕ). x * unit) (div-add-mod' t (2 ^ left)),
        ap (λ (x : ℕ). t / 2 ^ left * x) whole,
      )

      shifted : bs.buff * 2 ^ k % 2 ^ 64 ≡ t % 2 ^ left * unit
      shifted = omega (
        arith,
        parts,
        ap (λ (x : ℕ). x * 2 ^ k) h.placed,
        ap (λ (x : ℕ). t * x) moved,
        whole,
        mul-lt-mul_of_pos_right (mod-lt t (pow_pos left)) (pow_pos (64 - left)),
      )

-- Taking `k` bits that are in the buffer: they are the first of the view.
pub bits_dump-view :
    (bs : Bitstream) (k : ℕ)
    → IsValid bs
    → k ≤ bs.live
    → (view bs ≡ bits k (bits_peek bs k) ++ view (bits_dump bs k))
      × (bits_peek bs k < 2 ^ k)
      × IsValid (bits_dump bs k)
      × ((bits_dump bs k).live ≡ bs.live - k)
unfolding bits_dump view
bits_dump-view bs k v enough = (
  ap (λ (xs : List ℕ). xs ++ all_bits 32 bs.words) split
      ∙ append_assoc (bits k q) (bits rest r) (all_bits 32 bs.words)
      ∙ ap₂ (λ (a : ℕ) (xs : List ℕ). bits k a ++ xs) (sym taken) (sym after),
  rw taken (
      (div-lt_iff_lt-mul (pow_pos rest)).1
        (omega (arith, v.holds.fits, split_live bs k t v.holds enough))),
  Holds-IsValid dumped v.words,
  shorter,
)
  where
    t : ℕ
    t = top bs

    rest : ℕ
    rest = bs.live - k

    q : ℕ
    q = t / 2 ^ rest

    r : ℕ
    r = t % 2 ^ rest

    shorter : sub32 bs.live k ≡ rest
    shorter = omega (arith, v.holds.room)

    dumped : Holds (bits_dump bs k) r
    dumped = bits_dump-Holds bs k t v.holds enough

    taken : bits_peek bs k ≡ q
    taken = bits_peek-top bs k t v.holds enough

    after : view (bits_dump bs k) ≡ bits rest r ++ all_bits 32 bs.words
    after = Holds-view dumped ∙ ap (λ (n : ℕ). bits n r ++ all_bits 32 bs.words) shorter

    split : bits bs.live t ≡ bits k q ++ bits rest r
    split =
        ap₂ bits (omega arith) (sym (div-add-mod' t (2 ^ rest)))
        ∙ bits-join k rest q r (mod-lt t (pow_pos rest))
