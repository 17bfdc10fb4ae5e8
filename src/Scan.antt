-- ===== src/Scan.antt =====
-- src/parse.c, scan(): the search for the magic number of a block.
pub mod Tables
mod Tests
pub mod Automaton
pub mod Search
pub mod Buffer
pub mod Correct
use lbzip.Shared.{
  ℕ, zero, suc, ◌+◌, ◌-◌, ◌/◌, ◌%◌, ◌^◌, List, [], ◌∷◌, ltb, ◌==◌, if◌then◌else◌, length, get_or,
  drop, Bool,
}
use lbzip.Common.{Code, ok, more}
use lbzip.Bitstream.{Bitstream, sub32, bits_need, bits_peek, bits_dump, bits_consume}
use Tables.{accept, mini_dfa, big_dfa}

unfoldable pub mini_step : ℕ → ℕ → ℕ
unfolding mini_dfa
mini_step state bit = get_or (get_or mini_dfa state []) bit 0

unfoldable pub big_step : ℕ → ℕ → ℕ
unfolding big_dfa
big_step state byte = get_or (get_or big_dfa state []) byte 0

-- the four table lookups for one word
unfoldable pub word_step : ℕ → ℕ → ℕ
word_step state w =
    big_step
      (big_step (big_step (big_step state (w / 2 ^ 24)) (w / 2 ^ 16 % 256)) (w / 2 ^ 8 % 256))
      (w % 256)

-- how the loop over the bits of the buffer ends: by a return, or with the buffer used up
pub data Scanned : Type 0 where
  stop : Code × Bitstream → Scanned
  dry : ℕ → Bitstream → Scanned

-- the accepting state: the checksum behind the magic number is skipped
unfoldable pub accepted : Code × Bitstream → Code × Bitstream
unfolding bits_dump bits_consume
accepted (ok, b) = (ok, bits_dump b 32)
accepted (_, b) = (more, bits_consume b)

-- the loop over the bits of the buffer, with one round for each
unfoldable pub scan_bits : ℕ → ℕ → Bitstream → Scanned
unfolding accepted
scan_bits zero state b = dry state b
scan_bits (suc n) state b =
    let state' = mini_step state (bits_peek b 1) in
    let b' = bits_dump b 1 in
    let rest = scan_bits n state' b' in
    if state' == accept then stop (accepted (bits_need b' 32)) else rest

abbrev pub then_words : (ℕ → Bitstream → Code × Bitstream) → Scanned → Code × Bitstream
then_words k (stop r) = r
then_words k (dry state b) = k state b

-- The loop over the words. Where one contains the end of the magic number, it is put in the buffer
-- and the bits are tried again from the state before it.
unfoldable pub scan_words : List ℕ → ℕ → Bitstream → Code × Bitstream
scan_words [] state b = (more, record b { words = [] })
scan_words (w ∷ ws) state b =
    let b' = (bits_need (record b { words = w ∷ ws }) 1).1 in
    let again = then_words (scan_words ws) (scan_bits b'.live state b') in
    let on = scan_words ws (word_step state w) b in
    if word_step state w == accept then again else on

-- The first `skip` bits are dropped, where they are more than the buffer holds. In the source the sum
-- wraps for a number within 32 of 2 ^ 32, which is outside of the model.
unfoldable pub skip_bits : Bitstream → ℕ → Bitstream
unfolding bits_dump
skip_bits b skip =
    if ltb b.live skip
    then record (bits_dump b b.live) { words = drop ((skip - b.live + 31) / 32) b.words }
    else b

unfoldable pub scan : Bitstream → ℕ → Code × Bitstream
unfolding scan_bits scan_words skip_bits
scan b skip =
    let b' = skip_bits b skip in
    then_words (λ state r. scan_words r.words state r) (scan_bits b'.live 0 b')
