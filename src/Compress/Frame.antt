-- ===== src/Compress/Frame.antt =====
-- src/compress.c, write_header() and write_trailer(): what stands around the blocks of a stream.
pub mod Tests
use lbzip.Shared.{
  ℕ, suc, ◌+◌, ◌-◌, ◌*◌, ◌/◌, ◌%◌, ◌^◌, ◌≤◌, ◌<◌, List, [], ◌∷◌, ◌++◌, ◌≡◌, refl, sym, ap, ap₂, ◌∙◌,
  subst, Bool, true, false, arith, append_assoc,
}
use lbzip.Shared.BitList.{bits, all_bits, bits-join}
use lbzip.Common.{finish}
use lbzip.Bitstream.View.{IsValid, view}
use lbzip.Parser.{block_magic_1, accept, eos_crc_2, Parse, parse}
use lbzip.Parser.Headers.{Returns, stream_trailer, at_state, crc_of, parse-single_stream}
use lbzip.Process.{Start, expand, work}
use lbzip.Process.Input.{IsRead, AllBytes, decision, is_magic, work-decision}

-- the bytes of the buffers that are given to xwrite()
unfoldable pub write_header : ℕ → List ℕ
write_header bs100k = 0x42 ∷ 0x5A ∷ 0x68 ∷ ((0x30 + bs100k) % 256) ∷ []

unfoldable pub write_trailer : ℕ → List ℕ
write_trailer combined_crc =
    0x17
    ∷ 0x72
    ∷ 0x45
    ∷ 0x38
    ∷ 0x50
    ∷ 0x90
    ∷ (combined_crc / 2 ^ 24 % 256)
    ∷ (combined_crc / 2 ^ 16 % 256)
    ∷ (combined_crc / 2 ^ 8 % 256)
    ∷ (combined_crc % 256)
    ∷ []

two_bytes : (a b : ℕ) → b < 256 → bits 16 (a * 256 + b) ≡ bits 8 a ++ bits 8 b
two_bytes a b h = bits-join 8 8 a b h

-- Numbers of 16 bits, byte by byte.
two_bytes_in :
    (n a b : ℕ) (xs ys : List ℕ)
    → b < 256
    → n ≡ a * 256 + b
    → all_bits 16 xs ≡ all_bits 8 ys
    → all_bits 16 (n ∷ xs) ≡ all_bits 8 (a ∷ b ∷ ys)
unfolding all_bits
two_bytes_in n a b xs ys h e rest =
    ap₂ (λ u v. u ++ v) (ap (bits 16) e ∙ two_bytes a b h) rest
    ∙ append_assoc (bits 8 a) (bits 8 b) (all_bits 8 ys)

all_bits_nil : all_bits 16 [] ≡ all_bits 8 []
unfolding all_bits
all_bits_nil = refl

write_trailer-stream_trailer :
    (crc : ℕ)
    → crc < 2 ^ 32
    → all_bits 16 (stream_trailer (crc / 2 ^ 16) (crc % 2 ^ 16)) ≡ all_bits 8 (write_trailer crc)
unfolding write_trailer
write_trailer-stream_trailer crc h =
    let hi = crc / 2 ^ 16 in
    let lo = crc % 2 ^ 16 in
    let high : hi ≡ crc / 2 ^ 24 % 256 * 256 + crc / 2 ^ 16 % 256 = omega arith in
    let low : lo ≡ crc / 2 ^ 8 % 256 * 256 + crc % 256 = omega arith in
    two_bytes_in 0x1772 0x17 0x72 _ _ (omega arith) refl (
      two_bytes_in 0x4538 0x45 0x38 _ _ (omega arith) refl (
        two_bytes_in 0x5090 0x50 0x90 _ _ (omega arith) refl (
          two_bytes_in hi (crc / 2 ^ 24 % 256) (crc / 2 ^ 16 % 256) _ _ (omega arith) high (
            two_bytes_in lo (crc / 2 ^ 8 % 256) (crc % 256) [] [] (omega arith) low all_bits_nil))))

-- The trailer that the compressor writes ends the stream for parse(), where its checksum is the one
-- computed: at the end of a single stream the call returns FINISH and leaves what stands behind it.
pub parse-write_trailer :
    (p : Parse) (crc : ℕ) (rest : List ℕ)
    → p.ps.state ≡ block_magic_1
    → IsValid p.bs
    → p.ps.stream_mode ≡ true
    → crc < 2 ^ 32
    → crc ≡ p.ps.computed_crc
    → view p.bs ≡ all_bits 8 (write_trailer crc) ++ rest
    → Returns (parse p) finish (record (at_state accept crc p) { garbage = 0 }) rest
parse-write_trailer p crc rest s v mode h same e =
    let whole : crc_of (crc / 2 ^ 16) (crc % 2 ^ 16) ≡ crc = omega arith in
    subst (λ c. Returns (parse p) finish (record (at_state accept c p) { garbage = 0 }) rest) whole
      (parse-single_stream p (crc / 2 ^ 16) (crc % 2 ^ 16) rest s v (omega arith) (omega arith)
        (e ∙ ap (λ xs. xs ++ rest) (sym (write_trailer-stream_trailer crc h))) mode (whole ∙ same))

header-decision :
    (to_stdout : Bool) (bs100k : ℕ) (rest : List ℕ)
    → 1 ≤ bs100k
    → bs100k ≤ 9
    → decision to_stdout (write_header bs100k ++ rest) ≡ expand bs100k rest
unfolding write_header decision is_magic
header-decision to_stdout bs100k rest lo hi =
    let digit : (0x30 + bs100k) % 256 ≡ 0x30 + bs100k = omega arith in
    let level : 0x30 + bs100k - 0x30 ≡ bs100k = omega arith in ground arith

-- The header that the compressor writes, at a level from 1 to 9, makes work() expand the file at that
-- level, from the byte behind the header on.
pub work-write_header :
    (read : ℕ → List ℕ → ℕ) (to_stdout : Bool) (bs100k : ℕ) (rest : List ℕ)
    → IsRead read
    → AllBytes rest
    → 1 ≤ bs100k
    → bs100k ≤ 9
    → work read true to_stdout (write_header bs100k ++ rest) ≡ expand bs100k rest
unfolding write_header AllBytes
work-write_header read to_stdout bs100k rest is_read bytes lo hi =
    work-decision read to_stdout _ is_read
      (omega arith, (omega arith, (omega arith, (omega arith, bytes))))
    ∙ header-decision to_stdout bs100k rest lo hi
