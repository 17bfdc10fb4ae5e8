-- ===== src/Common.antt =====
-- src/common.h: the result codes and the limits of the format.
use lbzip.Shared.{ℕ}

-- `enum error`
pub data Code : Type 0 where
  ok more finish : Code
  err_magic err_header err_bitmap err_trees err_groups err_selector err_delta err_prefix : Code
  err_incomplt err_empty err_unterm err_runlen err_blkcrc err_strmcrc err_overflow : Code
  err_bwtidx err_eof : Code

abbrev pub max_block_size : ℕ
max_block_size = 900000

-- a C `int`; `negsuc n` is -(n + 1)
pub data ℤ : Type 0 where
  pos : ℕ → ℤ
  negsuc : ℕ → ℤ
