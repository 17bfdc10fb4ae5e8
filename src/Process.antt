-- ===== src/Process.antt =====
-- src/process.c, xread(), set_memory_constraints() and work(): what is done with an input file.
pub mod Input
pub mod Output
mod Tests
use Prim.Native.Nat.{min}
use lbzip.Shared.{
  ℕ, zero, suc, ◌+◌, ◌-◌, ◌*◌, ◌%◌, ◌^◌, List, [], ◌∷◌, ◌++◌, Bool, true, false, ◌&&◌, leb, ◌==◌,
  if◌then◌else◌, take, drop, get_or, length, ltb,
}
use lbzip.Common.{max_block_size}

-- the sizes that the scheduler works with
pub record Limits : Type 0 where
  pub total_in_slots : ℕ
  pub total_out_slots : ℕ
  pub in_granul : ℕ
  pub out_granul : ℕ

unfoldable pub set_memory_constraints : Bool → Bool → ℕ → ℕ → Limits
set_memory_constraints false small num_worker bs100k = record {
  total_in_slots = 2 * num_worker % 2 ^ 32;
  total_out_slots = (2 * num_worker + 2) % 2 ^ 32;
  in_granul = bs100k * 100000 % 2 ^ 32;
  out_granul = 2 ^ 64 - 1;
}
set_memory_constraints true false num_worker bs100k = record {
  total_in_slots = 4 * num_worker % 2 ^ 32;
  total_out_slots = 16 * num_worker % 2 ^ 32;
  in_granul = 256 * 1024;
  out_granul = max_block_size;
}
set_memory_constraints true true num_worker bs100k = record {
  total_in_slots = 2;
  total_out_slots = 2 * num_worker % 2 ^ 32;
  in_granul = 32768;
  out_granul = 900000;
}

abbrev pub ssize_max : ℕ
ssize_max = 2 ^ 63 - 1

-- what work() does
pub data Start : Type 0 where
  compress : Start
  expand : ℕ → List ℕ → Start
  copy : List ℕ → List ℕ → Start
  not_bzip2 : Start

-- `ntohl(header)`
abbrev pub word : List ℕ → ℕ
word h = get_or h 0 0 * 2 ^ 24 + get_or h 1 0 * 2 ^ 16 + get_or h 2 0 * 2 ^ 8 + get_or h 3 0

-- `MAGIC(k)`
abbrev pub magic : ℕ → ℕ
magic k = 0x425A6830 + k

-- how xread() ends: with the bytes read, how much of the buffer is vacant, and the input left
abbrev pub Read : Type 0
Read = List ℕ × (ℕ × List ℕ)

abbrev pub after : List ℕ → Read → Read
after xs r = (xs ++ r.0, r.1)

-- one round of the loop, where `rd` bytes were read
abbrev pub read_more : (ℕ → List ℕ → Read) → ℕ → ℕ → List ℕ → Read
read_more loop zero vacant input = ([], (vacant, input))
read_more loop rd vacant input = after (take rd input) (loop (vacant - rd) (drop rd input))

-- after the header has been read
unfoldable pub start_expansion : Bool → Read → Start
start_expansion to_stdout r =
    if (r.1.0 == 0) && (leb (magic 1) (word r.0) && leb (word r.0) (magic 9))
    then expand (word r.0 - magic 0) r.1.1
    else if to_stdout
    then copy (take (4 - r.1.0) r.0) r.1.1
    else not_bzip2

-- `read n input` is how many bytes the system call reads when it is asked for `n`; a failure ends
-- the program.
module _ (read : ℕ → List ℕ → ℕ) where
  -- Each round that goes on reads a byte at least, so that `vacant` rounds are enough.
  unfoldable pub read_loop : ℕ → ℕ → List ℕ → Read
  read_loop zero vacant input = ([], (vacant, input))
  read_loop (suc fuel) vacant input =
      if vacant == 0
      then ([], (vacant, input))
      else read_more (read_loop fuel) (read (min vacant ssize_max) input) vacant input

  unfoldable pub xread : ℕ → List ℕ → Read
  unfolding read_loop
  xread vacant input = read_loop vacant vacant input

  -- `to_stdout` is `force && ospec.fd == STDOUT_FILENO`
  unfoldable pub work : Bool → Bool → List ℕ → Start
  unfolding xread start_expansion
  work false to_stdout input = compress
  work true to_stdout input = start_expansion to_stdout (xread 4 input)

-- `write n xs` is how many bytes the system call writes when it is asked for the first `n` of `xs`; a
-- failure ends the program.
module _ (write : ℕ → List ℕ → ℕ) where
  -- Each round writes a byte at least, so that as many rounds as there are bytes are enough.
  unfoldable pub write_loop : ℕ → List ℕ → List ℕ → List ℕ
  write_loop zero out buffer = out
  write_loop (suc fuel) out buffer =
      let wr = write (min (length buffer) ssize_max) buffer in
      let out' = out ++ take wr buffer in
      let rest = write_loop fuel out' (drop wr buffer) in
      if ltb 0 (length (drop wr buffer)) then rest else out'

  -- the output and the count of bytes, where `is_open` is `ospec.fd != -1`
  unfoldable pub xwrite : Bool → List ℕ × ℕ → List ℕ → List ℕ × ℕ
  unfolding write_loop
  xwrite is_open (out, total) buffer = (
    if ltb 0 (length buffer) && is_open then write_loop (length buffer) out buffer else out,
    total + length buffer,
  )
