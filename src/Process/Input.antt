-- ===== src/Process/Input.antt =====
-- src/process.c, xread() and work(): the decision on the first four bytes.
use Prim.Native.Nat.add
use Prim.Native.Nat.{min}
use lbzip.Shared.{
  ℕ, zero, suc, ◌+◌, ◌-◌, ◌*◌, ◌^◌, ◌≤◌, ◌<◌, List, [], ◌∷◌, ◌++◌, ◌≡◌, refl, sym, ap, ap₂, ◌∙◌,
  Bool, true, false, Bool-cases, ◌&&◌, leb, ◌==◌, ==→eq, if◌then◌else◌, take, drop, get_or, length,
  inl, inr, arith,
}
use lbzip.Process.{
  Read, after, read_more, read_loop, xread, Start, expand, copy, not_bzip2, magic, start_expansion,
  work, ssize_max,
}

-- what read() promises: no more than it is asked for and than there is, and nothing only at the end
-- of the input or if it is asked for nothing
pub record IsRead (read : ℕ → List ℕ → ℕ) : Type 0 where
  pub asked : (n : ℕ) (input : List ℕ) → read n input ≤ n
  pub there : (n : ℕ) (input : List ℕ) → read n input ≤ length input
  pub some_bytes : (n : ℕ) (input : List ℕ) → 0 < n → 0 < length input → 0 < read n input

nil-take : (n : ℕ) → take {A = ℕ} n [] ≡ []
nil-take zero = refl
nil-take (suc n) = refl

nil-drop : (n : ℕ) → drop {A = ℕ} n [] ≡ []
nil-drop zero = refl
nil-drop (suc n) = refl

take-add : (a b : ℕ) (xs : List ℕ) → take (a + b) xs ≡ take a xs ++ take b (drop a xs)
take-add zero b xs = rw add.zero refl
take-add (suc a) b [] = rw add.suc (sym (nil-take b))
take-add (suc a) b (x ∷ xs) = rw add.suc (ap (◌∷◌ x) (take-add a b xs))

drop-add : (a b : ℕ) (xs : List ℕ) → drop (a + b) xs ≡ drop b (drop a xs)
drop-add zero b xs = rw add.zero refl
drop-add (suc a) b [] = rw add.suc (sym (nil-drop b))
drop-add (suc a) b (x ∷ xs) = rw add.suc (drop-add a b xs)

length-drop : (a : ℕ) (xs : List ℕ) → length (drop a xs) ≡ length xs - a
length-drop zero xs = omega arith
length-drop (suc a) [] = omega arith
length-drop (suc a) (x ∷ xs) = omega (arith, length-drop a xs)

-- The buffer is filled as far as the input goes.
abbrev pub filled : ℕ → List ℕ → Read
filled n input = (take n input, (n - length input, drop n input))

read_more_fills :
    (loop : ℕ → List ℕ → Read) (rd vacant : ℕ) (input : List ℕ)
    → rd ≤ vacant
    → rd ≤ length input
    → (rd ≡ 0 → length input ≡ 0)
    → ((rest : List ℕ) → 0 < rd → loop (vacant - rd) rest ≡ filled (vacant - rd) rest)
    → read_more loop rd vacant input ≡ filled vacant input
read_more_fills loop zero vacant [] p q end h =
    ap₂ (λ xs r. (xs, r)) (sym (nil-take vacant))
      (ap₂ (λ (n : ℕ) (xs : List ℕ). (n, xs)) (omega arith) (sym (nil-drop vacant)))
read_more_fills loop zero vacant (x ∷ xs) p q end h = absurd (omega (arith, end refl))
read_more_fills loop (suc k) vacant input p q end h =
    let rd = suc k in
    let sum : vacant ≡ rd + (vacant - rd) = omega arith in
    ap (after (take rd input)) (h (drop rd input) (omega arith))
    ∙ ap₂ (λ xs r. (xs, r)) (sym (ap (λ n. take n input) sum ∙ take-add rd (vacant - rd) input))
        (ap₂ (λ (n : ℕ) (xs : List ℕ). (n, xs)) (omega (arith, length-drop rd input))
          (sym (ap (λ n. drop n input) sum ∙ drop-add rd (vacant - rd) input)))

module _ (read : ℕ → List ℕ → ℕ) (is_read : IsRead read) where
  read_loop_fills :
      (fuel vacant : ℕ) (input : List ℕ)
      → vacant ≤ fuel
      → read_loop read fuel vacant input ≡ filled vacant input
  unfolding read_loop
  read_loop_fills zero vacant input le =
      let none : vacant ≡ 0 = omega arith in
      rw none (ap (λ (n : ℕ). ([], (n, input))) (omega arith))
  read_loop_fills (suc fuel) vacant input le = elim (Bool-cases (vacant == 0)) [
    | inl done ↦
        let none : vacant ≡ 0 = ==→eq vacant 0 done in
        rw none (ap (λ (n : ℕ). ([], (n, input))) (omega arith))
    | inr more ↦
        let rd = read (min vacant ssize_max) input in
        rw more (
          read_more_fills (read_loop read fuel) rd vacant input
            (ground (arith, is_read.asked (min vacant ssize_max) input))
            (is_read.there (min vacant ssize_max) input)
            (λ e. ground (arith, is_read.some_bytes (min vacant ssize_max) input))
            (λ rest pos. read_loop_fills fuel (vacant - rd) rest (omega arith)))
  ]

-- the first four bytes of a file in bzip2 format
unfoldable pub is_magic : List ℕ → Bool
is_magic (a ∷ b ∷ c ∷ d ∷ rest) =
    (a == 0x42) && ((b == 0x5A) && ((c == 0x68) && (leb 0x31 d && leb d 0x39)))
is_magic input = false

unfoldable pub AllBytes : List ℕ → Type 0
AllBytes [] = 0 ≤ 0
AllBytes (x ∷ xs) = (x < 256) × AllBytes xs

-- what work() is to do with a file in `decompress` mode
unfoldable pub decision : Bool → List ℕ → Start
unfolding is_magic
decision to_stdout input =
    if is_magic input
    then expand (get_or input 3 0 - 0x30) (drop 4 input)
    else if to_stdout
    then copy (take 4 input) (drop 4 input)
    else not_bzip2

magic_test :
    (a b c d : ℕ)
    → a < 256
    → b < 256
    → c < 256
    → d < 256
    → (leb (magic 1) (a * 2 ^ 24 + b * 2 ^ 16 + c * 2 ^ 8 + d)
        && leb (a * 2 ^ 24 + b * 2 ^ 16 + c * 2 ^ 8 + d) (magic 9))
      ≡ ((a == 0x42) && ((b == 0x5A) && ((c == 0x68) && (leb 0x31 d && leb d 0x39))))
magic_test a b c d p q r s = ground arith

start-decision :
    (to_stdout : Bool) (input : List ℕ)
    → AllBytes input
    → start_expansion to_stdout (filled 4 input) ≡ decision to_stdout input
unfolding start_expansion decision is_magic AllBytes
start-decision to_stdout [] h = refl
start-decision to_stdout (a ∷ []) h = refl
start-decision to_stdout (a ∷ b ∷ []) h = refl
start-decision to_stdout (a ∷ b ∷ c ∷ []) h = refl
start-decision to_stdout (a ∷ b ∷ c ∷ d ∷ rest) h =
    let none : 4 - length (a ∷ b ∷ c ∷ d ∷ rest) ≡ 0 = omega arith in
    let test = magic_test a b c d h.0 h.1.0 h.1.1.0 h.1.1.1.0 in
    rw (none, test)
      (elim (Bool-cases (is_magic (a ∷ b ∷ c ∷ d ∷ rest))) [
        | inl bzip2 ↦ rw bzip2 (ap (λ k. expand k rest) (ground arith))
        | inr other ↦ rw other refl
      ])

-- xread() fills the buffer as far as the input goes, whatever read() does at a time: it has the
-- first bytes of the input, the number of those that are missing, and the input behind them.
pub xread-fills :
    (read : ℕ → List ℕ → ℕ) (vacant : ℕ) (input : List ℕ)
    → IsRead read
    → xread read vacant input ≡ (take vacant input, (vacant - length input, drop vacant input))
unfolding xread
xread-fills read vacant input is_read =
    read_loop_fills read is_read vacant vacant input (omega arith)

-- work() expands a file that begins with the letters BZh and a digit from 1 to 9, with that digit
-- as the level and what follows as input. Another file is copied from its first byte on, if that
-- has been forced, and else rejected.
pub work-decision :
    (read : ℕ → List ℕ → ℕ) (to_stdout : Bool) (input : List ℕ)
    → IsRead read
    → AllBytes input
    → work read true to_stdout input ≡ decision to_stdout input
unfolding work
work-decision read to_stdout input is_read bytes =
    ap (start_expansion to_stdout) (xread-fills read 4 input is_read)
    ∙ start-decision to_stdout input bytes
