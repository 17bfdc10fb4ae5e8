-- ===== src/Rle.antt =====
-- The run-length code of the format, apart from the programs that write and read it: four equal
-- bytes in a row are followed by a byte that counts how many more there are.
pub mod Spells
use lbzip.Shared.{ℕ, List, [], ◌∷◌, ◌++◌, Option, none, some, ◌==◌, replicate, Bool, true}

-- how many equal bytes there are at the end of what has been read; after a count there are none
pub data Run : Type 0 where
  no_run one two three four : Run

abbrev pub grow : Bool → Run → Run
grow true one = two
grow true two = three
grow true three = four
grow same run = one

-- the run after the byte `c`, where `d` is the byte before
abbrev pub next_run : Run → ℕ → ℕ → Run
next_run no_run d c = one
next_run four d c = no_run
next_run run d c = grow (c == d) run

-- what the byte `c` stands for
abbrev pub meaning : Run → ℕ → ℕ → List ℕ
meaning four d c = replicate c d
meaning run d c = c ∷ []

abbrev pub prepend : List ℕ → Option (List ℕ) → Option (List ℕ)
prepend xs none = none
prepend xs (some ys) = some (xs ++ ys)

-- Without its count a run of four is no text.
abbrev pub end_of_text : Run → Option (List ℕ)
end_of_text four = none
end_of_text run = some []

unfoldable pub unrle : Run → ℕ → List ℕ → Option (List ℕ)
unrle run d [] = end_of_text run
unrle run d (c ∷ xs) = prepend (meaning run d c) (unrle (next_run run d c) c xs)
