-- ===== src/Scan/Tables/Row.antt =====
-- src/scantab.h: a line of sixteen entries.
use lbzip.Shared.{ℕ, List, [], ◌∷◌}

abbrev pub row16 : ℕ → ℕ → ℕ → ℕ → ℕ → ℕ → ℕ → ℕ → ℕ → ℕ → ℕ → ℕ → ℕ → ℕ → ℕ → ℕ → List ℕ
row16 a b c d e f g h i j k l m n o p =
    a ∷ b ∷ c ∷ d ∷ e ∷ f ∷ g ∷ h ∷ i ∷ j ∷ k ∷ l ∷ m ∷ n ∷ o ∷ p ∷ []
