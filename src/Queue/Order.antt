-- ===== src/Queue/Order.antt =====
-- src/process.h: the order of positions.
use lbzip.Shared.{ℕ, ◌<◌, ◌≡◌, ap₂, ◌⊎◌, true, ◌==◌, ==→eq, &&→both, arith}
use lbzip.Queue.{Position, pos_eq, pos_lt, pos_le}

pub pos_eq→eq : (a b : Position) → pos_eq a b ≡ true → a ≡ b
unfolding pos_eq
pos_eq→eq a b h =
    let both = &&→both (a.major == b.major) (a.minor == b.minor) h in
    ap₂ (λ (i j : ℕ). record { major = i; minor = j }) (==→eq _ _ both.0) (==→eq _ _ both.1)

pub pos_eq_refl : (a : Position) → pos_eq a a ≡ true
unfolding pos_eq
pos_eq_refl a = ground arith

pub pos_le_refl : (a : Position) → pos_le a a ≡ true
unfolding pos_le pos_lt
pos_le_refl a = ground arith

pub pos_le_trans : (a b c : Position) → pos_le a b ≡ true → pos_le b c ≡ true → pos_le a c ≡ true
unfolding pos_le pos_lt
pos_le_trans a b c h k = ground arith

pub pos_le-total : (a b : Position) → pos_lt a b ≡ true → pos_le a b ≡ true
unfolding pos_le pos_lt
pos_le-total a b h = ground arith

-- an order on numbers that is the order of positions
pub pos_lt→lt :
    (a b : Position)
    → pos_lt a b ≡ true
    → (a.major < b.major) ⊎ ((a.major ≡ b.major) × (a.minor < b.minor))
unfolding pos_lt
pos_lt→lt a b h = ground arith
