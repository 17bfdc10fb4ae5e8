-- ===== src/Selectors/Step.antt =====
-- src/encode.c, encode(): a round of the loop, for each order of the trees and each selector.
use lbzip.Shared.{
  ℕ, zero, suc, ◌+◌, ◌*◌, ◌<◌, ◌≡◌, refl, List, [], ◌∷◌, Bool, true, false, ◌==◌, ==→eq, ltb,
  ltb→lt, ◌&&◌, not, &&→both, if◌then◌else◌, get_or, arith,
}
use lbzip.Shared.Table.{holds_below, holds_below_at}
use lbzip.Mtf.Front.{remove}
use lbzip.Selectors.{select, mask}

-- the number that stands for a list, the front lowest
unfoldable pub pack : List ℕ → ℕ
pack [] = 0
pack (x ∷ xs) = x + pack xs * 16

abbrev pub not_in : ℕ → List ℕ → Bool
not_in x [] = true
not_in x (y ∷ ys) = not (x == y) && not_in x ys

abbrev pub is_order_from : List ℕ → Bool
is_order_from [] = true
is_order_from (x ∷ xs) = ltb x 6 && (not_in x xs && is_order_from xs)

-- the list has six trees, each once
abbrev pub is_order : List ℕ → Bool
is_order (a ∷ b ∷ c ∷ d ∷ e ∷ f ∷ []) = is_order_from (a ∷ b ∷ c ∷ d ∷ e ∷ f ∷ [])
is_order xs = false

-- the list after the value at a place has moved to the front
abbrev pub to_front : ℕ → List ℕ → List ℕ
to_front j xs = get_or xs j 0 ∷ remove j xs

-- A round finds the selector, and moves it to the front.
right : Bool → List ℕ → ℕ → Bool
right builtin xs c =
    let s = select builtin (pack xs) c in
    ltb s.1 6
    && ((get_or xs s.1 0 == c) && ((s.0 == pack (to_front s.1 xs)) && is_order (to_front s.1 xs)))

-- each order of six trees, built from its last one on
all_orders : ℕ → List ℕ → (List ℕ → Bool) → Bool
all_orders zero xs p = p xs
all_orders (suc n) xs p = holds_below 6 (λ x. if not_in x xs then all_orders n (x ∷ xs) p else true)

tested : (builtin : Bool) → all_orders 6 [] (λ xs. holds_below 6 (right builtin xs)) ≡ true
unfolding all_orders holds_below right pack select mask remove
tested true = refl
tested false = refl

taken : (b y : Bool) → b ≡ true → (if b then y else true) ≡ true → y ≡ true
taken b y h k = ground arith

all_orders_at :
    (n : ℕ) (xs : List ℕ) (p : List ℕ → Bool) (x : ℕ)
    → all_orders (suc n) xs p ≡ true
    → (ltb x 6 ≡ true) × (not_in x xs ≡ true)
    → all_orders n (x ∷ xs) p ≡ true
unfolding all_orders
all_orders_at n xs p x h (low, out) = taken (not_in x xs) (all_orders n (x ∷ xs) p) out (
    holds_below_at 6 (λ y. if not_in y xs then all_orders n (y ∷ xs) p else true) x h
      (ltb→lt x 6 low))

parts :
    (x : ℕ) (xs : List ℕ) (rest : Bool)
    → (ltb x 6 && (not_in x xs && rest)) ≡ true
    → ((ltb x 6 ≡ true) × (not_in x xs ≡ true)) × (rest ≡ true)
parts x xs rest h =
    let (low, h') = &&→both (ltb x 6) (not_in x xs && rest) h in
    let (out, h'') = &&→both (not_in x xs) rest h' in ((low, out), h'')

all_orders_six :
    (p : List ℕ → Bool) (a b c d e f : ℕ)
    → all_orders 6 [] p ≡ true
    → is_order (a ∷ b ∷ c ∷ d ∷ e ∷ f ∷ []) ≡ true
    → p (a ∷ b ∷ c ∷ d ∷ e ∷ f ∷ []) ≡ true
unfolding all_orders
all_orders_six p a b c d e f h o =
    let (ha, oa) = parts a (b ∷ c ∷ d ∷ e ∷ f ∷ []) _ o in
    let (hb, ob) = parts b (c ∷ d ∷ e ∷ f ∷ []) _ oa in
    let (hc, oc) = parts c (d ∷ e ∷ f ∷ []) _ ob in
    let (hd, od) = parts d (e ∷ f ∷ []) _ oc in
    let (he, oe) = parts e (f ∷ []) _ od in
    let (hf, of) = parts f [] _ oe in
    all_orders_at 0 (b ∷ c ∷ d ∷ e ∷ f ∷ []) p a
      (all_orders_at 1 (c ∷ d ∷ e ∷ f ∷ []) p b
        (all_orders_at 2 (d ∷ e ∷ f ∷ []) p c
          (all_orders_at 3 (e ∷ f ∷ []) p d
            (all_orders_at 4 (f ∷ []) p e (all_orders_at 5 [] p f h hf) he) hd)
          hc)
        hb)
      ha

tested_at :
    (builtin : Bool) (xs : List ℕ) (c : ℕ) → is_order xs ≡ true → c < 6 → right builtin xs c ≡ true
tested_at builtin (a ∷ b ∷ d ∷ e ∷ f ∷ g ∷ []) c o h =
    holds_below_at 6 (right builtin (a ∷ b ∷ d ∷ e ∷ f ∷ g ∷ [])) c
      (all_orders_six (λ xs. holds_below 6 (right builtin xs)) a b d e f g (tested builtin) o) h
tested_at builtin [] c o h = absurd (cc)
tested_at builtin (v ∷ []) c o h = absurd (cc)
tested_at builtin (v ∷ w ∷ []) c o h = absurd (cc)
tested_at builtin (v ∷ w ∷ x ∷ []) c o h = absurd (cc)
tested_at builtin (v ∷ w ∷ x ∷ y ∷ []) c o h = absurd (cc)
tested_at builtin (v ∷ w ∷ x ∷ y ∷ z ∷ []) c o h = absurd (cc)
tested_at builtin (a ∷ b ∷ d ∷ e ∷ f ∷ g ∷ x ∷ xs) c o h = absurd (cc)

-- A round of the loop finds the place of the selector in the list that is packed, and packs the list
-- with the selector moved to the front.
pub record IsRound (builtin : Bool) (xs : List ℕ) (c : ℕ) : Type 0 where
  pub below : (select builtin (pack xs) c).1 < 6
  pub place : get_or xs (select builtin (pack xs) c).1 0 ≡ c
  pub packed : (select builtin (pack xs) c).0 ≡ pack (to_front (select builtin (pack xs) c).1 xs)
  pub order : is_order (to_front (select builtin (pack xs) c).1 xs) ≡ true

pub select-IsRound :
    (builtin : Bool) (xs : List ℕ) (c : ℕ) → is_order xs ≡ true → c < 6 → IsRound builtin xs c
unfolding right
select-IsRound builtin xs c o h =
    let (below, h') = &&→both _ _ (tested_at builtin xs c o h) in
    let (place, h'') = &&→both _ _ h' in
    let (packed, order) = &&→both _ _ h'' in
    record {
      below = ltb→lt _ 6 below;
      place = ==→eq _ c place;
      packed = ==→eq _ _ packed;
      order = order;
    }
