-- ===== src/Queue/Ids.antt =====
-- How often an id stands in a queue, and what keeps it so.
use multithreaded_exchange_s.Prelude.{
  ℕ, ◌+◌, ◌≡◌, Bool, List, [], ◌∷◌, ◌++◌, ◌==◌, if◌then◌else◌, arith, ltb,
}
use multithreaded_exchange_s.Order.{Order}

abbrev pub is_id : ℕ → ℕ → ℕ
is_id id j = if id == j then 1 else 0

unfoldable pub count_node : ℕ → List Order → ℕ
count_node j [] = 0
count_node j (o ∷ os) = is_id o.id j + count_node j os

unfoldable pub count_id : ℕ → List ℕ → ℕ
count_id j [] = 0
count_id j (i ∷ is) = is_id i j + count_id j is

abbrev pub has_node : ℕ → List Order → Bool
has_node j os = ltb 0 (count_node j os)

pub count_node-append :
    (j : ℕ) (xs ys : List Order) → count_node j (xs ++ ys) ≡ count_node j xs + count_node j ys
unfolding count_node
count_node-append j [] ys = omega arith
count_node-append j (x ∷ xs) ys = omega (arith, count_node-append j xs ys)

pub count_id-append :
    (j : ℕ) (xs ys : List ℕ) → count_id j (xs ++ ys) ≡ count_id j xs + count_id j ys
unfolding count_id
count_id-append j [] ys = omega arith
count_id-append j (x ∷ xs) ys = omega (arith, count_id-append j xs ys)
