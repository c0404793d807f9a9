-- ===== src/SideStats/Through.antt =====
-- analytics/side_stats.hpp: the sums over levels as sums over the orders that rest there.
use multithreaded_exchange_s.Validity.{Sorted, Ahead, LevelOk, SideOk}
use multithreaded_exchange_s.Queue.{sum_remaining}
use multithreaded_exchange_s.Types.{before, Side}
use multithreaded_exchange_s.PriceLevel.{PriceLevel}
use multithreaded_exchange_s.OrderBook.{OrderBook}
use multithreaded_exchange_s.Prelude.Word.{u64_mod, add64}
use multithreaded_exchange_s.Prelude.Int.{ℤ}
use multithreaded_exchange_s.SideStats.{qty_through, sum_total, before_upper_bound}
use multithreaded_exchange_s.Prelude.{
  ℕ, ◌+◌, ◌%◌, ◌≡◌, refl, ◌∙◌, inl, inr, true, List, [], ◌∷◌, arith, if◌then◌else◌, Bool-cases, All,
}

-- The quantity of the orders at prices no worse than a price, wherever their levels stand.
unfoldable pub available : Side → ℤ → List PriceLevel → ℕ
available side worst [] = 0
available side worst (l ∷ ls) =
    let rest = available side worst ls in
    if before side worst l.price then rest else sum_remaining l.orders + rest

before_trans :
    (side : Side) (p q r : ℤ)
    → before side p q ≡ true
    → before side q r ≡ true
    → before side p r ≡ true
before_trans Side.buy p q r h k = ground arith
before_trans Side.sell p q r h k = ground arith

-- Behind a level that is worse than the price all are.
none_behind :
    (side : Side) (worst p : ℤ) (ls : List PriceLevel)
    → before side worst p ≡ true
    → Ahead side p ls
    → available side worst ls ≡ 0
unfolding available
none_behind side worst p [] h k = refl
none_behind side worst p (l ∷ ls) h k =
    simp (before_trans side worst p l.price h k.0) (none_behind side worst p ls h k.1)

added : (a b s t : ℕ) → a ≡ s % u64_mod → b ≡ t % u64_mod → add64 a b ≡ (s + t) % u64_mod
unfolding add64
added a b s t h k = omega (arith, h, k)

sum_total-available :
    (side : Side) (worst : ℤ) (ls : List PriceLevel) (running sum : ℕ)
    → All (LevelOk side) ls
    → Sorted side ls
    → running ≡ sum % u64_mod
    → sum_total running (before_upper_bound side worst ls)
      ≡ (sum + available side worst ls) % u64_mod
unfolding sum_total before_upper_bound available
sum_total-available side worst [] running sum ok sorted e = omega (arith, e)
sum_total-available side worst (l ∷ ls) running sum ok sorted e =
    elim (Bool-cases (before side worst l.price)) [
      | inl h ↦ simp h (omega (arith, e, none_behind side worst l.price ls h sorted.0))
      | inr h ↦
          let here : add64 running l.total_qty ≡ (sum + sum_remaining l.orders) % u64_mod =
            added running l.total_qty sum (sum_remaining l.orders) e ok.0.summed.total in
          simp h (
            sum_total-available side worst ls (add64 running l.total_qty)
              (sum + sum_remaining l.orders) ok.1 sorted.1 here
            ∙ omega arith)
    ]

-- On a well-formed side, the quantity through a price is the sum, modulo 2 ^ 64, of what remains of the
-- orders at every price no worse than it, hidden quantity included.
pub qty_through-available :
    (side : Side) (b : OrderBook) (worst : ℤ)
    → SideOk side b
    → qty_through side b worst ≡ available side worst b.levels % u64_mod
unfolding qty_through
qty_through-available side b worst ok =
    sum_total-available side worst b.levels 0 0 ok.levels ok.sorted (omega arith) ∙ omega arith
