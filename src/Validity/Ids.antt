-- ===== src/Validity/Ids.antt =====
-- The index against the levels: what removing ids from both keeps.
use multithreaded_exchange_s.Queue.Ids.{count_id-append, count_node, count_id}
use multithreaded_exchange_s.Matching.{swept, own_met, uncrossed, exhausted, spent, Sweeps, Swept}
use multithreaded_exchange_s.Strategy.Facts.{Matches-count}
use multithreaded_exchange_s.Order.{Order}
use multithreaded_exchange_s.OrderBook.{Locator, lookup_index, unindex, install_index}
use multithreaded_exchange_s.PriceLevel.{PriceLevel}
use multithreaded_exchange_s.Prelude.{
  ℕ, ◌+◌, ◌≡◌, refl, none, some, List, [], ◌∷◌, arith, ltb, ◌==◌, if◌then◌else◌,
}
use multithreaded_exchange_s.Validity.{scan, count_levels}
use multithreaded_exchange_s.OrderBook.Levels.{unindex_all}

pub lookup_index-unindex :
    (i j : ℕ) (m : List (ℕ × Locator))
    → lookup_index j (unindex i m) ≡ (if i == j then none else lookup_index j m)
unfolding lookup_index unindex
lookup_index-unindex i j [] = ground arith
lookup_index-unindex i j ((k, v) ∷ m) = ground (arith, lookup_index-unindex i j m)

pub lookup_index-unindex_all :
    (is : List ℕ) (j : ℕ) (m : List (ℕ × Locator))
    → lookup_index j (unindex_all is m) ≡ (if ltb 0 (count_id j is) then none else lookup_index j m)
unfolding unindex_all count_id
lookup_index-unindex_all [] j m = refl
lookup_index-unindex_all (i ∷ is) j m =
    ground (arith, lookup_index-unindex_all is j (unindex i m), lookup_index-unindex i j m)

pub lookup_index-install :
    (i j : ℕ) (v : Locator) (m : List (ℕ × Locator))
    → lookup_index i m ≡ none
    → lookup_index j (install_index i v m) ≡ (if i == j then some v else lookup_index j m)
unfolding install_index lookup_index
lookup_index-install i j v m h = rw h

-- An id that no level holds is not found, and one that is found is held.
pub scan-none : (j : ℕ) (ls : List PriceLevel) → count_levels j ls ≡ 0 → scan j ls ≡ none
unfolding scan count_levels
scan-none j [] h = refl
scan-none j (l ∷ ls) h = ground (arith, scan-none j ls)

pub count-scan : (j : ℕ) (ls : List PriceLevel) → scan j ls ≡ none → count_levels j ls ≡ 0
unfolding scan count_levels
count-scan j [] h = refl
count-scan j (l ∷ ls) h = ground (arith, count-scan j ls)

-- A sweep takes out of the levels exactly the ids that it lists as gone.
pub Sweeps-count :
    (j : ℕ) {by : Order} {a : ℕ} {ls : List PriceLevel} {s : Swept}
    → Sweeps by a ls s
    → count_levels j s.levels + count_id j s.gone ≡ count_levels j ls
unfolding count_levels count_id
Sweeps-count j (spent a ls z) = omega arith
Sweeps-count j (exhausted a) = omega arith
Sweeps-count j (uncrossed a l ls x) = omega arith
Sweeps-count j (own_met a l ls m pos x run b) = omega (arith, Matches-count j run)
Sweeps-count j (swept a l ls m r pos x run b rest) =
    omega (arith, Matches-count j run, Sweeps-count j rest, count_id-append j m.gone r.gone)

-- An id that is not gone stays where it was.
pub Sweeps-scan :
    (j : ℕ) {by : Order} {a : ℕ} {ls : List PriceLevel} {s : Swept}
    → Sweeps by a ls s
    → count_id j s.gone ≡ 0
    → scan j s.levels ≡ scan j ls
unfolding scan count_id
Sweeps-scan j (spent a ls z) h = refl
Sweeps-scan j (exhausted a) h = refl
Sweeps-scan j (uncrossed a l ls x) h = refl
Sweeps-scan j (own_met a l ls m pos x run b) h =
    let same : count_node j m.rest ≡ count_node j l.orders = omega (arith, Matches-count j run) in
    rw same
Sweeps-scan j (swept a l ls m r pos x run b rest) h =
    let parts = count_id-append j m.gone r.gone in
    let same : count_node j m.rest ≡ count_node j l.orders = omega (arith, Matches-count j run) in
    rw (same, Sweeps-scan j rest (omega arith))
