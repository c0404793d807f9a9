-- ===== src/Validity/Swept.antt =====
-- The opposite side after the matching phase of core/book.cpp, when the emptied levels are dropped.
use multithreaded_exchange_s.Order.{crosses, Order}
use multithreaded_exchange_s.Strategy.Facts.{Matches-exhausts, Matches-RestsAt, RestsAt}
use multithreaded_exchange_s.Strategy.Match.{Matches, Matched}
use multithreaded_exchange_s.Types.{before, Side}
use multithreaded_exchange_s.PriceLevel.{is_nil, PriceLevel, is_empty}
use multithreaded_exchange_s.Prelude.Int.{ℤ}
use multithreaded_exchange_s.Prelude.{
  ℕ, ◌≤◌, ◌<◌, ◌≡◌, refl, sym, subst, inl, inr, true, false, List, [], ◌∷◌, arith, ltb, ltb→lt,
  Bool-cases, All, All-map,
}
use multithreaded_exchange_s.Validity.{scan, count_levels, LevelOk, SideOk, Sorted}
use multithreaded_exchange_s.Validity.Ids.{
  lookup_index-unindex_all, Sweeps-count, Sweeps-scan, scan-none,
}
use multithreaded_exchange_s.Queue.Ids.{count_node, count_id}
use multithreaded_exchange_s.OrderBook.{OrderBook, drop_empty, lookup_index}
use multithreaded_exchange_s.OrderBook.Levels.{unindex_all}
use multithreaded_exchange_s.Matching.{
  Sweeps, Swept, level_with, spent, exhausted, uncrossed, own_met, swept,
}

module _ (P : PriceLevel → Type 0) where
  pub drop_empty-All : (ls : List PriceLevel) → All P ls → All P (drop_empty ls)
  unfolding drop_empty
  drop_empty-All [] h = tt
  drop_empty-All (l ∷ ls) h = elim (Bool-cases (is_empty l)) [
    | inl e ↦ rw e (drop_empty-All ls h.1)
    | inr e ↦ rw e h
  ]

pub drop_empty-Sorted :
    (side : Side) (ls : List PriceLevel) → Sorted side ls → Sorted side (drop_empty ls)
unfolding drop_empty
drop_empty-Sorted side [] h = tt
drop_empty-Sorted side (l ∷ ls) h = elim (Bool-cases (is_empty l)) [
  | inl e ↦ rw e (drop_empty-Sorted side ls h.1)
  | inr e ↦ rw e h
]

is_empty-count :
    (j : ℕ) (l : PriceLevel) (os : List Order)
    → l.orders ≡ os
    → is_empty l ≡ true
    → count_node j os ≡ 0
unfolding is_empty count_node
is_empty-count j l [] e h = refl
is_empty-count j l (o ∷ os) e h = absurd (cc (rw e at h))

pub drop_empty-count :
    (j : ℕ) (ls : List PriceLevel) → count_levels j (drop_empty ls) ≡ count_levels j ls
unfolding drop_empty count_levels
drop_empty-count j [] = refl
drop_empty-count j (l ∷ ls) = elim (Bool-cases (is_empty l)) [
  | inl e ↦ rw (e, is_empty-count j l l.orders refl e) (omega (arith, drop_empty-count j ls))
  | inr e ↦ rw e
]

pub drop_empty-scan : (j : ℕ) (ls : List PriceLevel) → scan j (drop_empty ls) ≡ scan j ls
unfolding drop_empty scan
drop_empty-scan j [] = refl
drop_empty-scan j (l ∷ ls) = elim (Bool-cases (is_empty l)) [
  | inl e ↦ rw (e, is_empty-count j l l.orders refl e) (drop_empty-scan j ls)
  | inr e ↦ rw e
]

-- A sweep keeps every price in its place.
pub Sweeps-price :
    (P : ℤ → Type 0) {by : Order} {a : ℕ} {ls : List PriceLevel} {s : Swept}
    → Sweeps by a ls s
    → All (λ l. P l.price) ls
    → All (λ l. P l.price) s.levels
Sweeps-price P (spent a ls z) h = h
Sweeps-price P (exhausted a) h = h
Sweeps-price P (uncrossed a l ls x) h = h
Sweeps-price P (own_met a l ls m pos x run b) h = h
Sweeps-price P (swept a l ls m r pos x run b rest) h = (h.0, Sweeps-price P rest h.1)

pub Sweeps-Sorted :
    (side : Side) {by : Order} {a : ℕ} {ls : List PriceLevel} {s : Swept}
    → Sweeps by a ls s
    → Sorted side ls
    → Sorted side s.levels
Sweeps-Sorted side (spent a ls z) h = h
Sweeps-Sorted side (exhausted a) h = h
Sweeps-Sorted side (uncrossed a l ls x) h = h
Sweeps-Sorted side (own_met a l ls m pos x run b) h = h
Sweeps-Sorted side (swept a l ls m r pos x run b rest) h =
    (Sweeps-price (λ p. before side l.price p ≡ true) rest h.0, Sweeps-Sorted side rest h.1)

-- With nothing left to trade the sweep stops at once.
pub Sweeps-zero :
    {by : Order} {a : ℕ} {ls : List PriceLevel} {s : Swept}
    → Sweeps by a ls s
    → a ≡ 0
    → (s.levels ≡ ls) × (s.left ≡ 0)
Sweeps-zero (spent a ls z) e = (refl, e)
Sweeps-zero (exhausted a) e = (refl, e)
Sweeps-zero (uncrossed a l ls x) e = (refl, e)
Sweeps-zero (own_met a l ls m pos x run b) e = absurd (omega arith)
Sweeps-zero (swept a l ls m r pos x run b rest) e = absurd (omega arith)

level_with-LevelOk :
    (side : Side) (l : PriceLevel) (os : List Order)
    → is_nil os ≡ false
    → All (RestsAt side l.price) os
    → LevelOk side (level_with l os)
unfolding is_empty
level_with-LevelOk side l os n all = record {
  summed = record { total = refl; visible = refl };
  holds = n;
  resting = all;
}

left-zero :
    {acct a : ℕ} {os : List Order} {m : Matched}
    → Matches acct a os m
    → m.blocked ≡ false
    → is_nil m.rest ≡ false
    → m.left ≡ 0
left-zero {m = m} run b n = elim (Bool-cases (ltb 0 m.left)) [
  | inl h ↦ absurd (cc (rw (Matches-exhausts run b (ltb→lt 0 m.left h)) at n))
  | inr h ↦ ground arith
]

module _ (side : Side) where
  -- Once the emptied levels are dropped, every level of the opposite side is well formed.
  pub Sweeps-LevelOk :
      {by : Order} {a : ℕ} {ls : List PriceLevel} {s : Swept}
      → Sweeps by a ls s
      → All (LevelOk side) ls
      → All (LevelOk side) (drop_empty s.levels)
  unfolding drop_empty is_empty
  Sweeps-LevelOk (spent a ls z) h = drop_empty-All (LevelOk side) ls h
  Sweeps-LevelOk (exhausted a) h = tt
  Sweeps-LevelOk (uncrossed a l ls x) h = drop_empty-All (LevelOk side) (l ∷ ls) h
  Sweeps-LevelOk (own_met a l ls m pos x run b) h = elim (Bool-cases (is_nil m.rest)) [
    | inl e ↦ rw e (drop_empty-All (LevelOk side) ls h.1)
    | inr e ↦
        rw e
          (level_with-LevelOk side l m.rest e (Matches-RestsAt side l.price run h.0.resting), h.1)
  ]
  Sweeps-LevelOk (swept a l ls m r pos x run b rest) h = elim (Bool-cases (is_nil m.rest)) [
    | inl e ↦ rw e (Sweeps-LevelOk rest h.1)
    | inr e ↦
        let none_left : m.left ≡ 0 = left-zero run b e in
        rw e (
          level_with-LevelOk side l m.rest e (Matches-RestsAt side l.price run h.0.resting),
          subst (All (LevelOk side)) (sym (Sweeps-zero rest none_left).0) h.1,
        )
  ]

  Sweeps-coherent :
      (j : ℕ) {by : Order} {a : ℕ} {s : Swept} (b : OrderBook)
      → Sweeps by a b.levels s
      → SideOk side b
      → count_levels j b.levels ≤ 1
      → lookup_index j (unindex_all s.gone b.index) ≡ scan j (drop_empty s.levels)
  Sweeps-coherent j {s = s} b run v one =
      rw (drop_empty-scan j s.levels, lookup_index-unindex_all s.gone j b.index)
        (elim (Bool-cases (ltb 0 (count_id j s.gone))) [
          | inl g ↦
              let some_gone = ltb→lt 0 (count_id j s.gone) g in
              rw g (sym (scan-none j s.levels (omega (arith, Sweeps-count j run))))
          | inr g ↦
              let kept : count_id j s.gone ≡ 0 = ground arith in
              rw (g, Sweeps-scan j run kept) (v.coherent j)
        ])

  -- A well-formed side on which no id stands twice stays well formed when a sweep of its levels has
  -- run, its emptied levels are dropped and its index is cleared of the consumed orders.
  pub Sweeps-SideOk :
      {by : Order} {a : ℕ} {s : Swept} (b : OrderBook)
      → Sweeps by a b.levels s
      → SideOk side b
      → ((j : ℕ) → count_levels j b.levels ≤ 1)
      → SideOk side (record { levels = drop_empty s.levels; index = unindex_all s.gone b.index })
  Sweeps-SideOk b run v one = record {
    levels = Sweeps-LevelOk run v.levels;
    sorted = drop_empty-Sorted side _ (Sweeps-Sorted side run v.sorted);
    coherent = λ j. Sweeps-coherent j b run v (one j);
  }

-- Where a sweep of sorted levels has run, the aggressor has quantity left and did not meet its own
-- order, no level that it would cross is left, provided that past a price that it does not cross it
-- crosses none.
pub Sweeps-clear :
    {by : Order} {a : ℕ} {ls : List PriceLevel} {s : Swept} (side : Side)
    → ((p q : ℤ) → before side p q ≡ true → crosses by p ≡ false → crosses by q ≡ false)
    → Sweeps by a ls s
    → Sorted side ls
    → s.blocked ≡ false
    → 0 < s.left
    → All (λ l. crosses by l.price ≡ false) (drop_empty s.levels)
unfolding drop_empty is_empty
Sweeps-clear side mono (spent a ls z) sorted b h = absurd (omega arith)
Sweeps-clear side mono (exhausted a) sorted b h = tt
Sweeps-clear {by} side mono (uncrossed a l ls x) sorted b h =
    drop_empty-All (λ m. crosses by m.price ≡ false) (l ∷ ls)
      (x, All-map _ _ (λ m ahead. mono l.price m.price ahead x) ls sorted.0)
Sweeps-clear side mono (own_met a l ls m pos x run e) sorted b h = absurd (cc)
Sweeps-clear side mono (swept a l ls m r pos x run e rest) sorted b h =
    elim (Bool-cases (is_nil m.rest)) [
      | inl n ↦ rw n (Sweeps-clear side mono rest sorted.1 b h)
      | inr n ↦ absurd (omega (arith, (Sweeps-zero rest (left-zero run e n)).1))
    ]
