-- ===== src/Validity/Rest.antt =====
-- core/book.cpp: the own side when an order comes to rest, and its level is found or made.
use multithreaded_exchange_s.OrderBook.{
  lookup_index, OrderBook, install_level, find_level, set_level, install_index,
}
use multithreaded_exchange_s.Prelude.Int.{eqb_ℤ_iff, eqb_ℤ, ℤ}
use multithreaded_exchange_s.PriceLevel.{is_nil, PriceLevel, make_level, is_empty, enqueue}
use multithreaded_exchange_s.Types.{before, Side}
use multithreaded_exchange_s.OrderBook.Levels.{eqb_ℤ_refl}
use multithreaded_exchange_s.Strategy.Facts.{RestsAt}
use multithreaded_exchange_s.Queue.{sum_visible, sum_remaining}
use multithreaded_exchange_s.Order.{Order}
use multithreaded_exchange_s.Prelude.{
  ℕ, ◌+◌, ◌≡◌, refl, sym, ap, subst, ◌∙◌, ◌⊎◌, inl, inr, true, false, none, some, List, [], ◌∷◌,
  ◌++◌, arith, ltb, ◌==◌, if◌then◌else◌, ==_iff, Bool-cases, All, All-append, All-map,
}
use multithreaded_exchange_s.Validity.{scan, count_levels, LevelOk, SideOk, Sorted}
use multithreaded_exchange_s.Validity.Ids.{lookup_index-install, scan-none}
use multithreaded_exchange_s.Queue.Ids.{count_node, is_id, count_node-append}
use multithreaded_exchange_s.PriceLevel.Aggregates.{IsSummed, enqueue-IsSummed}

-- The levels with the order at the back of its price's queue.
unfoldable pub rested : Side → ℤ → Order → List PriceLevel → List PriceLevel
rested side p a [] = enqueue (make_level p) a ∷ []
rested side p a (l ∷ ls) =
    if before side l.price p
    then l ∷ rested side p a ls
    else if eqb_ℤ l.price p
    then enqueue l a ∷ ls
    else enqueue (make_level p) a ∷ l ∷ ls

pub before_apart : (side : Side) (p q : ℤ) → before side p q ≡ true → eqb_ℤ p q ≡ false
before_apart Side.buy p q h = ground arith
before_apart Side.sell p q h = ground arith

pub before_total :
    (side : Side) (p q : ℤ) → before side p q ≡ false → eqb_ℤ p q ≡ false → before side q p ≡ true
before_total Side.buy p q h e = ground arith
before_total Side.sell p q h e = ground arith

pub before_trans :
    (side : Side) (p q r : ℤ)
    → before side p q ≡ true
    → before side q r ≡ true
    → before side p r ≡ true
before_trans Side.buy p q r h k = ground arith
before_trans Side.sell p q r h k = ground arith

-- Whether or not the price had a level, installing its node, finding the level and putting the order
-- at the back of its queue makes the levels with the order at rest.
pub install-rested :
    (side : Side) (p : ℤ) (a : Order) (ls : List PriceLevel)
    → let installed = install_level side (make_level p) ls in
      (d : PriceLevel) × (find_level p installed ≡ some d)
      × (set_level p (enqueue d a) installed ≡ rested side p a ls)
unfolding install_level find_level set_level rested make_level
install-rested side p a [] =
    (make_level p, ground (arith, eqb_ℤ_refl p), ground (arith, eqb_ℤ_refl p))
install-rested side p a (l ∷ ls) = elim (Bool-cases (before side l.price p)) [
  | inl b ↦
      let (d, found, written) = install-rested side p a ls in
      let apart = before_apart side l.price p b in
      rw b (d, rw apart found, rw apart (ap (◌∷◌ l) written))
  | inr b ↦ elim (Bool-cases (eqb_ℤ l.price p)) [
    | inl e ↦ rw (b, e) (l, rw e, rw e)
    | inr e ↦ rw (b, e) (make_level p, rw (eqb_ℤ_refl p), rw (eqb_ℤ_refl p))
  ]
]

pub rested-price :
    (P : ℤ → Type 0) (side : Side) (p : ℤ) (a : Order) (ls : List PriceLevel)
    → P p
    → All (λ l. P l.price) ls
    → All (λ l. P l.price) (rested side p a ls)
unfolding rested make_level enqueue
rested-price P side p a [] h all = (h, tt)
rested-price P side p a (l ∷ ls) h all = elim (Bool-cases (before side l.price p)) [
  | inl b ↦ rw b (all.0, rested-price P side p a ls h all.1)
  | inr b ↦ elim (Bool-cases (eqb_ℤ l.price p)) [
    | inl e ↦ rw (b, e) all
    | inr e ↦ rw (b, e) (h, all)
  ]
]

pub rested-Sorted :
    (side : Side) (p : ℤ) (a : Order) (ls : List PriceLevel)
    → Sorted side ls
    → Sorted side (rested side p a ls)
unfolding rested make_level enqueue
rested-Sorted side p a [] h = (tt, tt)
rested-Sorted side p a (l ∷ ls) h = elim (Bool-cases (before side l.price p)) [
  | inl b ↦ rw b (
    rested-price (λ q. before side l.price q ≡ true) side p a ls b h.0,
    rested-Sorted side p a ls h.1,
  )
  | inr b ↦ elim (Bool-cases (eqb_ℤ l.price p)) [
    | inl e ↦ rw (b, e) h
    | inr e ↦
        let first = before_total side l.price p b e in
        rw (b, e)
          ((first, All-map _ _ (λ m k. before_trans side p l.price m.price first k) ls h.0), h)
  ]
]

enqueue-LevelOk :
    (side : Side) (l : PriceLevel) (a : Order)
    → IsSummed l
    → All (RestsAt side l.price) l.orders
    → RestsAt side l.price a
    → LevelOk side (enqueue l a)
unfolding enqueue is_empty
enqueue-LevelOk side l a sum all h = record {
  summed = enqueue-IsSummed l a sum;
  holds = nonempty l.orders;
  resting = All-append (RestsAt side l.price) l.orders (a ∷ []) all (h, tt);
}
  where
    nonempty : (os : List Order) → is_nil (os ++ a ∷ []) ≡ false
    nonempty [] = refl
    nonempty (o ∷ os) = refl

fresh_level : (p : ℤ) → IsSummed (make_level p)
unfolding make_level sum_remaining sum_visible
fresh_level p = record { total = refl; visible = refl }

pub rested-LevelOk :
    (side : Side) (p : ℤ) (a : Order) (ls : List PriceLevel)
    → RestsAt side p a
    → All (LevelOk side) ls
    → All (LevelOk side) (rested side p a ls)
unfolding rested make_level
rested-LevelOk side p a [] h all = (enqueue-LevelOk side (make_level p) a (fresh_level p) tt h, tt)
rested-LevelOk side p a (l ∷ ls) h all = elim (Bool-cases (before side l.price p)) [
  | inl b ↦ rw b (all.0, rested-LevelOk side p a ls h all.1)
  | inr b ↦ elim (Bool-cases (eqb_ℤ l.price p)) [
    | inl e ↦
        let same : p ≡ l.price = sym ((eqb_ℤ_iff l.price p).0 e) in
        rw (b, e)
          (
            enqueue-LevelOk side l a (all.0).summed (all.0).resting
                (subst (λ q. RestsAt side q a) same h),
            all.1,
          )
    | inr e ↦ rw (b, e) (enqueue-LevelOk side (make_level p) a (fresh_level p) tt h, all)
  ]
]

enqueue-count :
    (j : ℕ) (l : PriceLevel) (a : Order)
    → count_node j (enqueue l a).orders ≡ count_node j l.orders + is_id a.id j
unfolding enqueue count_node
enqueue-count j l a = omega (arith, count_node-append j l.orders (a ∷ []))

pub rested-count :
    (j : ℕ) (side : Side) (p : ℤ) (a : Order) (ls : List PriceLevel)
    → count_levels j (rested side p a ls) ≡ count_levels j ls + is_id a.id j
unfolding rested count_levels make_level enqueue count_node
rested-count j side p a [] = omega arith
rested-count j side p a (l ∷ ls) = elim (Bool-cases (before side l.price p)) [
  | inl b ↦ rw b (omega (arith, rested-count j side p a ls))
  | inr b ↦ elim (Bool-cases (eqb_ℤ l.price p)) [
    | inl e ↦ rw (b, e) (omega (arith, count_node-append j l.orders (a ∷ [])))
    | inr e ↦ rw (b, e) (omega arith)
  ]
]

-- An id that the queue does not hold.
absent : (i j : ℕ) (os : List Order) → count_node i os ≡ 0 → (i == j) ≡ true → count_node j os ≡ 0
absent i j os h e = subst (λ k. count_node k os ≡ 0) ((==_iff i j).0 e) h

swap_tests {ℓ} :
    {A : Type ℓ} (n i j : ℕ) (u v w : A)
    → ((i == j) ≡ true → n ≡ 0)
    → (if ltb 0 n then u else if i == j then v else w)
      ≡ (if i == j then v else if ltb 0 n then u else w)
swap_tests n i j u v w h = elim (Bool-cases (i == j)) [ inl e ↦ rw (e, h e) | inr e ↦ rw e ]

join_tests {ℓ} :
    {A : Type ℓ} (n i j : ℕ) (u v w : A)
    → u ≡ v
    → (if ltb 0 (n + (is_id i j + 0)) then u else w)
      ≡ (if i == j then v else if ltb 0 n then u else w)
join_tests n i j u v w h = ground arith

-- A new id is found at its price, and every other id where it was.
pub rested-scan :
    (j : ℕ) (side : Side) (p : ℤ) (a : Order) (ls : List PriceLevel)
    → count_levels a.id ls ≡ 0
    → scan j (rested side p a ls)
      ≡ (if a.id == j then some (record { price = p; position = j }) else scan j ls)
unfolding rested count_levels scan make_level enqueue count_node
rested-scan j side p a [] h = ground arith
rested-scan j side p a (l ∷ ls) h = elim (Bool-cases (before side l.price p)) [
  | inl b ↦
      rw (b, rested-scan j side p a ls (omega arith))
        (swap_tests (count_node j l.orders) a.id j _ _ _ (absent a.id j l.orders (omega arith)))
  | inr b ↦ elim (Bool-cases (eqb_ℤ l.price p)) [
    | inl e ↦
        rw (b, e, count_node-append j l.orders (a ∷ []))
          (join_tests (count_node j l.orders) a.id j _ _ (scan j ls)
            (ap (λ q. some (record { price = q; position = j })) ((eqb_ℤ_iff l.price p).0 e)))
    | inr e ↦ rw (b, e) (ground arith)
  ]
]

-- The side with the order at rest: its level, and its entry in the index.
abbrev pub with_rested : Side → ℤ → Order → OrderBook → OrderBook
with_rested side p a b = record {
  levels = rested side p a b.levels;
  index = install_index a.id (record { price = p; position = a.id }) b.index;
}

-- A well-formed side stays so when an order that may rest at the price, with an id that the side
-- does not hold, comes to rest on it.
pub rested-SideOk :
    (side : Side) (p : ℤ) (a : Order) (b : OrderBook)
    → RestsAt side p a
    → count_levels a.id b.levels ≡ 0
    → SideOk side b
    → SideOk side (with_rested side p a b)
rested-SideOk side p a b h new v = record {
  levels = rested-LevelOk side p a b.levels h v.levels;
  sorted = rested-Sorted side p a b.levels v.sorted;
  coherent = λ j. coherent_at j (Bool-cases (a.id == j));
}
  where
    unknown : lookup_index a.id b.index ≡ none
    unknown = v.coherent a.id ∙ scan-none a.id b.levels new

    coherent_at :
        (j : ℕ)
        → ((a.id == j) ≡ true) ⊎ ((a.id == j) ≡ false)
        → lookup_index j (with_rested side p a b).index ≡ scan j (with_rested side p a b).levels
    coherent_at j (inl e) =
        rw
          (
            lookup_index-install a.id j (record { price = p; position = a.id }) b.index unknown,
            rested-scan j side p a b.levels new,
            e,
          )
          (ap (λ i. some (record { price = p; position = i })) ((==_iff a.id j).0 e))
    coherent_at j (inr e) =
        rw
          (
            lookup_index-install a.id j (record { price = p; position = a.id }) b.index unknown,
            rested-scan j side p a b.levels new,
            e,
          )
          (v.coherent j)
