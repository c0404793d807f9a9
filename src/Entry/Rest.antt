-- ===== src/Entry/Rest.antt =====
-- core/book.cpp, the end of commitSubmit: an order that comes to rest in the level of its price.
use multithreaded_exchange_s.Validity.Rest.{
  rested-SideOk, before_total, before_apart, with_rested, before_trans, rested,
}
use multithreaded_exchange_s.Validity.Ids.{lookup_index-install, scan-none}
use multithreaded_exchange_s.Prelude.Int.{eqb_ℤ_iff, eqb_ℤ, ℤ}
use multithreaded_exchange_s.Prelude.{
  sym, subst, inr, inl, All-map, Bool-cases, arith, false, none, some, true, ◌∷◌, [], ℕ, ◌++◌, List,
  Option, ◌≡◌, refl, ap, ◌∙◌, ==_iff,
}
use multithreaded_exchange_s.Entry.Refine.{rest_order-rested, before_distinct}
use multithreaded_exchange_s.Book.Commit.{rest_order}
use multithreaded_exchange_s.OrderBook.Levels.{eqb_ℤ_refl}
use multithreaded_exchange_s.Strategy.Facts.{RestsAt}
use multithreaded_exchange_s.Validity.{Sorted, Ahead, SideOk, count_levels}
use multithreaded_exchange_s.Types.{before, Side}
use multithreaded_exchange_s.PriceLevel.{enqueue, PriceLevel, make_level}
use multithreaded_exchange_s.Book.Plan.{PreparedSubmit}
use multithreaded_exchange_s.OrderBook.{OrderBook, find_level}
use multithreaded_exchange_s.Order.{Order}
use multithreaded_exchange_s.Queue.Ids.{count_node}
use multithreaded_exchange_s.Queue.{find_node}
use multithreaded_exchange_s.OrderBook

-- The queue at a price, which is empty where there is no level.
abbrev queue_of : Option PriceLevel → List Order
queue_of none = []
queue_of (some l) = l.orders

abbrev orders_at : ℤ → OrderBook → List Order
orders_at p b = queue_of (find_level p b.levels)

-- The side with the order at rest: it is the last of its price, and found by its id; no other price is
-- touched.
pub record ComesToRest (side : Side) (p : ℤ) (a : Order) (own after : OrderBook) : Type 0 where
  pub ok : SideOk side after
  pub found : OrderBook.find a.id after ≡ some a
  pub last : orders_at p after ≡ orders_at p own ++ a ∷ []
  pub others : (q : ℤ) → eqb_ℤ p q ≡ false → orders_at q after ≡ orders_at q own

no_level : (side : Side) (p : ℤ) (ls : List PriceLevel) → Ahead side p ls → find_level p ls ≡ none
unfolding find_level
no_level side p [] h = refl
no_level side p (l ∷ ls) h = rw (before_distinct side p l.price h.0) (no_level side p ls h.1)

further-Ahead :
    (side : Side) (p : ℤ) (l : PriceLevel) (ls : List PriceLevel)
    → before side p l.price ≡ true
    → Ahead side l.price ls
    → Ahead side p ls
further-Ahead side p l ls first = All-map _ _ (λ m. before_trans side p l.price m.price first) ls

-- The level of the price after the insertion.
rested_level :
    (side : Side) (p : ℤ) (a : Order) (ls : List PriceLevel)
    → Sorted side ls
    → (l : PriceLevel) × (find_level p (rested side p a ls) ≡ some l)
      × (l.orders ≡ queue_of (find_level p ls) ++ a ∷ [])
unfolding rested find_level make_level enqueue
rested_level side p a [] h = (enqueue (make_level p) a, rw (eqb_ℤ_refl p) refl, refl)
rested_level side p a (l ∷ ls) h = elim (Bool-cases (before side l.price p)) [
  | inl b ↦
      let apart = before_apart side l.price p b in
      let (d, found, same) = rested_level side p a ls h.1 in rw b (d, rw apart found, rw apart same)
  | inr b ↦ elim (Bool-cases (eqb_ℤ l.price p)) [
    | inl e ↦ rw (b, e) (enqueue l a, rw e refl, refl)
    | inr e ↦
        let first = before_total side l.price p b e in
        rw (b, e)
          (
            enqueue (make_level p) a,
            rw (eqb_ℤ_refl p) refl,
            rw (no_level side p ls (further-Ahead side p l ls first h.0)) refl,
          )
  ]
]

other_levels :
    (side : Side) (p q : ℤ) (a : Order) (ls : List PriceLevel)
    → eqb_ℤ p q ≡ false
    → queue_of (find_level q (rested side p a ls)) ≡ queue_of (find_level q ls)
unfolding rested find_level make_level enqueue
other_levels side p q a [] h = rw h refl
other_levels side p q a (l ∷ ls) h = elim (Bool-cases (before side l.price p)) [
  | inl b ↦ elim (Bool-cases (eqb_ℤ l.price q)) [
    | inl k ↦ rw (b, k) refl
    | inr k ↦ rw (b, k) (other_levels side p q a ls h)
  ]
  | inr b ↦ elim (Bool-cases (eqb_ℤ l.price p)) [
    | inl e ↦
        let other : eqb_ℤ l.price q ≡ false =
          subst (λ x. eqb_ℤ x q ≡ false) (sym ((eqb_ℤ_iff l.price p).0 e)) h in
        rw (b, e) (rw other refl)
    | inr e ↦ rw (b, e) (rw h refl)
  ]
]

last_node :
    (a : Order) (os : List Order) → count_node a.id os ≡ 0 → find_node a.id (os ++ a ∷ []) ≡ some a
unfolding find_node count_node
last_node a [] h = ground arith
last_node a (o ∷ os) h = ground (arith, last_node a os)

-- An id that no level holds is in no queue.
queue_without :
    (p : ℤ) (j : ℕ) (ls : List PriceLevel)
    → count_levels j ls ≡ 0
    → count_node j (queue_of (find_level p ls)) ≡ 0
unfolding find_level count_levels count_node
queue_without p j [] h = refl
queue_without p j (l ∷ ls) h = elim (Bool-cases (eqb_ℤ l.price p)) [
  | inl e ↦ rw e (omega (arith, h))
  | inr e ↦ rw e (queue_without p j ls (omega (arith, h)))
]

rested-ComesToRest :
    (side : Side) (p : ℤ) (a : Order) (own : OrderBook)
    → RestsAt side p a
    → count_levels a.id own.levels ≡ 0
    → SideOk side own
    → ComesToRest side p a own (with_rested side p a own)
unfolding OrderBook.find
rested-ComesToRest side p a own h new v =
    let (l, at_price, queue) = rested_level side p a own.levels v.sorted in
    let unknown = v.coherent a.id ∙ scan-none a.id own.levels new in
    let indexed =
      lookup_index-install a.id a.id (record { price = p; position = a.id }) own.index unknown in
    let in_queue : find_node a.id l.orders ≡ some a =
      ap (find_node a.id) queue
      ∙ last_node a (orders_at p own) (queue_without p a.id own.levels new) in
    record {
      ok = rested-SideOk side p a own h new v;
      found = rw (indexed, (==_iff a.id a.id).1 refl, at_price) in_queue;
      last = ap queue_of at_price ∙ queue;
      others = λ q k. other_levels side p q a own.levels k;
    }

-- An order that may rest at a price, with an id that its well-formed side does not hold, and what
-- prepareSubmit made for it: the end of commitSubmit breaks no precondition. After it the side is well
-- formed, the order is the last of its price and found by its id, and every other price has the queue it
-- had.
pub rest_order-ComesToRest :
    (side : Side) (p : ℤ) (own : OrderBook) (a : Order) (prepared : PreparedSubmit)
    → prepared.level_node ≡ some (make_level p)
    → prepared.index_node ≡ some a.id
    → prepared.rest_price ≡ p
    → prepared.position ≡ a.id
    → RestsAt side p a
    → count_levels a.id own.levels ≡ 0
    → SideOk side own
    → (after : OrderBook) × (rest_order side own prepared a ≡ some after)
      × ComesToRest side p a own after
rest_order-ComesToRest side p own a prepared node index price position h new v = (
  with_rested side p a own,
  rest_order-rested side p own a a prepared refl node index price position,
  rested-ComesToRest side p a own h new v,
)
