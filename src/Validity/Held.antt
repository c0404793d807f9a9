-- ===== src/Validity/Held.antt =====
-- core/order_book.hpp: from an id that a side holds through the index and the level to the order.
use multithreaded_exchange_s.Validity.Rest.{before_apart}
use multithreaded_exchange_s.Prelude.Int.{eqb_ℤ_iff, eqb_ℤ, ℤ}
use multithreaded_exchange_s.OrderBook.Levels.{eqb_ℤ_refl}
use multithreaded_exchange_s.OrderBook.{lookup_index, OrderBook, find_level}
use multithreaded_exchange_s.Queue.Ids.{has_node, count_node}
use multithreaded_exchange_s.Validity.{Ahead, SideOk, Sorted, count_levels, scan}
use multithreaded_exchange_s.Order.{Order}
use multithreaded_exchange_s.PriceLevel.{PriceLevel}
use multithreaded_exchange_s.Types.{Side}
use multithreaded_exchange_s.OrderBook
use multithreaded_exchange_s.Queue.{find_node}
use multithreaded_exchange_s.Queue.Count.{find_node-id}
use multithreaded_exchange_s.Prelude.{
  ℕ, ◌<◌, ◌≡◌, refl, subst, ◌∙◌, inl, inr, true, false, some, List, [], ◌∷◌, arith, ◌==◌,
  Bool-cases,
}

found-apart :
    (side : Side) (p q : ℤ) (l : PriceLevel) (ls : List PriceLevel)
    → Ahead side p ls
    → find_level q ls ≡ some l
    → eqb_ℤ p q ≡ false
unfolding find_level
found-apart side p q l [] h e = absurd (cc)
found-apart side p q l (m ∷ ls) h e = elim (Bool-cases (eqb_ℤ m.price q)) [
  | inl k ↦
      subst (λ r. eqb_ℤ p r ≡ false) ((eqb_ℤ_iff m.price q).0 k) (before_apart side p m.price h.0)
  | inr k ↦ found-apart side p q l ls h.1 (rw k at e)
]

node_held :
    (j : ℕ) (os : List Order) → has_node j os ≡ true → (o : Order) × (find_node j os ≡ some o)
unfolding find_node count_node
node_held j [] h = absurd (ground arith)
node_held j (o ∷ os) h = elim (Bool-cases (o.id == j)) [
  | inl k ↦ rw k (o, refl)
  | inr k ↦ let rest : has_node j os ≡ true = ground (arith, h, k) in rw k (node_held j os rest)
]

-- Where an id is held, and how it is found.
pub record Held (j : ℕ) (ls : List PriceLevel) : Type 0 where
  pub level : PriceLevel
  pub order : Order
  pub scanned : scan j ls ≡ some (record { price = level.price; position = j })
  pub at_price : find_level level.price ls ≡ some level
  pub in_queue : find_node j level.orders ≡ some order

pub levels-Held :
    (side : Side) (j : ℕ) (ls : List PriceLevel)
    → Sorted side ls
    → 0 < count_levels j ls
    → Held j ls
unfolding scan count_levels find_level
levels-Held side j [] s h = absurd (omega (arith, h))
levels-Held side j (l ∷ ls) s h = elim (Bool-cases (has_node j l.orders)) [
  | inl k ↦
      let n = node_held j l.orders k in
      record {
        level = l;
        order = n.0;
        scanned = rw k refl;
        at_price = rw (eqb_ℤ_refl l.price) refl;
        in_queue = n.1;
      }
  | inr k ↦
      let further : 0 < count_levels j ls = ground (arith, h, k) in
      let r = levels-Held side j ls s.1 further in
      record {
        level = r.level;
        order = r.order;
        scanned = rw k r.scanned;
        at_price = rw (found-apart side l.price r.level.price r.level ls s.0 r.at_price) r.at_price;
        in_queue = r.in_queue;
      }
]

-- A well-formed side finds an order of each id that it holds.
pub side-find :
    (side : Side) (j : ℕ) (b : OrderBook)
    → SideOk side b
    → 0 < count_levels j b.levels
    → (o : Order) × (OrderBook.find j b ≡ some o) × (o.id ≡ j)
unfolding OrderBook.find
side-find side j b v h =
    let r = levels-Held side j b.levels v.sorted h in
    let indexed : lookup_index j b.index ≡ some (record { price = r.level.price; position = j }) =
      v.coherent j ∙ r.scanned in
    (r.order, rw (indexed, r.at_price) r.in_queue, find_node-id r.level.orders j r.order r.in_queue)
