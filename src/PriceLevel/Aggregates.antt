-- ===== src/PriceLevel/Aggregates.antt =====
-- core/price_level.cpp: the cached sums of a level against the orders in its queue.
use multithreaded_exchange_s.Prelude.{
  ℕ, ◌%◌, ◌≤◌, ◌<◌, ◌≡◌, [], ◌∷◌, List, some, arith, subst, ◌∙◌, ap, ◌++◌,
}
use multithreaded_exchange_s.Prelude.Word.{u64_mod, add64, sub64, add64_mod, sub64_mod}
use multithreaded_exchange_s.Order.{Order, visible_qty, on_partial_fill, replenish, reduce_to}
use multithreaded_exchange_s.Order.Lifecycle.{IsLive, on_partial_fill-FillEffect}
use multithreaded_exchange_s.Queue.{find_node, erase_node, set_node, sum_remaining, sum_visible}
use multithreaded_exchange_s.Queue.Count.{
  erase_node-Taken, set_node-Written, sum_remaining-append, sum_visible-append,
}
use multithreaded_exchange_s.PriceLevel.{
  PriceLevel, extract, enqueue, apply_fill, replenish_and_requeue, reduce_quantity, adopt,
}

pub record IsSummed (l : PriceLevel) : Type 0 where
  pub total : l.total_qty ≡ sum_remaining l.orders % u64_mod
  pub visible : l.visible_qty ≡ sum_visible l.orders % u64_mod

-- What each operation of the level does to it, as a step. A node that is filled or replenished is
-- live, and a fill is at most what the order shows.
pub data LevelStep (l : PriceLevel) : PriceLevel → Type 0 where
  enqueues : (o : Order) → LevelStep l (enqueue l o)
  extracts :
      (id : ℕ) (o : Order) (m : PriceLevel)
      → find_node id l.orders ≡ some o
      → o.remaining < u64_mod
      → visible_qty o < u64_mod
      → extract l id ≡ some (o, m)
      → LevelStep l m
  fills :
      (id q : ℕ) (o : Order) (m : PriceLevel)
      → find_node id l.orders ≡ some o
      → IsLive o
      → q ≤ visible_qty o
      → apply_fill l id q ≡ some m
      → LevelStep l m
  replenishes :
      (id : ℕ) (o : Order) (m : PriceLevel)
      → find_node id l.orders ≡ some o
      → visible_qty o ≡ 0
      → replenish_and_requeue l id ≡ some m
      → LevelStep l m
  reduces :
      (id q : ℕ) (o : Order) (m : PriceLevel)
      → find_node id l.orders ≡ some o
      → o.remaining < u64_mod
      → visible_qty o < u64_mod
      → reduce_quantity l id q ≡ some m
      → LevelStep l m
  adopts :
      (source rest : List Order) (id : ℕ) (o : Order) (m : PriceLevel)
      → find_node id source ≡ some o
      → adopt l source id ≡ some (m, rest)
      → LevelStep l m

pub enqueue-IsSummed : (l : PriceLevel) (o : Order) → IsSummed l → IsSummed (enqueue l o)
unfolding enqueue sum_remaining sum_visible
enqueue-IsSummed l o s = record {
  total =
      add64_mod l.total_qty o.remaining (sum_remaining l.orders) _ s.total
        (omega (arith, sum_remaining-append l.orders (o ∷ [])));
  visible =
      add64_mod l.visible_qty (visible_qty o) (sum_visible l.orders) _ s.visible
        (omega (arith, sum_visible-append l.orders (o ∷ [])));
}

module _ (l : PriceLevel) (s : IsSummed l) (id : ℕ) (o : Order)
    (found : find_node id l.orders ≡ some o) where
  pub extract-IsSummed :
      o.remaining < u64_mod
      → visible_qty o < u64_mod
      → IsSummed (record l {
        orders = erase_node id l.orders;
        total_qty = sub64 l.total_qty o.remaining;
        visible_qty = sub64 l.visible_qty (visible_qty o);
      })
  extract-IsSummed h k = record {
    total =
        sub64_mod l.total_qty o.remaining _ _ s.total h
          (erase_node-Taken l.orders id o found).remaining;
    visible =
        sub64_mod l.visible_qty (visible_qty o) _ _ s.visible k
          (erase_node-Taken l.orders id o found).visible;
  }

  pub fill-IsSummed :
      (q : ℕ)
      → IsLive o
      → q ≤ visible_qty o
      → IsSummed (record l {
        orders = set_node id (on_partial_fill o q) l.orders;
        total_qty = sub64 l.total_qty q;
        visible_qty = sub64 l.visible_qty q;
      })
  fill-IsSummed q v h =
      let w = set_node-Written l.orders id o (on_partial_fill o q) found in
      let f = on_partial_fill-FillEffect o q v h in
      let small : q < u64_mod = omega (arith, v.shown, v.fits, h) in
      record {
        total = sub64_mod l.total_qty q _ _ s.total small (omega (arith, w.remaining, f.remaining));
        visible =
            sub64_mod l.visible_qty q _ _ s.visible small (omega (arith, w.visible, f.visible));
      }

  pub requeue-IsSummed :
      visible_qty o ≡ 0
      → IsSummed (record l {
        orders = erase_node id l.orders ++ replenish o ∷ [];
        visible_qty = add64 l.visible_qty (visible_qty (replenish o));
      })
  unfolding sum_remaining sum_visible replenish
  requeue-IsSummed z =
      let t = erase_node-Taken l.orders id o found in
      record {
        total =
            rw (sum_remaining-append (erase_node id l.orders) (replenish o ∷ []))
              (s.total ∙ ap (λ n. n % u64_mod) (omega (arith, t.remaining)));
        visible = add64_mod l.visible_qty (visible_qty (replenish o)) _ _ s.visible (
            omega (
              arith,
              t.visible,
              z,
              sum_visible-append (erase_node id l.orders) (replenish o ∷ []),
            ));
      }

  pub reduce-IsSummed :
      (n : Order)
      → o.remaining < u64_mod
      → visible_qty o < u64_mod
      → IsSummed (record l {
        orders = set_node id n l.orders;
        total_qty = add64 (sub64 l.total_qty o.remaining) n.remaining;
        visible_qty = add64 (sub64 l.visible_qty (visible_qty o)) (visible_qty n);
      })
  reduce-IsSummed n h k =
      let t = erase_node-Taken l.orders id o found in
      let w = set_node-Written l.orders id o n found in
      record {
        total =
            add64_mod _ n.remaining _ _
              (sub64_mod l.total_qty o.remaining _ _ s.total h t.remaining)
              (omega (arith, w.remaining, t.remaining));
        visible =
            add64_mod _ (visible_qty n) _ _
              (sub64_mod l.visible_qty (visible_qty o) _ _ s.visible k t.visible)
              (omega (arith, w.visible, t.visible));
      }

extract_step :
    (l : PriceLevel) (id : ℕ) (o : Order) (m : PriceLevel)
    → find_node id l.orders ≡ some o
    → o.remaining < u64_mod
    → visible_qty o < u64_mod
    → extract l id ≡ some (o, m)
    → IsSummed l
    → IsSummed m
unfolding extract
extract_step l id o m found h k e s =
    subst IsSummed (ground arith) (extract-IsSummed l s id o found h k)

fill_step :
    (l : PriceLevel) (id q : ℕ) (o : Order) (m : PriceLevel)
    → find_node id l.orders ≡ some o
    → IsLive o
    → q ≤ visible_qty o
    → apply_fill l id q ≡ some m
    → IsSummed l
    → IsSummed m
unfolding apply_fill
fill_step l id q o m found v h e s =
    subst IsSummed (ground arith) (fill-IsSummed l s id o found q v h)

requeue_step :
    (l : PriceLevel) (id : ℕ) (o : Order) (m : PriceLevel)
    → find_node id l.orders ≡ some o
    → visible_qty o ≡ 0
    → replenish_and_requeue l id ≡ some m
    → IsSummed l
    → IsSummed m
unfolding replenish_and_requeue
requeue_step l id o m found z e s =
    subst IsSummed (ground arith) (requeue-IsSummed l s id o found z)

reduce_step :
    (l : PriceLevel) (id q : ℕ) (o : Order) (m : PriceLevel)
    → find_node id l.orders ≡ some o
    → o.remaining < u64_mod
    → visible_qty o < u64_mod
    → reduce_quantity l id q ≡ some m
    → IsSummed l
    → IsSummed m
unfolding reduce_quantity
reduce_step l id q o m found h k e s =
    subst IsSummed (ground arith) (reduce-IsSummed l s id o found (reduce_to o q) h k)

adopt_step :
    (l : PriceLevel) (source rest : List Order) (id : ℕ) (o : Order) (m : PriceLevel)
    → find_node id source ≡ some o
    → adopt l source id ≡ some (m, rest)
    → IsSummed l
    → IsSummed m
unfolding adopt enqueue
adopt_step l source rest id o m found e s = subst IsSummed (ground arith) (enqueue-IsSummed l o s)

-- Every operation of a price level, on a node that it holds and within what the operation asks of
-- the node and the quantity, keeps both cached sums equal, modulo 2 ^ 64, to the sums over the orders
-- in the queue.
pub LevelStep-IsSummed : {l m : PriceLevel} → LevelStep l m → IsSummed l → IsSummed m
LevelStep-IsSummed {l} (enqueues o) s = enqueue-IsSummed l o s
LevelStep-IsSummed {l} (extracts id o m found h k e) s = extract_step l id o m found h k e s
LevelStep-IsSummed {l} (fills id q o m found v h e) s = fill_step l id q o m found v h e s
LevelStep-IsSummed {l} (replenishes id o m found z e) s = requeue_step l id o m found z e s
LevelStep-IsSummed {l} (reduces id q o m found h k e) s = reduce_step l id q o m found h k e s
LevelStep-IsSummed {l} (adopts source rest id o m found e) s =
    adopt_step l source rest id o m found e s
