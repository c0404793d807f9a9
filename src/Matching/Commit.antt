-- ===== src/Matching/Commit.antt =====
-- commitSubmit of core/book.cpp: committing the executions of one level.
use multithreaded_exchange_s.Strategy.Match.{
  traded, met_own, ended, Matches, Matched, settled, gone_with, Take,
}
use multithreaded_exchange_s.Order.Lifecycle.{on_partial_fill-FillEffect, IsLive}
use multithreaded_exchange_s.Queue.{find_node}
use multithreaded_exchange_s.Order.{
  replenish, needs_replenish, is_filled, on_partial_fill, Order, visible_qty,
}
use multithreaded_exchange_s.Strategy.Simulation.{planned}
use multithreaded_exchange_s.Prelude.Word.{u64_mod}
use multithreaded_exchange_s.OrderBook.{Locator}
use multithreaded_exchange_s.Strategy.{PlannedFill}
use multithreaded_exchange_s.Prelude.{
  ℕ, ◌≤◌, ◌<◌, ◌≡◌, refl, sym, ap, ap₂, ◌∙◌, inl, inr, true, Option, some, List, [], ◌∷◌, ◌++◌, map,
  append-nil, append_assoc, arith, Bool-cases, Option-cases, ◌>>=◌,
}
use multithreaded_exchange_s.Book.Commit.{Commit, commit_fill, commit_fills, settle_fill, fill_of}
use multithreaded_exchange_s.Book.Types.{Fill}
use multithreaded_exchange_s.Matching.{level_with}
use multithreaded_exchange_s.Matching.Head.{extract-head, requeue-head, apply-head, find_node-head}
use multithreaded_exchange_s.PriceLevel.{PriceLevel}
use multithreaded_exchange_s.OrderBook.Levels.{Apart, find_level-past, set_level-past, unindex_all}

-- The aggressor after the executions.
unfoldable pub consume : Order → List PlannedFill → Order
consume ag [] = ag
consume ag (f ∷ fs) = consume (on_partial_fill ag f.quantity) fs

pub consume-append :
    (ag : Order) (xs ys : List PlannedFill) → consume ag (xs ++ ys) ≡ consume (consume ag xs) ys
unfolding consume
consume-append ag [] ys = refl
consume-append ag (x ∷ xs) ys = consume-append (on_partial_fill ag x.quantity) xs ys

fill_of-on_partial_fill :
    (ag : Order) (q : ℕ) (f : PlannedFill) → fill_of (on_partial_fill ag q) f ≡ fill_of ag f
unfolding on_partial_fill
fill_of-on_partial_fill ag q f = refl

map-fill_of :
    (ag : Order) (q : ℕ) (fs : List PlannedFill)
    → map (fill_of (on_partial_fill ag q)) fs ≡ map (fill_of ag) fs
map-fill_of ag q [] = refl
map-fill_of ag q (f ∷ fs) = ap₂ ◌∷◌ (fill_of-on_partial_fill ag q f) (map-fill_of ag q fs)

pub commit_fills-append :
    (xs ys : List PlannedFill) (c d : Commit)
    → commit_fills xs c ≡ some d
    → commit_fills (xs ++ ys) c ≡ commit_fills ys d
unfolding commit_fills
commit_fills-append [] ys c d e = ap (λ (o : Option Commit). o >>= λ x. commit_fills ys x) e
commit_fills-append (x ∷ xs) ys c d e = elim (Option-cases (commit_fill x c)) [
  | inl z ↦ absurd (cc (rw z at e))
  | inr (c', z) ↦ rw z (commit_fills-append xs ys c' d (rw z at e))
]

needs_replenish-visible : (o : Order) → needs_replenish o ≡ true → visible_qty o ≡ 0
unfolding needs_replenish
needs_replenish-visible o h = ground arith

find_node-first :
    (id : ℕ) (o : Order) (os : List Order) → o.id ≡ id → find_node id (o ∷ os) ≡ some o
find_node-first id o os e = rw (← e) (find_node-head o os)

unindex_all-gone_with :
    (o : Order) (ids : List ℕ) (index : List (ℕ × Locator))
    → unindex_all (gone_with o ids) index ≡ unindex_all ids (unindex_all (gone_with o []) index)
unfolding unindex_all
unindex_all-gone_with o ids index = elim (Bool-cases (is_filled o)) [ inl e ↦ rw e | inr e ↦ rw e ]

-- The state of the loop: the levels before the one at hand, that level and those behind it.
abbrev pub at_level :
    List PriceLevel → PriceLevel → List PriceLevel → List (ℕ × Locator) → Order → List Fill → Commit
at_level pre l ls index ag fills = record {
  opp = record { levels = pre ++ l ∷ ls; index = index };
  aggressor = ag;
  fills = fills;
}

module _ (pre : List PriceLevel) (l : PriceLevel) (ls : List PriceLevel)
    (apart : Apart l.price pre) where
  settle_fill-head :
      (t : Take) (l' : PriceLevel) (o : Order) (os : List Order) (index : List (ℕ × Locator))
      → t.id ≡ o.id
      → l'.price ≡ l.price
      → o.remaining < u64_mod
      → visible_qty o ≤ o.remaining
      → settle_fill
          (planned l.price t)
          (level_with l (o ∷ os))
          o
          (record { levels = pre ++ l' ∷ ls; index = index })
        ≡ some (record {
          levels = pre ++ level_with l (settled o os) ∷ ls;
          index = unindex_all (gone_with o []) index;
        })
  unfolding settle_fill settled unindex_all
  settle_fill-head t l' o os index same price fits shown = elim (Bool-cases (is_filled o)) [
    | inl e ↦
        rw (e, same, extract-head l o os fits (omega arith))
          (rw (set_level-past l.price pre l' (level_with l os) ls apart price))
    | inr e ↦ elim (Bool-cases (needs_replenish o)) [
      | inl n ↦
          let z : visible_qty o ≡ 0 = needs_replenish-visible o n in
          rw (e, n, same, requeue-head l o os z)
            (rw (
              set_level-past l.price pre l' (level_with l (os ++ replenish o ∷ [])) ls apart price))
      | inr n ↦
          rw (e, n) (rw (set_level-past l.price pre l' (level_with l (o ∷ os)) ls apart price))
    ]
  ]

  -- One planned fill takes the head of the level's queue.
  commit_fill-head :
      (q : ℕ) (o : Order) (os : List Order) (index : List (ℕ × Locator)) (ag : Order)
      (fills : List Fill)
      → IsLive o
      → q ≤ visible_qty o
      → let t : Take = record { id = o.id; account = o.account; quantity = q } in
        commit_fill (planned l.price t) (at_level pre (level_with l (o ∷ os)) ls index ag fills)
        ≡ some (
            at_level pre
              (level_with l (settled (on_partial_fill o q) os))
              ls
              (unindex_all (gone_with (on_partial_fill o q) []) index)
              (on_partial_fill ag q)
              (fills ++ fill_of ag (planned l.price t) ∷ []))
  unfolding commit_fill
  commit_fill-head q o os index ag fills v h =
      let f = on_partial_fill-FillEffect o q v h in
      let o' = on_partial_fill o q in
      let t : Take = record { id = o.id; account = o.account; quantity = q } in
      let full = level_with l (o ∷ os) in
      rw (
        find_level-past l.price pre full ls apart refl,
        apply-head l o os q v h,
        find_node-first o.id o' os f.id,
        settle_fill-head t full o' os index (sym f.id) refl (omega (arith, f.remaining, v.fits))
            (omega (arith, f.remaining, f.visible, v.shown)),
        fill_of-on_partial_fill ag q (planned l.price t),
      )

  -- The fills of one level leave it with the queue of the direct matching.
  pub commit_fills-Matches :
      {acct a : ℕ} {os : List Order} {m : Matched} (index : List (ℕ × Locator)) (ag : Order)
      (fills : List Fill)
      → Matches acct a os m
      → commit_fills
          (map (planned l.price) m.takes)
          (at_level pre (level_with l os) ls index ag fills)
        ≡ some (
            at_level pre
              (level_with l m.rest)
              ls
              (unindex_all m.gone index)
              (consume ag (map (planned l.price) m.takes))
              (fills ++ map (fill_of ag) (map (planned l.price) m.takes)))
  unfolding commit_fills unindex_all consume
  commit_fills-Matches index ag fills (ended a os h) =
      ap (λ fs. some (at_level pre (level_with l os) ls index ag fs)) (sym (append-nil fills))
  commit_fills-Matches index ag fills (met_own a o os h) =
      ap (λ fs. some (at_level pre (level_with l (o ∷ os)) ls index ag fs)) (sym (append-nil fills))
  commit_fills-Matches index ag fills (traded a q o os r ne v live pos le shown run) =
      rw (commit_fill-head q o os index ag fills v shown) (
        commit_fills-Matches _ (on_partial_fill ag q) _ run
        ∙ ap₂
            (λ ix fs. some (
              at_level pre (level_with l r.rest) ls ix
                (consume (on_partial_fill ag q) (map (planned l.price) r.takes)) fs))
            (sym (unindex_all-gone_with (on_partial_fill o q) r.gone index))
            (append_assoc fills
                (fill_of ag
                    (planned l.price (record { id = o.id; account = o.account; quantity = q }))
                  ∷ [])
                _
              ∙ ap
                  (λ fs.
                    fills
                    ++ (fill_of ag (
                          planned l.price (record { id = o.id; account = o.account; quantity = q }))
                        ∷ fs))
                  (map-fill_of ag q (map (planned l.price) r.takes))))

-- The fills name the aggressor the same way however much of it is consumed.
pub map-fill_of-consume :
    (ag : Order) (xs fs : List PlannedFill) → map (fill_of (consume ag xs)) fs ≡ map (fill_of ag) fs
unfolding consume
map-fill_of-consume ag [] fs = refl
map-fill_of-consume ag (x ∷ xs) fs =
    map-fill_of-consume (on_partial_fill ag x.quantity) xs fs ∙ map-fill_of ag x.quantity fs
