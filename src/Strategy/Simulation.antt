-- ===== src/Strategy/Simulation.antt =====
-- The plan of core/price_time_strategy.cpp against direct matching: the working copy mirrors the
-- orders, round by round.
use multithreaded_exchange_s.Prelude.{
  ℕ, zero, suc, ◌-◌, ◌≤◌, ◌<◌, ◌≡◌, refl, true, false, List, [], ◌∷◌, ◌++◌, map, min, ◌==◌,
  if◌then◌else◌, arith, All, inl, inr, Bool-cases, some, sym, ap, ◌∙◌, ltb, append-nil,
  append_assoc,
}
use multithreaded_exchange_s.Prelude.Int.{ℤ}
use multithreaded_exchange_s.Prelude.Word.{u64_mod, sub64_exact}
use multithreaded_exchange_s.Order.{
  Order, Kind, visible_qty, display_size, is_filled, on_partial_fill, needs_replenish, replenish,
}
use multithreaded_exchange_s.Order.Lifecycle.{IsLive}
use multithreaded_exchange_s.Strategy.{
  Pending, PlannedFill, MatchPlan, snapshot, advance, planned_fill, take_from, plan_loop, plan,
}
use multithreaded_exchange_s.PriceLevel.{PriceLevel}
use multithreaded_exchange_s.Strategy.Match.{
  Take, Matched, match_queue, settled, settled-All-IsLive,
}

-- The display size matters only where the order hides quantity.
abbrev DisplayAgrees : Kind → ℕ → Type 0
DisplayAgrees (Kind.iceberg l d v) n = n ≡ d
DisplayAgrees (Kind.limit l) n = Unit
DisplayAgrees Kind.market n = Unit

record Mirrors (p : Pending) (o : Order) : Type 0 where
  position : p.position ≡ o.id
  id : p.id ≡ o.id
  account : p.account ≡ o.account
  remaining : p.remaining ≡ o.remaining
  visible : p.visible ≡ visible_qty o
  display : DisplayAgrees o.kind p.display

abbrev MirrorsAll : List Pending → List Order → Type 0
MirrorsAll [] [] = Unit
MirrorsAll [] (o ∷ os) = ⊥
MirrorsAll (p ∷ ps) [] = ⊥
MirrorsAll (p ∷ ps) (o ∷ os) = Mirrors p o × MirrorsAll ps os

snapshot_kind : (o : Order) (k : Kind) → o.kind ≡ k → Mirrors (snapshot o) o
unfolding snapshot display_size
snapshot_kind o (Kind.limit l) e = ground arith
snapshot_kind o Kind.market e = ground arith
snapshot_kind o (Kind.iceberg l d v) e = ground arith

snapshot-MirrorsAll : (os : List Order) → MirrorsAll (map snapshot os) os
snapshot-MirrorsAll [] = tt
snapshot-MirrorsAll (o ∷ os) = (snapshot_kind o o.kind refl, snapshot-MirrorsAll os)

MirrorsAll-append :
    (ps : List Pending) (os : List Order) (p : Pending) (o : Order)
    → MirrorsAll ps os
    → Mirrors p o
    → MirrorsAll (ps ++ p ∷ []) (os ++ o ∷ [])
MirrorsAll-append [] [] p o h m = (m, tt)
MirrorsAll-append [] (x ∷ os) p o h m = absurd h
MirrorsAll-append (x ∷ ps) [] p o h m = absurd h
MirrorsAll-append (x ∷ ps) (y ∷ os) p o h m = (h.0, MirrorsAll-append ps os p o h.1 m)

take_kind :
    (p : Pending) (o : Order) (q : ℕ) (k : Kind)
    → o.kind ≡ k
    → Mirrors p o
    → Mirrors (take_from p q) (on_partial_fill o q)
unfolding on_partial_fill visible_qty
take_kind p o q (Kind.limit l) e m = ground arith
take_kind p o q Kind.market e m = ground arith
take_kind p o q (Kind.iceberg l d v) e m = ground arith

refresh_kind :
    (p : Pending) (o : Order) (k : Kind)
    → o.kind ≡ k
    → Mirrors p o
    → needs_replenish o ≡ true
    → Mirrors (record p { visible = min p.display p.remaining }) (replenish o)
unfolding replenish needs_replenish visible_qty
refresh_kind p o (Kind.limit l) e m n = ground arith
refresh_kind p o Kind.market e m n = ground arith
refresh_kind p o (Kind.iceberg l d v) e m n = ground arith

advance-MirrorsAll :
    (p : Pending) (o : Order) (ps : List Pending) (os : List Order)
    → Mirrors p o
    → MirrorsAll ps os
    → MirrorsAll (advance p ps) (settled o os)
unfolding advance settled is_filled needs_replenish
advance-MirrorsAll p o ps os m ms = elim (Bool-cases (p.remaining == 0)) [
  | inl e ↦
      let filled : (o.remaining == 0) ≡ true = ground (arith, m.remaining) in rw (e, filled) ms
  | inr e ↦
      let more : (o.remaining == 0) ≡ false = ground (arith, m.remaining) in
      elim (Bool-cases (p.visible == 0)) [
        | inl z ↦
            let n : needs_replenish o ≡ true = ground (arith, m.remaining, m.visible) in
            rw (e, more, z, n)
              (MirrorsAll-append ps os _ (replenish o) ms (refresh_kind p o o.kind refl m n))
        | inr z ↦
            let n : needs_replenish o ≡ false = ground (arith, m.remaining, m.visible) in
            rw (e, more, z, n) (m, ms)
      ]
]

-- What planning adds to a plan for the executions that matching makes at one price.
abbrev pub planned : ℤ → Take → PlannedFill
planned price t = record {
  level = price;
  resting = t.id;
  price = price;
  quantity = t.quantity;
  resting_id = t.id;
  resting_account = t.account;
}

abbrev pub extended : MatchPlan → ℤ → Matched → MatchPlan
extended into price m = record into {
  fills = into.fills ++ map (planned price) m.takes;
  self_match_blocked = if m.blocked then true else into.self_match_blocked;
}

MatchPlan_path :
    (into : MatchPlan) (fs : List PlannedFill) → into.fills ≡ fs → into ≡ record into { fills = fs }
MatchPlan_path into fs e = λ i. record into { fills = e i }

plan_loop-match :
    (fuel acct a : ℕ) (price : ℤ) (ps : List Pending) (os : List Order) (into : MatchPlan)
    → a < fuel
    → a < u64_mod
    → MirrorsAll ps os
    → All IsLive os
    → plan_loop fuel acct price a ps into ≡ some (extended into price (match_queue fuel acct a os))
unfolding plan_loop match_queue
plan_loop-match zero acct a price ps os into h w ms live = absurd (omega arith)
plan_loop-match (suc f) acct a price [] [] into h w ms live =
    ap some (MatchPlan_path into _ (sym (append-nil into.fills)))
plan_loop-match (suc f) acct a price [] (o ∷ os) into h w ms live = absurd ms
plan_loop-match (suc f) acct a price (p ∷ ps) [] into h w ms live = absurd ms
plan_loop-match (suc f) acct a price (p ∷ ps) (o ∷ os) into h w ms live =
    let m = ms.0 in
    let q = min a p.visible in
    let ih =
      plan_loop-match f acct (a - q) price (advance (take_from p q) ps)
        (settled (on_partial_fill o q) os)
        (record into { fills = into.fills ++ planned_fill price p q ∷ [] }) in
    let next = match_queue f acct (a - q) (settled (on_partial_fill o q) os) in
    let shows : 0 < p.visible = omega (arith, m.visible, live.0.shows) in
    let small : q ≤ visible_qty o = omega (arith, m.visible) in
    let same : planned_fill price p q
        ≡ planned price (record { id = o.id; account = o.account; quantity = q }) =
      ground (arith, m.id, m.position, m.account) in
    elim (Bool-cases (a == 0)) [
      | inl z ↦ rw z (ap some (MatchPlan_path into _ (sym (append-nil into.fills))))
      | inr z ↦ elim (Bool-cases (o.account == acct)) [
        | inl own ↦
            let meets : (p.account == acct) ≡ true = ground (arith, m.account) in
            rw (z, own, meets)
              (ap (λ fs. some (record into { fills = fs; self_match_blocked = true }))
                (sym (append-nil into.fills)))
        | inr other ↦
            let passes : (p.account == acct) ≡ false = ground (arith, m.account) in
            let some_left : 0 < a = ground arith in
            let trades : ltb 0 q ≡ true = ground arith in
            rw (z, other, passes, trades, ← m.visible, sub64_exact a q w (omega arith))
              (ih (omega (arith, shows, some_left)) (omega arith)
                  (advance-MirrorsAll _ _ ps os (take_kind p o q o.kind refl m) ms.1)
                  (settled-All-IsLive o q os live.0 small live.1)
                ∙ ap (λ fs. some (record (extended into price next) { fills = fs }))
                    (append_assoc into.fills (planned_fill price p q ∷ [])
                        (map (planned price) next.takes)
                      ∙ ap (λ x. into.fills ++ (x ∷ map (planned price) next.takes)) same))
      ]
    ]

-- On a level whose orders are live and for a quantity that fits 64 bits, planning never breaks its
-- precondition or runs out of rounds, and appends exactly the executions of direct matching, at the
-- level's price, with the same flag for the aggressor's own order.
pub plan-match_queue :
    (aggressor : Order) (a : ℕ) (l : PriceLevel) (into : MatchPlan)
    → a < u64_mod
    → All IsLive l.orders
    → plan aggressor a l into
      ≡ some (extended into l.price (match_queue (suc a) aggressor.account a l.orders))
unfolding plan
plan-match_queue aggressor a l into w live =
    plan_loop-match (suc a) aggressor.account a l.price _ l.orders into (omega arith) w
      (snapshot-MirrorsAll l.orders) live
