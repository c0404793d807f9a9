-- ===== src/Strategy/Match.antt =====
-- The specification of price-time matching within one level: the resting orders themselves are
-- consumed from the head, with no plan and no working copy.
use multithreaded_exchange_s.Prelude.{
  ℕ, zero, suc, ◌-◌, ◌≤◌, ◌<◌, ◌≡◌, ◌≢◌, ◌⊎◌, refl, Bool, true, false, List, [], ◌∷◌, ◌++◌, min,
  ◌==◌, if◌then◌else◌, arith, All, All-append, inl, inr, Bool-cases,
}
use multithreaded_exchange_s.Order.{
  Order, visible_qty, is_filled, on_partial_fill, needs_replenish, replenish,
}
use multithreaded_exchange_s.Order.Lifecycle.{
  IsLive, fill-refresh-IsLive, on_partial_fill-FillEffect,
}

pub record Take : Type 0 where
  pub id : ℕ
  pub account : ℕ
  pub quantity : ℕ

-- What one sweep of a queue gives: the executions in order, the quantity left, whether it met the
-- aggressor's own order, the ids consumed and the queue after it.
pub record Matched : Type 0 where
  pub takes : List Take
  pub left : ℕ
  pub blocked : Bool
  pub gone : List ℕ
  pub rest : List Order

abbrev pub stopped : ℕ → Bool → List Order → Matched
stopped a blocked os = record { takes = []; left = a; blocked = blocked; gone = []; rest = os }

-- The queue after its head has been filled.
unfoldable pub settled : Order → List Order → List Order
settled o os =
    if is_filled o then os else if needs_replenish o then os ++ replenish o ∷ [] else o ∷ os

abbrev pub gone_with : Order → List ℕ → List ℕ
gone_with o ids = if is_filled o then o.id ∷ ids else ids

abbrev pub matched_step : Order → ℕ → Matched → Matched
matched_step o q r = record r {
  takes = record { id = o.id; account = o.account; quantity = q } ∷ r.takes;
  gone = gone_with (on_partial_fill o q) r.gone;
}

unfoldable pub match_queue : ℕ → ℕ → ℕ → List Order → Matched
match_queue zero acct a os = stopped a false os
match_queue (suc fuel) acct a [] = stopped a false []
match_queue (suc fuel) acct a (o ∷ os) =
    let q = min a (visible_qty o) in
    let step =
      matched_step o q (match_queue fuel acct (a - q) (settled (on_partial_fill o q) os)) in
    if a == 0
    then stopped a false (o ∷ os)
    else if o.account == acct
    then stopped a true (o ∷ os)
    else step

-- The queue stays live: a consumed head leaves it, any other is refreshed where it must be.
pub settled-All-IsLive :
    (o : Order) (q : ℕ) (os : List Order)
    → IsLive o
    → q ≤ visible_qty o
    → All IsLive os
    → All IsLive (settled (on_partial_fill o q) os)
unfolding settled is_filled
settled-All-IsLive o q os v h live =
    let f = on_partial_fill-FillEffect o q v h in
    elim (Bool-cases (is_filled (on_partial_fill o q))) [
      | inl e ↦ rw e live
      | inr e ↦
          let lt : q < o.remaining = ground (arith, f.remaining) in
          let ok = fill-refresh-IsLive o q v h lt in
          elim (Bool-cases (needs_replenish (on_partial_fill o q))) [
            | inl n ↦ rw (e, n) (All-append IsLive os _ live (rw n at ok, tt))
            | inr n ↦ rw (e, n) (rw n at ok, live)
          ]
    ]

-- A run of the matching, round by round: nothing to do, the aggressor's own order, or a trade of
-- the head for all that is wanted or all that it shows.
pub data Matches (acct : ℕ) : ℕ → List Order → Matched → Type 0 where
  ended : (a : ℕ) (os : List Order) → (a ≡ 0) ⊎ (os ≡ []) → Matches acct a os (stopped a false os)
  met_own :
      (a : ℕ) (o : Order) (os : List Order)
      → o.account ≡ acct
      → Matches acct a (o ∷ os) (stopped a true (o ∷ os))
  traded :
      (a q : ℕ) (o : Order) (os : List Order) (r : Matched)
      → o.account ≢ acct
      → IsLive o
      → All IsLive os
      → 0 < q
      → q ≤ a
      → q ≤ visible_qty o
      → Matches acct (a - q) (settled (on_partial_fill o q) os) r
      → Matches acct a (o ∷ os) (matched_step o q r)

pub match_queue-Matches :
    (fuel acct a : ℕ) (os : List Order)
    → a < fuel
    → All IsLive os
    → Matches acct a os (match_queue fuel acct a os)
unfolding match_queue
match_queue-Matches zero acct a os h live = absurd (omega arith)
match_queue-Matches (suc f) acct a [] h live = ended a [] (inr refl)
match_queue-Matches (suc f) acct a (o ∷ os) h live = elim (Bool-cases (a == 0)) [
  | inl z ↦ rw z (ended a (o ∷ os) (inl (ground arith)))
  | inr z ↦ elim (Bool-cases (o.account == acct)) [
    | inl e ↦ rw (z, e) (met_own a o os (ground arith))
    | inr e ↦
        let q = min a (visible_qty o) in
        let some_left : 0 < a = ground arith in
        rw (z, e)
          (traded a q o os _ (ground arith) live.0 live.1 (omega (arith, some_left, live.0.shows))
            (omega arith) (omega arith)
            (match_queue-Matches f acct (a - q) (settled (on_partial_fill o q) os)
              (omega (arith, some_left, live.0.shows))
              (settled-All-IsLive o q os live.0 (omega arith) live.1)))
  ]
]
