-- ===== src/Matching/Plan.antt =====
-- planAgainst of core/book.cpp against the direct sweep.
use multithreaded_exchange_s.Strategy.Match.{
  Matches, Matched, Take, match_queue, match_queue-Matches,
}
use multithreaded_exchange_s.Strategy.{empty_plan, MatchPlan}
use multithreaded_exchange_s.OrderBook.{OrderBook}
use multithreaded_exchange_s.Matching.{swept_on, halted, Swept, sweep, LevelsLive}
use multithreaded_exchange_s.Order.{crosses, Order}
use multithreaded_exchange_s.Prelude.{
  refl, inl, inr, [], append_assoc, ◌==◌, Bool-cases, drop-append, length, drop, ◌∙◌, suc,
  append-nil, ◌∷◌, ap, arith, sym, map, some, false, ◌+◌, ◌<◌, ◌≡◌, All, ℕ, ◌++◌, List,
}
use multithreaded_exchange_s.Prelude.Word.{sub64_exact, sub64, add64_exact, u64_mod}
use multithreaded_exchange_s.Queue.{sum_remaining}
use multithreaded_exchange_s.Prelude.Int.{ℤ}
use multithreaded_exchange_s.Book.Plan.{sum_quantity, plan_levels, plan_against}
use multithreaded_exchange_s.Strategy.Simulation.{planned, extended, plan-match_queue}
use multithreaded_exchange_s.Strategy.Facts.{sum_takes, Matches-left, Matches-trades}
use multithreaded_exchange_s.PriceLevel.{PriceLevel}

sum_quantity-planned :
    (p : ℤ) (ts : List Take) (acc : ℕ)
    → acc + sum_takes ts < u64_mod
    → sum_quantity acc (map (planned p) ts) ≡ acc + sum_takes ts
unfolding sum_quantity sum_takes
sum_quantity-planned p [] acc h = omega arith
sum_quantity-planned p (t ∷ ts) acc h =
    ap (λ n. sum_quantity n (map (planned p) ts)) (add64_exact acc t.quantity (omega arith))
    ∙ sum_quantity-planned p ts (acc + t.quantity) (omega arith)
    ∙ omega arith

-- What planning makes of a plan, given the sweep that it describes.
abbrev pub grown_by : MatchPlan → Swept → MatchPlan
grown_by into s = record into { fills = into.fills ++ s.fills; self_match_blocked = s.blocked }

-- Every level has an order, and so has quantity to trade.
abbrev pub LevelsTrade : List PriceLevel → Type 0
LevelsTrade = All (λ l. 0 < sum_remaining l.orders)

grown_by-halted :
    (into : MatchPlan) (a : ℕ) (ls : List PriceLevel)
    → into.self_match_blocked ≡ false
    → into ≡ grown_by into (halted a ls)
grown_by-halted into a ls h =
    λ i. record into { fills = sym (append-nil into.fills) i; self_match_blocked = h i }

trades :
    {acct a : ℕ} {os : List Order} {m : Matched}
    → Matches acct a os m
    → m.blocked ≡ false
    → (a == 0) ≡ false
    → 0 < sum_remaining os
    → (sum_takes m.takes == 0) ≡ false
trades {acct} {a} {os} {m} run b z full =
    let some_left : 0 < a = ground arith in ground (arith, Matches-trades run b some_left full)

plan_levels-sweep :
    (ag : Order) (ls : List PriceLevel) (a : ℕ) (into : MatchPlan)
    → a < u64_mod
    → LevelsLive ls
    → LevelsTrade ls
    → into.self_match_blocked ≡ false
    → plan_levels ag ls a into ≡ some (grown_by into (sweep ag ls a), (sweep ag ls a).left)
unfolding plan_levels sweep
plan_levels-sweep ag [] a into w live full fresh =
    ap (λ g. some (g, a)) (grown_by-halted into a [] fresh)
plan_levels-sweep ag (l ∷ ls) a into w live full fresh =
    let m = match_queue (suc a) ag.account a l.orders in
    let run = match_queue-Matches (suc a) ag.account a l.orders (omega arith) live.0 in
    let grown = extended into l.price m in
    let amount : sum_quantity 0
          (drop (length into.fills) (into.fills ++ map (planned l.price) m.takes))
        ≡ sum_takes m.takes =
      rw (drop-append into.fills (map (planned l.price) m.takes))
        (sum_quantity-planned l.price m.takes 0 (omega (arith, Matches-left run)) ∙ omega arith) in
    let left : sub64 a (sum_takes m.takes) ≡ m.left =
      sub64_exact a (sum_takes m.takes) w (omega (arith, Matches-left run))
      ∙ omega (arith, Matches-left run) in
    elim (Bool-cases (a == 0)) [
      | inl z ↦ rw z (ap (λ g. some (g, a)) (grown_by-halted into a (l ∷ ls) fresh))
      | inr z ↦ elim (Bool-cases (crosses ag l.price)) [
        | inr x ↦ rw (z, x) (ap (λ g. some (g, a)) (grown_by-halted into a (l ∷ ls) fresh))
        | inl x ↦ elim (Bool-cases (m.blocked)) [
          | inl b ↦ rw (z, x, plan-match_queue ag a l into w live.0, b, amount, left) refl
          | inr b ↦
              rw
                (
                  z,
                  x,
                  plan-match_queue ag a l into w live.0,
                  b,
                  fresh,
                  amount,
                  left,
                  trades run b z full.0,
                )
                (plan_levels-sweep ag ls m.left (record grown { self_match_blocked = false })
                    (omega (arith, Matches-left run)) live.1 full.1 refl
                  ∙ ap
                      (λ fs. some (
                        record (grown_by into (swept_on l m (sweep ag ls m.left))) { fills = fs },
                        (sweep ag ls m.left).left,
                      ))
                      (append_assoc into.fills (map (planned l.price) m.takes)
                        (sweep ag ls m.left).fills))
        ]
      ]
    ]

-- On levels that are live and hold quantity, and for an order whose quantity fits 64 bits, planAgainst
-- never breaks a precondition; its plan lists the executions of the direct sweep, in order, the
-- quantity that the sweep takes, and whether it met the order's own account.
pub plan_against-sweep :
    (opp : OrderBook) (ag : Order)
    → ag.remaining < u64_mod
    → LevelsLive opp.levels
    → LevelsTrade opp.levels
    → let s = sweep ag opp.levels ag.remaining in
      plan_against opp ag empty_plan
      ≡ some (record {
        fills = s.fills;
        aggressor_filled = sub64 ag.remaining s.left;
        self_match_blocked = s.blocked;
      })
unfolding plan_against
plan_against-sweep opp ag w live full =
    rw (plan_levels-sweep ag opp.levels ag.remaining empty_plan w live full refl)
