-- ===== src/Tests/Queue.antt =====
-- The theorems on the bounded queue, at a queue of one place that a second producer waits for.
use multithreaded_exchange_s.ThreadSafeQueue.Monitor.{Step, Reach, Monitor, monitor}
use multithreaded_exchange_s.ThreadSafeQueue.Settled.{settled-asleep, IsSettled}
use multithreaded_exchange_s.ThreadSafeQueue.{push, make_queue, pop_ready, push_ready}
use multithreaded_exchange_s.ThreadSafeQueue.Fifo.{Reach-IsFifo, IsFifo}
use multithreaded_exchange_s.Prelude.{ℕ, ◌<◌, ◌≡◌, refl, ◌⊎◌, false, [], ◌∷◌, arith}

-- One value is in, its consumer was told, and a second producer sleeps.
abbrev one_waits : Monitor ℕ
one_waits = record {
  queue = record { items = 5 ∷ []; capacity = 1; closed = false };
  accepted = 5 ∷ [];
  delivered = [];
  pushers_asleep = 1;
  pushers_woken = 0;
  not_full_one = 0;
  not_full_all = 0;
  poppers_asleep = 0;
  poppers_woken = 0;
  not_empty_one = 0;
  not_empty_all = 0;
}

reach_one_waits : Reach (monitor 1) one_waits
unfolding monitor make_queue push push_ready
reach_one_waits =
    Reach.next
      (Reach.next (Reach.next Reach.here (Step.push_arrives 5))
        (Step.tells_one_popper (omega arith)))
      (Step.push_arrives 6)

Reach-IsFifo_example : IsFifo one_waits
Reach-IsFifo_example = Reach-IsFifo 1 reach_one_waits

one_waits-IsSettled : IsSettled one_waits
one_waits-IsSettled = record {
  full_one = refl;
  full_all = refl;
  empty_one = refl;
  empty_all = refl;
  pushers = refl;
  poppers = refl;
}

settled-asleep_example :
    (0 < one_waits.pushers_asleep → push_ready one_waits.queue ≡ false)
    × (0 < one_waits.poppers_asleep → pop_ready one_waits.queue ≡ false)
    × ((one_waits.pushers_asleep ≡ 0) ⊎ (one_waits.poppers_asleep ≡ 0))
settled-asleep_example = settled-asleep 1 one_waits reach_one_waits one_waits-IsSettled
