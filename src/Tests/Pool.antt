-- ===== src/Tests/Pool.antt =====
-- The theorem on the thread pool, at a pool of one worker.
use multithreaded_exchange_s.ThreadPool.Drain.{joined-drained}
use multithreaded_exchange_s.Prelude.Word.{add64, u64_mod}
use multithreaded_exchange_s.Prelude.{ℕ, ◌+◌, ◌%◌, ◌≡◌, refl, true, false, [], arith, length}
use multithreaded_exchange_s.ThreadSafeQueue.{make_queue, push, push_ready, pop, pop_ready, close}
use multithreaded_exchange_s.ThreadPool.{ThreadPool, Reach, Step, make_pool, submit, stop}

-- A pool of one worker that has run one task, and ended once the pool was stopped.
abbrev ended_pool : ThreadPool ℕ
ended_pool = record {
  queue = record { items = []; capacity = 4; closed = true };
  stopping = true;
  completed = 0;
  failed = 1;
  workers = 0;
  running = [];
  accepted = 1;
}

reach_ended_pool : Reach (make_pool 1 4) ended_pool
unfolding make_pool make_queue push push_ready stop close pop pop_ready add64 submit
reach_ended_pool =
    Reach.next
      (Reach.next
        (Reach.next
          (Reach.next (Reach.next Reach.here (Step.submits 7 _ refl))
            (Step.takes _ (omega arith) refl))
          Step.stops)
        (Step.finishes 7 [] [] false refl))
      (Step.takes _ (omega arith) refl)

joined-drained_example :
    (ended_pool.accepted % u64_mod
      ≡ (length ended_pool.queue.items
          + length ended_pool.running
          + ended_pool.completed
          + ended_pool.failed)
        % u64_mod)
    × (ended_pool.workers ≡ 0
        → (ended_pool.queue.closed ≡ true)
          × (length ended_pool.queue.items + length ended_pool.running ≡ 0)
          × (ended_pool.accepted % u64_mod ≡ (ended_pool.completed + ended_pool.failed) % u64_mod))
joined-drained_example = joined-drained 1 4 ended_pool reach_ended_pool
