-- ===== src/Actor/Workers.antt =====
-- src/runtime/ActorScheduler.cpp: the number of workers.
use proto_clojure.Base.{ℕ, ◌≤◌, arith, Option, none, some, ℤ, pos, negsuc}
use proto_clojure.Actor.{configured_worker_count}

-- There is always a worker, and never more than 64, whatever the environment variable says and
-- whatever number of processors the machine reports.
pub configured_worker_count_bounds :
    (variable : Option ℤ) (hc : ℕ)
    → (1 ≤ configured_worker_count variable hc) × (configured_worker_count variable hc ≤ 64)
unfolding configured_worker_count
configured_worker_count_bounds none hc = (ground arith, ground arith)
configured_worker_count_bounds (some (negsuc n)) hc = (ground arith, ground arith)
configured_worker_count_bounds (some (pos n)) hc = (ground arith, ground arith)
