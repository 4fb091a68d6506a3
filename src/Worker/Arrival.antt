-- ===== src/Worker/Arrival.antt =====
-- src/worker.cpp: every descriptor dispatched can get its session, whatever has happened.
use redis_proxy.Base.{◌≡◌, []}
use redis_proxy.Worker.{Worker, Position}
use redis_proxy.Worker.Turns.{Turns}

-- Steps of the worker and the notifier alone.
abbrev Reaches : Worker → (Worker → Type 0) → Type 0
Reaches w P = (v : Worker) × Turns w v × P v

-- Waiting for the notifier with nothing to do.
abbrev Settled : Worker → Type 0
Settled w =
    (w.position ≡ Position.polling)
    × (w.fds ≡ [])
    × (w.pending_fds ≡ [])
    × (w.finished_sessions ≡ [])
