-- ===== src/Tests/Worker.antt =====
-- Runs of src/worker.cpp: the flag is loaded before a descriptor is dispatched.
use redis_proxy.Base.{ℕ, ◌<◌, ◌≡◌, arith, [], ◌∷◌, refl}
use redis_proxy.Buffer.Health.{count}
use redis_proxy.Worker.{
  Worker, new_worker, push_fd, load_flag, notify_reaper, swap_fds, start_next, drain_notifier,
  finish, reap_sessions, Step, Steps,
}
use redis_proxy.Worker.Handover.{Safe, Steps-Safe}
use redis_proxy.Worker.Retirement.{Tidy, Steps-Retires}

abbrev missed : Worker
missed = push_fd 7 (load_flag new_worker)

history : Steps new_worker (7 ∷ []) missed
unfolding new_worker
history =
    Steps.after (Steps.after Steps.none_yet (Step.loads refl refl) refl) (Step.dispatches 7 refl)
      refl

Steps-Safe_example : Safe (7 ∷ []) missed
Steps-Safe_example = Steps-Safe (7 ∷ []) missed history

-- From there the reaper polls, is notified, and starts the session, which ends.
abbrev fetched : Worker
fetched = finish 0 (
    start_next (7 ∷ [])
      (swap_fds (load_flag (drain_notifier (notify_reaper (reap_sessions missed))))))

fetched_history : Steps new_worker (7 ∷ []) fetched
unfolding new_worker push_fd load_flag reap_sessions notify_reaper drain_notifier swap_fds
    start_next
fetched_history =
    later
      (later
        (later
          (later
            (later (later (later history (Step.reaps refl refl)) (Step.notifies (omega arith) refl))
              (Step.wakes refl refl refl))
            (Step.loads refl refl))
          (Step.swaps refl refl))
        (Step.begins refl refl))
      (Step.ends 0 (omega arith) refl refl)
  where
    later : {v w : Worker} → Steps new_worker (7 ∷ []) v → Step v [] w → Steps new_worker (7 ∷ []) w
    later r x = Steps.after r x refl

Steps-Retires_example :
    Tidy fetched
    × ((i : ℕ)
        → 0 < count i fetched.finished_sessions
        → (count i fetched.sessions ≡ 1) × (count i (reap_sessions fetched).sessions ≡ 0))
    × ((i : ℕ)
        → count i fetched.finished_sessions ≡ 0
        → count i (reap_sessions fetched).sessions ≡ count i fetched.sessions)
    × ((reap_sessions fetched).finished_sessions ≡ [])
Steps-Retires_example = Steps-Retires (7 ∷ []) fetched fetched_history
