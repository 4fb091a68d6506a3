-- ===== src/Worker.antt =====
-- src/worker.cpp: how accepted descriptors reach the sessions of a worker, and how sessions end. The
-- acceptor runs in another thread; the sections under the mutex and the single accesses to the atomic flag
-- and to the notifier are the steps that interleave.
pub mod Handover
pub mod Retirement
pub mod Turns
pub mod Arrival
use redis_proxy.Base.{
  ℕ, suc, ◌-◌, ◌<◌, ◌≡◌, Bool, true, false, List, [], ◌∷◌, ◌++◌, ◌==◌, if◌then◌else◌, length,
}
use redis_proxy.Buffer.Health.{count}

-- Where the task that reaps is: at the load of the flag, at the swap under the mutex, at the loop over
-- the descriptors that it took, at the sessions that have ended, or in the poll of the notifier.
pub data Position : Type 0 where
  loading swapping starting reaping polling : Position

pub record Worker : Type 0 where
  pub pending_fds : List ℕ
  pub has_pending_fds : Bool
  -- `fd_notifier_` is readable.
  pub readable : Bool
  -- Calls of `dispatchFd` that have left the mutex and not yet notified.
  pub due : ℕ
  pub position : Position
  -- The local `fds` of `reapFds`, and the descriptors that have got a session, in order.
  pub fds : List ℕ
  pub started : List ℕ
  -- The sessions that the worker owns, and those of them that have ended. A session stands for its address
  -- by its place among all those started.
  pub sessions : List ℕ
  pub finished_sessions : List ℕ

unfoldable pub new_worker : Worker
new_worker = record {
  pending_fds = [];
  has_pending_fds = false;
  readable = false;
  due = 0;
  position = Position.loading;
  fds = [];
  started = [];
  sessions = [];
  finished_sessions = [];
}

unfoldable pub push_fd : ℕ → Worker → Worker
push_fd fd w = record w {
  pending_fds = w.pending_fds ++ fd ∷ [];
  has_pending_fds = true;
  due = suc w.due;
}

unfoldable pub notify_reaper : Worker → Worker
notify_reaper w = record w { readable = true; due = w.due - 1 }

abbrev pub after_load : Bool → Position
after_load true = Position.swapping
after_load false = Position.reaping

unfoldable pub load_flag : Worker → Worker
load_flag w = record w { position = after_load w.has_pending_fds }

unfoldable pub swap_fds : Worker → Worker
swap_fds w = record w {
  fds = w.pending_fds;
  pending_fds = [];
  has_pending_fds = false;
  position = Position.starting;
}

-- A session is made and started for the first descriptor, or the loop is over.
unfoldable pub start_next : List ℕ → Worker → Worker
start_next [] w = record w { fds = []; position = Position.reaping }
start_next (fd ∷ rest) w = record w {
  fds = rest;
  started = w.started ++ fd ∷ [];
  sessions = length w.started ∷ w.sessions;
}

-- The callback of a session that has ended.
unfoldable pub finish : ℕ → Worker → Worker
finish i w = record w { finished_sessions = w.finished_sessions ++ i ∷ []; readable = true }

-- `sessions_.erase(session)`.
abbrev pub erase : ℕ → List ℕ → List ℕ
erase i [] = []
erase i (j ∷ js) = let rest = erase i js in if i == j then rest else j ∷ rest

abbrev pub erase_all : List ℕ → List ℕ → List ℕ
erase_all [] js = js
erase_all (i ∷ is) js = erase_all is (erase i js)

unfoldable pub reap_sessions : Worker → Worker
reap_sessions w = record w {
  sessions = erase_all w.finished_sessions w.sessions;
  finished_sessions = [];
  position = Position.polling;
}

-- `co_poll` returns with the notifier readable, and it is drained.
unfoldable pub drain_notifier : Worker → Worker
drain_notifier w = record w { readable = false; position = Position.loading }

-- `co_poll` returns with nothing to read, and the notifier is not drained.
unfoldable pub poll_again : Worker → Worker
poll_again w = record w { position = Position.loading }

-- One step of either thread; the descriptors that it dispatches are the list.
pub data Step (w : Worker) : List ℕ → Worker → Type 0 where
  dispatches : {v : Worker} (fd : ℕ) → v ≡ push_fd fd w → Step w (fd ∷ []) v
  notifies : {v : Worker} → 0 < w.due → v ≡ notify_reaper w → Step w [] v
  loads : {v : Worker} → w.position ≡ Position.loading → v ≡ load_flag w → Step w [] v
  swaps : {v : Worker} → w.position ≡ Position.swapping → v ≡ swap_fds w → Step w [] v
  begins : {v : Worker} → w.position ≡ Position.starting → v ≡ start_next w.fds w → Step w [] v
  reaps : {v : Worker} → w.position ≡ Position.reaping → v ≡ reap_sessions w → Step w [] v
  -- A session of the worker ends, once.
  ends :
      {v : Worker} (i : ℕ)
      → 0 < count i w.sessions
      → count i w.finished_sessions ≡ 0
      → v ≡ finish i w
      → Step w [] v
  wakes :
      {v : Worker}
      → w.position ≡ Position.polling
      → w.readable ≡ true
      → v ≡ drain_notifier w
      → Step w [] v
  interrupted : {v : Worker} → w.position ≡ Position.polling → v ≡ poll_again w → Step w [] v

pub data Steps : Worker → List ℕ → Worker → Type 0 where
  none_yet : {w : Worker} → Steps w [] w
  after :
      {u v w : Worker} {xs ys zs : List ℕ}
      → Steps u xs v
      → Step v ys w
      → zs ≡ xs ++ ys
      → Steps u zs w
