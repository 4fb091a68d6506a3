-- ===== src/Server.antt =====
-- src/proxy_server.cpp and src/main.cpp: the workers of the server, and how the acceptor deals out the
-- connections. The loops of the workers (Worker.antt) interleave with the acceptor.
pub mod Shares
pub mod Dealing
pub mod Running
use redis_proxy.Base.{
  ℕ, suc, ◌%◌, ◌≡◌, Bool, true, false, List, [], ◌∷◌, ◌++◌, Option, none, some, if◌then◌else◌,
  length, get_elem?, set, replicate,
}
use redis_proxy.Config.{Host, Config, load_config_from_args}
use redis_proxy.Worker.{Worker, new_worker, push_fd, Step}

pub record Server : Type 0 where
  pub workers : List Worker
  -- The local of `acceptLoop`.
  pub next_worker : ℕ

-- `run` up to the loops: `none` is the exit code 1. Whether the address can be listened on is given.
unfoldable pub start : Bool → ℕ → Option Server
start listening workers =
    if listening
    then some (record { workers = replicate workers new_worker; next_worker = 0 })
    else none

-- The first section of `dispatchFd` at an index, if there is a worker.
abbrev pub dispatch_to : Option Worker → ℕ → Server → Server
dispatch_to none fd v = v
dispatch_to (some w) fd v = record v { workers = set v.workers v.next_worker (push_fd fd w) }

-- A round of `acceptLoop` that has got a connection. The notification is a step of the worker's.
unfoldable pub accept : ℕ → Server → Server
unfolding push_fd
accept fd v =
    let v' = dispatch_to (get_elem? v.workers v.next_worker) fd v in
    record v' { next_worker = suc v.next_worker % length v.workers }

-- A connection is accepted; or none, and the loop polls; or a worker makes a step of its own. The
-- descriptors accepted are the list.
pub data Move (v : Server) : List ℕ → Server → Type 0 where
  accepts : {u : Server} (fd : ℕ) → u ≡ accept fd v → Move v (fd ∷ []) u
  polls : {u : Server} → u ≡ v → Move v [] u
  works :
      {u : Server} (i : ℕ) (w w' : Worker)
      → get_elem? v.workers i ≡ some w
      → Step w [] w'
      → u ≡ record v { workers = set v.workers i w' }
      → Move v [] u

pub data Moves : Server → List ℕ → Server → Type 0 where
  none_yet : {v : Server} → Moves v [] v
  after :
      {t u v : Server} {xs ys zs : List ℕ}
      → Moves t xs u
      → Move u ys v
      → zs ≡ xs ++ ys
      → Moves t zs v

-- How the program ends, or runs.
pub data Outcome : Type 0 where
  exits : ℕ → Outcome
  serves : Server → Outcome

-- `run` and `main`, given the addresses that can be listened on.
module _ {Endpoint : Type 0} (host : Host Endpoint) (listens : Endpoint → Bool) where
  unfoldable pub run : Option Server → Outcome
  run none = Outcome.exits 1
  run (some v) = Outcome.serves v

  unfoldable pub run_with : Option (Config Endpoint) → Outcome
  unfolding run
  run_with none = Outcome.exits 2
  run_with (some c) = run (start (listens c.listen) c.workers)

  unfoldable pub main : List (List ℕ) → Outcome
  unfolding run_with
  main args = run_with (load_config_from_args host args)
