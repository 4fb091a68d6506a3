-- ===== src/Pool.antt =====
-- src/backend_pool.cpp: the connections of one worker. A `BackendChannel*` is an index of the vector,
-- and `nullptr` is `none`.
pub mod Selection
pub mod Submission
use redis_proxy.Base.{
  ℕ, suc, Bool, true, false, ◌&&◌, List, [], ◌∷◌, Option, none, some, ltb, if◌then◌else◌, get_elem?,
  set,
}
use redis_proxy.Buffer.Chain.{Chain}
use redis_proxy.Channel.{
  Channel, is_healthy, is_stopped, submit as submit_channel, detach_owner as detach_channel,
  start as start_channel,
}

abbrev pub Channels : Type 0
Channels = List Channel

unfoldable pub start : Channels → Channels
start [] = []
start (c ∷ cs) = start_channel c ∷ start cs

unfoldable pub all_stopped : Channels → Bool
all_stopped [] = true
all_stopped (c ∷ cs) = is_stopped c && all_stopped cs

unfoldable pub detach_owner : ℕ → Channels → Channels
detach_owner o [] = []
detach_owner o (c ∷ cs) = detach_channel o c ∷ detach_owner o cs

-- `!best || channel->queuedCommandCount() < best->queuedCommandCount()`; `best` carries its count.
unfoldable pub less_loaded : ℕ → Option (ℕ × ℕ) → Bool
less_loaded n none = true
less_loaded n (some (j, m)) = ltb n m

-- The loop of `select` from index `i` on.
unfoldable pub pick : Channels → ℕ → Option (ℕ × ℕ) → Option (ℕ × ℕ)
unfolding less_loaded
pick [] i best = best
pick (c ∷ cs) i best = pick cs (suc i) (
    if is_healthy c && less_loaded c.queued_commands best
    then some (i, c.queued_commands)
    else best)

abbrev pub index_of : Option (ℕ × ℕ) → Option ℕ
index_of none = none
index_of (some (i, n)) = some i

-- `current->isHealthy() ? current : nullptr`.
unfoldable pub keep_current : ℕ → Option Channel → Option ℕ
keep_current i none = none
keep_current i (some c) = if is_healthy c then some i else none

unfoldable pub select : Option ℕ → Channels → Option ℕ
unfolding keep_current
select none cs = index_of (pick cs 0 none)
select (some i) cs = keep_current i (get_elem? cs i)

-- `channel->submit(...)` on the channel at `i`, if there is one.
unfoldable pub submit_at :
    Option ℕ → Chain → ℕ → ℕ → Option Channel → Channels → Channels × Option ℕ
submit_at owner bytes n i none cs = (cs, none)
submit_at owner bytes n i (some c) cs =
    let (c', taken) = submit_channel owner bytes n c in
    (set cs i c', if taken then some i else none)

unfoldable pub submit_to : Option ℕ → Chain → ℕ → Option ℕ → Channels → Channels × Option ℕ
unfolding submit_at
submit_to owner bytes n none cs = (cs, none)
submit_to owner bytes n (some i) cs = submit_at owner bytes n i (get_elem? cs i) cs

-- `submit`: the channels, and the channel that took the batch.
unfoldable pub submit : Option ℕ → Option ℕ → Chain → ℕ → Channels → Channels × Option ℕ
unfolding submit_to
submit owner current bytes n cs = submit_to owner bytes n (select current cs) cs
