-- ===== src/Session/Stopping.antt =====
-- src/backend_pool.cpp, the constructor and `stop`, with the callbacks into the sessions.
use redis_proxy.Base.{ℕ, zero, suc, length}
use redis_proxy.Channel.{Event}
use redis_proxy.Session.{World, channel_step}
use redis_proxy.Session.Delivery.{WorldIsValid}
use redis_proxy.Session.Stepping.{channel_step-IsValid}

-- The loop over the channels, with `n` to go from index `i` on.
unfoldable stop_channels : ℕ → ℕ → World → World
unfolding channel_step
stop_channels zero i w = w
stop_channels (suc n) i w = stop_channels n (suc i) (channel_step i Event.stopping w)

unfoldable stop_pool : World → World
unfolding stop_channels
stop_pool w = stop_channels (length w.channels) 0 w

stop_channels-IsValid : (n i : ℕ) (w : World) → WorldIsValid w → WorldIsValid (stop_channels n i w)
unfolding stop_channels
stop_channels-IsValid zero i w ok = ok
stop_channels-IsValid (suc n) i w ok =
    stop_channels-IsValid n (suc i) (channel_step i Event.stopping w)
      (channel_step-IsValid i Event.stopping w tt ok)

-- Stopping the pool keeps sessions and channels in agreement, although each channel that is stopped calls back
-- into sessions, and these into the other channels.
stop_pool-IsValid : (w : World) → WorldIsValid w → WorldIsValid (stop_pool w)
unfolding stop_pool
stop_pool-IsValid w ok = stop_channels-IsValid (length w.channels) 0 w ok
