-- ===== src/Tests/Pool.antt =====
-- Runs of src/backend_pool.cpp.
use redis_proxy.Base.{ℕ, [], ◌∷◌, none}
use redis_proxy.Channel.{new_channel, Channel, State}
use redis_proxy.Pool.{Channels, select}
use redis_proxy.Pool.Selection.{Selects, select-Selects}

abbrev ready_with : ℕ → Channel
ready_with n = record new_channel { state = State.ready; queued_commands = n }

abbrev three_channels : Channels
three_channels = new_channel ∷ ready_with 3 ∷ ready_with 1 ∷ []

select-Selects_example : Selects three_channels none (select none three_channels)
select-Selects_example = select-Selects none three_channels
