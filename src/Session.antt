-- ===== src/Session.antt =====
-- src/client_session.cpp and include/redis_proxy/client_session.h: the sessions of one worker with the
-- connections that they share. A `ClientSession*` is a number, and so is the `ReplySink*` that a
-- channel keeps of it. A callback of a channel is delivered to the sessions before control returns.
pub mod Debt
pub mod Claims
pub mod Fair
pub mod Delivery
pub mod Submitting
pub mod Loops
pub mod Stepping
pub mod Keeping
pub mod Moves
pub mod Stopping
pub mod Passing
pub mod Replies
pub mod Output
pub mod Parsing
pub mod Reading
use redis_proxy.Base.{
  ℕ, ◌-◌, Bool, true, false, not, List, [], ◌∷◌, ◌++◌, Option, none, some, ◌==◌, if◌then◌else◌,
  add64, sub64, get_elem?, set,
}
use redis_proxy.Status.{Status}
use redis_proxy.Signal.{Signal, new_signal, notify}
use redis_proxy.Buffer.Chain.{Chain}
use redis_proxy.Channel.{Channel, Notice, reply, failure, Event, step}
use redis_proxy.Pool.{Channels, submit as submit_pool, detach_owner}

pub data State : Type 0 where
  opened draining aborted : State

pub record Session : Type 0 where
  pub client_out : List Chain
  pub output_signal : Signal
  pub reply_signal : Signal
  pub current_backend : Option ℕ
  pub pending_replies : ℕ
  pub state : State
  pub final_error : List ℕ
  pub active_loops : ℕ
  -- `socket_.shutdown()`, `socket_.shutdownRead()`, `socket_.close()` and `on_finished_` were called.
  pub shut : Bool
  pub read_shut : Bool
  pub closed : Bool
  pub finished : Bool

-- A session after `start`.
unfoldable pub new_session : Session
new_session = record {
  client_out = [];
  output_signal = new_signal;
  reply_signal = new_signal;
  current_backend = none;
  pending_replies = 0;
  state = State.opened;
  final_error = [];
  active_loops = 2;
  shut = false;
  read_shut = false;
  closed = false;
  finished = false;
}

pub record World : Type 0 where
  pub channels : Channels
  pub sessions : ℕ → Session

abbrev pub update : ℕ → Session → (ℕ → Session) → ℕ → Session
update o s f p = if o == p then s else f p

abbrev pub is_aborted : State → Bool
is_aborted State.aborted = true
is_aborted _ = false

abbrev pub is_open : State → Bool
is_open State.opened = true
is_open _ = false

unfoldable pub aborted_session : Session → Session
unfolding notify
aborted_session s = record s {
  state = State.aborted;
  current_backend = none;
  pending_replies = 0;
  client_out = [];
  shut = true;
  output_signal = notify s.output_signal;
  reply_signal = notify s.reply_signal;
}

unfoldable pub abort : ℕ → World → World
abort o w = if is_aborted (w.sessions o).state then w else record {
  channels = detach_owner o w.channels;
  sessions = update o (aborted_session (w.sessions o)) w.sessions;
}

-- `if (pending_replies_ == 0) { ... }` after the decrement.
unfoldable pub count_reply : Session → Session
unfolding notify
count_reply s =
    let left = sub64 s.pending_replies 1 in
    if left == 0
    then record s {
      pending_replies = left;
      current_backend = none;
      reply_signal = notify s.reply_signal;
    }
    else record s { pending_replies = left }

unfoldable pub on_backend_reply : Chain → Session → Session
unfolding count_reply notify
on_backend_reply r s =
    let s' = count_reply s in
    record s' { client_out = s'.client_out ++ r ∷ []; output_signal = notify s'.output_signal }

unfoldable pub drain : List ℕ → Session → Session
unfolding notify
drain error s =
    if is_open s.state
    then record s {
      state = State.draining;
      final_error = error;
      read_shut = true;
      output_signal = notify s.output_signal;
    }
    else s

-- `onBackendReply` and `onBackendFailure`.
unfoldable pub deliver : Notice → World → World
unfolding on_backend_reply abort
deliver (reply o r) w = record w {
  sessions = update o (on_backend_reply r (w.sessions o)) w.sessions;
}
deliver (failure o status) w = abort o w

unfoldable pub deliver_all : List Notice → World → World
deliver_all [] w = w
deliver_all (n ∷ ns) w = deliver_all ns (deliver n w)

-- What `submitBatch` does with the channel that took the batch.
unfoldable pub settle : ℕ → ℕ → Option ℕ → World → World × Bool
unfolding abort
settle o n none w = (abort o w, false)
settle o n (some i) w = (
  record w {
    sessions =
        update o
          (record (w.sessions o) {
            current_backend = some i;
            pending_replies = add64 (w.sessions o).pending_replies n;
          })
          w.sessions;
  },
  true,
)

unfoldable pub submit_batch : ℕ → Chain → ℕ → World → World × Bool
unfolding settle
submit_batch o bytes n w =
    if n == 0
    then (w, true)
    else (let (cs, taken) =
          submit_pool (some o) (w.sessions o).current_backend bytes n w.channels in
        settle o n taken (record w { channels = cs }))

-- What a channel's coroutines do, with the callbacks that this leads to.
unfoldable pub channel_step_at : ℕ → Event → Option Channel → World → World
unfolding deliver_all
channel_step_at i e none w = w
channel_step_at i e (some c) w =
    let (c', ns) = step c e in deliver_all ns (record w { channels = set w.channels i c' })

unfoldable pub channel_step : ℕ → Event → World → World
unfolding channel_step_at
channel_step i e w = channel_step_at i e (get_elem? w.channels i) w

unfoldable pub finish_loop : ℕ → World → World
finish_loop o w =
    let left = (w.sessions o).active_loops - 1 in
    if not (left == 0)
    then record w { sessions = update o (record (w.sessions o) { active_loops = left }) w.sessions }
    else record {
      channels = detach_owner o w.channels;
      sessions =
          update o (record (w.sessions o) { active_loops = left; closed = true; finished = true })
            w.sessions;
    }
