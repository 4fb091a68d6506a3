-- ===== src/Channel.antt =====
-- src/backend_channel.cpp and include/redis_proxy/backend_channel.h: one connection to Redis. A
-- `ReplySink*` is a number, and `nullptr` is `none`. The calls into the owners with which
-- `dispatchReply` and `failConnection` end are the list of notices that they return.
pub mod Slots
pub mod Owners
pub mod Invariant
pub mod Fifo
pub mod Connection
pub mod Reading
use redis_proxy.Base.{
  ℕ, Bool, true, false, not, ◌||◌, List, [], ◌∷◌, ◌++◌, Option, none, some, codes, ◌==◌,
  if◌then◌else◌, add64, sub64, sub32,
}
use redis_proxy.Status.{Status, is_ok, protocol_error, closed}
use redis_proxy.Signal.{Signal, new_signal, notify}
use redis_proxy.Buffer.Chain.{Chain}

pub record RequestBatch : Type 0 where
  pub owner : Option ℕ
  pub bytes : Chain
  pub command_count : ℕ

pub record PendingBatch : Type 0 where
  pub owner : Option ℕ
  pub remaining_replies : ℕ

pub data State : Type 0 where
  stopped connecting ready closing : State

pub record Channel : Type 0 where
  pub write_queue : List RequestBatch
  pub pending_queue : List PendingBatch
  pub writer_signal : Signal
  pub state : State
  pub stop_requested : Bool
  pub reader_done : Bool
  pub queued_commands : ℕ
  -- `socket_.shutdown()` was called on the current descriptor.
  pub shut : Bool

pub data Notice : Type 0 where
  reply : ℕ → Chain → Notice
  failure : ℕ → Status → Notice

unfoldable pub new_channel : Channel
new_channel = record {
  write_queue = [];
  pending_queue = [];
  writer_signal = new_signal;
  state = State.stopped;
  stop_requested = false;
  reader_done = true;
  queued_commands = 0;
  shut = false;
}

abbrev pub is_ready : State → Bool
is_ready State.ready = true
is_ready _ = false

unfoldable pub is_healthy : Channel → Bool
is_healthy c = is_ready c.state

unfoldable pub is_stopped : Channel → Bool
is_stopped c = elim (c.state) [ State.stopped ↦ true | _ ↦ false ]

unfoldable pub submit : Option ℕ → Chain → ℕ → Channel → Channel × Bool
unfolding is_healthy notify
submit owner bytes n c = if not (is_healthy c) || n == 0 then (c, false) else (
  record c {
    write_queue = c.write_queue ++ record { owner = owner; bytes = bytes; command_count = n } ∷ [];
    queued_commands = add64 c.queued_commands n;
    writer_signal = notify c.writer_signal;
  },
  true,
)

abbrev pub owned_by : ℕ → Option ℕ → Bool
owned_by o none = false
owned_by o (some p) = p == o

-- The first loop of `detachOwner`: the batches kept, and `queued_commands_`.
unfoldable pub erase_writes : ℕ → List RequestBatch → ℕ → List RequestBatch × ℕ
erase_writes o [] queued = ([], queued)
erase_writes o (b ∷ bs) queued =
    let (kept, left) =
      erase_writes o bs (if owned_by o b.owner then sub64 queued b.command_count else queued) in
    (if owned_by o b.owner then (kept, left) else (b ∷ kept, left))

-- The second loop: started batches keep their place in the reply stream.
unfoldable pub orphan : ℕ → List PendingBatch → List PendingBatch
orphan o [] = []
orphan o (p ∷ ps) = (if owned_by o p.owner then record p { owner = none } else p) ∷ orphan o ps

unfoldable pub detach_owner : ℕ → Channel → Channel
unfolding erase_writes orphan
detach_owner o c =
    let (kept, left) = erase_writes o c.write_queue c.queued_commands in
    record c {
      write_queue = kept;
      queued_commands = left;
      pending_queue = orphan o c.pending_queue;
    }

-- `owners.insert(owner)` for an owner that is not null.
unfoldable pub insert_owner : Option ℕ → List ℕ → List ℕ
insert_owner none os = os
insert_owner (some o) [] = o ∷ []
insert_owner (some o) (p ∷ os) = if p == o then p ∷ os else p ∷ insert_owner (some o) os

unfoldable pub write_owners : List RequestBatch → List ℕ → List ℕ
unfolding insert_owner
write_owners [] os = os
write_owners (b ∷ bs) os = write_owners bs (insert_owner b.owner os)

unfoldable pub pending_owners : List PendingBatch → List ℕ → List ℕ
unfolding insert_owner
pending_owners [] os = os
pending_owners (p ∷ ps) os = pending_owners ps (insert_owner p.owner os)

unfoldable pub failures : Status → List ℕ → List Notice
failures status [] = []
failures status (o ∷ os) = failure o status ∷ failures status os

-- The set of owners is walked in the order of insertion; the source leaves that order open.
unfoldable pub fail_connection : Status → Channel → Channel × List Notice
unfolding is_healthy notify write_owners pending_owners failures
fail_connection status c =
    if is_healthy c
    then (
      record c {
        state = State.closing;
        shut = true;
        writer_signal = notify c.writer_signal;
        write_queue = [];
        pending_queue = [];
        queued_commands = 0;
      },
      failures status (pending_owners c.pending_queue (write_owners c.write_queue [])),
    )
    else (c, [])

abbrev pub deliver : Option ℕ → Chain → List Notice
deliver none r = []
deliver (some o) r = reply o r ∷ []

-- `if (--pending.remaining_replies == 0) pending_queue_.pop_front()`.
unfoldable pub count_down : PendingBatch → List PendingBatch → List PendingBatch
count_down p ps =
    let left = sub32 p.remaining_replies 1 in
    if left == 0 then ps else record p { remaining_replies = left } ∷ ps

unfoldable pub dispatch_front : List PendingBatch → Chain → Channel → Channel × List Notice
unfolding fail_connection count_down
dispatch_front [] r c = fail_connection (protocol_error (codes "unexpected redis reply")) c
dispatch_front (p ∷ ps) r c = (
  record c { pending_queue = count_down p ps; queued_commands = sub64 c.queued_commands 1 },
  deliver p.owner r,
)

unfoldable pub dispatch_reply : Chain → Channel → Channel × List Notice
unfolding dispatch_front
dispatch_reply r c = dispatch_front c.pending_queue r c

-- `start`; the task that it schedules is the steps of `run` below.
unfoldable pub start : Channel → Channel
unfolding is_stopped
start c = if is_stopped c then record c { stop_requested = false; state = State.connecting } else c

unfoldable pub stop : Channel → Channel × List Notice
unfolding fail_connection notify
stop c =
    let (c', ns) =
      fail_connection (closed (codes "backend stopped")) (record c { stop_requested = true }) in
    (record c' { shut = true; writer_signal = notify c'.writer_signal }, ns)

-- A round of `writerLoop` up to `writeAll`: the bytes to write, with the batch moved over. `none` when
-- the loop ends or waits for `writer_signal_`.
unfoldable pub take_batch : List RequestBatch → Channel → Option (Chain × Channel)
take_batch [] c = none
take_batch (b ∷ bs) c = some (
  b.bytes,
  record c {
    write_queue = bs;
    pending_queue =
        c.pending_queue ++ record { owner = b.owner; remaining_replies = b.command_count } ∷ [];
  },
)

unfoldable pub writer_round : Channel → Option (Chain × Channel)
unfolding is_healthy take_batch
writer_round c = if is_healthy c then take_batch c.write_queue c else none

-- What `writerLoop` does with the status of `writeAll`.
unfoldable pub write_done : Status → Channel → Channel × List Notice
unfolding fail_connection
write_done status c = if is_ok status then (c, []) else fail_connection status c

-- What `readerLoop` does with the status of `readSome`.
unfoldable pub read_done : Status → Channel → Channel × List Notice
unfolding fail_connection is_healthy
read_done status c =
    if not (is_healthy c)
    then (c, [])
    else (if is_ok status then (c, []) else fail_connection status c)

-- A round of the inner loop of `readerLoop`: a frame was cut off, or the input is no reply.
unfoldable pub frame_ok : Chain → Channel → Channel × List Notice
unfolding is_healthy dispatch_reply
frame_ok r c = if is_healthy c then dispatch_reply r c else (c, [])

unfoldable pub frame_bad : Channel → Channel × List Notice
unfolding is_healthy fail_connection
frame_bad c =
    if is_healthy c then fail_connection (protocol_error (codes "bad redis reply")) c else (c, [])

-- What can happen to a channel between two suspension points of its worker's coroutines.
pub data Event : Type 0 where
  submitted : Option ℕ → Chain → ℕ → Event
  detached : ℕ → Event
  took : Event
  wrote : Status → Event
  read : Status → Event
  replied : Chain → Event
  garbled : Event
  stopping : Event

-- `writerLoop` with nothing to take leaves the channel as it is.
unfoldable pub after_round : Channel → Option (Chain × Channel) → Channel
after_round c none = c
after_round c (some (bytes, c')) = c'

unfoldable pub step : Channel → Event → Channel × List Notice
step c (submitted o bytes n) = ((submit o bytes n c).0, [])
step c (detached o) = (detach_owner o c, [])
step c took = (after_round c (writer_round c), [])
step c (wrote status) = write_done status c
step c (read status) = read_done status c
step c (replied r) = frame_ok r c
step c garbled = frame_bad c
step c stopping = stop c
