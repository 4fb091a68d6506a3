-- ===== src/Channel/Connection.antt =====
-- src/backend_channel.cpp, `run`: how a connection comes up, ends and is tried again.
use redis_proxy.Base.{
  ℕ, List, [], Option, none, some, codes, ◌≡◌, refl, inl, inr, Bool, true, false, not, ◌&&◌,
  if◌then◌else◌, Bool-cases,
}
use redis_proxy.Status.{Status, is_ok, io_error}
use redis_proxy.Socket.{CoSocket, Call, Connecting, reset, connect_to}
use redis_proxy.Signal.{Signal, notify}
use redis_proxy.Channel.{Channel, State, is_healthy, is_stopped, is_ready, start}
use redis_proxy.Channel.Invariant.{IsValid}

abbrev socket_failed : List ℕ
socket_failed = codes "socket failed"

-- `connectOnce`: the status, the socket and its calls. `fd` is what `CreateTcpClientSocket` gives, and the rest
-- is what `connectTo` meets.
unfoldable connect_once :
    Option ℕ → Bool → Connecting → Bool → Bool → CoSocket → Status × CoSocket × List Call
unfolding reset connect_to
connect_once none address answer ready no_error c = (io_error socket_failed, c, [])
connect_once (some fd) address answer ready no_error c =
    let (c', calls) = reset (some fd) c in (connect_to address answer ready no_error, c', calls)

-- What `run` does with the status of `connectOnce`.
unfoldable pub connected : Status → Channel → Channel
connected status c =
    if is_ok status && not c.stop_requested
    then record c { state = State.ready; reader_done = false }
    else c

-- The end of the task that runs `readerLoop`.
unfoldable pub reader_finished : Channel → Channel
unfolding notify
reader_finished c = record c { reader_done = true; writer_signal = notify c.writer_signal }

-- The end of a round of `run`, once both loops have ended, and the start of the next. The socket is
-- closed, so that `shut` is no longer about it.
unfoldable pub next_round : Channel → Channel
next_round c =
    if c.stop_requested
    then record c { state = State.stopped; shut = false }
    else record c { state = State.connecting; shut = false }

-- A channel with the queues of another that is valid is valid, if its own state asks for no more.
IsValid-state :
    (c : Channel) (st : State) (stop done shut : Bool) (sig : Signal)
    → (is_healthy c ≡ true → is_healthy (record c { state = st }) ≡ true)
    → IsValid c
    → IsValid (record c {
      state = st;
      stop_requested = stop;
      reader_done = done;
      shut = shut;
      writer_signal = sig;
    })
unfolding is_healthy
IsValid-state c st stop done shut sig up v = record {
  counted = v.counted;
  pending_sized = v.pending_sized;
  write_sized = v.write_sized;
  quiet = λ down. v.quiet (not_up c st up down);
}
  where
    not_up :
        (c : Channel) (st : State)
        → (is_healthy c ≡ true → is_healthy (record c { state = st }) ≡ true)
        → is_healthy (record c { state = st }) ≡ false
        → is_healthy c ≡ false
    not_up c st up down = elim (Bool-cases (is_healthy c)) [
      | inl e ↦ absurd (cc (up e, down))
      | inr e ↦ e
    ]

pub connected-IsValid : (s : Status) (c : Channel) → IsValid c → IsValid (connected s c)
unfolding connected is_healthy
connected-IsValid s c v = elim (Bool-cases (is_ok s && not c.stop_requested)) [
  | inl e ↦
      rw e (IsValid-state c State.ready c.stop_requested false c.shut c.writer_signal (λ _. refl) v)
  | inr e ↦ rw e v
]

pub reader_finished-IsValid : (c : Channel) → IsValid c → IsValid (reader_finished c)
unfolding reader_finished is_healthy
reader_finished-IsValid c v = IsValid-state c c.state c.stop_requested true c.shut _ (λ e. e) v

pub next_round-IsValid : (c : Channel) → is_healthy c ≡ false → IsValid c → IsValid (next_round c)
unfolding next_round is_healthy
next_round-IsValid c down v = elim (Bool-cases c.stop_requested) [
  | inl e ↦ rw e (
      IsValid-state c State.stopped true c.reader_done false c.writer_signal
        (λ up. absurd (cc (up, down))) v)
  | inr e ↦ rw e (
      IsValid-state c State.connecting false c.reader_done false c.writer_signal
        (λ up. absurd (cc (up, down))) v)
]

stopped_down : (c : Channel) → is_stopped c ≡ true → is_healthy c ≡ true → ⊥
unfolding is_stopped is_healthy
stopped_down c = by_state c.state
  where
    by_state :
        (st : State) → elim st [ State.stopped ↦ true | _ ↦ false ] ≡ true → is_ready st ≡ true → ⊥
    by_state State.stopped e h = cc (h)
    by_state State.connecting e h = cc
    by_state State.ready e h = cc e
    by_state State.closing e h = cc

if-IsValid :
    (b : Bool) (x y : Channel) → (b ≡ true → IsValid x) → IsValid y → IsValid (if b then x else y)
if-IsValid true x y h k = h refl
if-IsValid false x y h k = k

pub start-IsValid : (c : Channel) → IsValid c → IsValid (start c)
unfolding start
start-IsValid c v =
    if-IsValid (is_stopped c) _ _
      (λ e.
        IsValid-state c State.connecting false c.reader_done c.shut c.writer_signal
          (λ up. absurd (stopped_down c e up)) v)
      v
