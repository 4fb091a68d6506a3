-- ===== src/Session/Moves.antt =====
-- src/client_session.cpp: what happens to the sessions and channels of a worker between two suspension
-- points of its coroutines, and what holds at every such point.
use redis_proxy.Base.{
  ℕ, zero, suc, ◌+◌, ◌<◌, ◌^◌, ◌≡◌, refl, sym, ap, subst, ◌∙◌, inl, inr, true, false, List, some,
  arith, get_elem?, replicate,
}
use redis_proxy.Status.{Status}
use redis_proxy.Buffer.Chain.{Chain}
use redis_proxy.Channel.{Channel, State, Event, new_channel, is_healthy, start}
use redis_proxy.Channel.Invariant.{IsValid, new_channel-IsValid}
use redis_proxy.Channel.Connection.{
  connected, reader_finished, next_round, connected-IsValid, reader_finished-IsValid,
  next_round-IsValid, start-IsValid,
}
use redis_proxy.Channel.Slots.{pending_slots, write_slots}
use redis_proxy.Session.{
  Session, World, update, abort, channel_step, submit_batch, drain, new_session, finish_loop,
}
use redis_proxy.Session.Debt.{debt, tally}
use redis_proxy.Session.Delivery.{WorldIsValid}
use redis_proxy.Session.Submitting.{submit_batch-IsValid}
use redis_proxy.Session.Output.{Begins, writer_round-Begins}
use redis_proxy.Session.Loops.{
  Round, writer_round, after_round, answer_rejected, on_session, read_done, write_done,
}
use redis_proxy.Session.Stepping.{Internal, put, channel_step-IsValid, put-IsValid}
use redis_proxy.Session.Keeping.{
  on_session-IsValid, answer_rejected-Keeps, drain-Keeps, writer_round-Keeps, read_done-IsValid,
  write_done-IsValid, finish_loop-IsValid, Ended, debt-connected, debt-reader_finished,
  debt-next_round, debt-start,
}

-- What one coroutine does from one suspension point to the next.
pub data Move (w : World) : World → Type 0 where
  -- A round of a loop of channel `i`, or the pool's `stop` at it, with the callbacks.
  runs : {v : World} (i : ℕ) (e : Event) → Internal e → v ≡ channel_step i e w → Move w v
  -- The life cycle of channel `i`.
  starts :
      {v : World} (i : ℕ) (c : Channel)
      → get_elem? w.channels i ≡ some c
      → v ≡ put i (start c) w
      → Move w v
  connects :
      {v : World} (i : ℕ) (c : Channel) (status : Status)
      → get_elem? w.channels i ≡ some c
      → c.state ≡ State.connecting
      → v ≡ put i (connected status c) w
      → Move w v
  reader_ends :
      {v : World} (i : ℕ) (c : Channel)
      → get_elem? w.channels i ≡ some c
      → is_healthy c ≡ false
      → v ≡ put i (reader_finished c) w
      → Move w v
  round_ends :
      {v : World} (i : ℕ) (c : Channel)
      → get_elem? w.channels i ≡ some c
      → is_healthy c ≡ false
      → c.reader_done ≡ true
      → v ≡ put i (next_round c) w
      → Move w v
  -- The reader of an open session has a batch, with fewer than 2 ^ 64 replies outstanding in all.
  submits :
      {v : World} (o : ℕ) (bytes : Chain) (n : ℕ)
      → n < 2 ^ 32
      → (w.sessions o).pending_replies + n < 2 ^ 64
      → (w.sessions o).state ≡ redis_proxy.Session.State.opened
      → v ≡ (submit_batch o bytes n w).0
      → Move w v
  -- It meets an error in its input, answers a rejected command, or has read.
  drains : {v : World} (o : ℕ) (error : List ℕ) → v ≡ on_session o (drain error) w → Move w v
  answers :
      {v : World} (o : ℕ) (encoded : Chain)
      → (w.sessions o).pending_replies ≡ 0
      → v ≡ on_session o (answer_rejected encoded) w
      → Move w v
  reads :
      {v : World} (o : ℕ) (status : Status) (error : List ℕ)
      → v ≡ read_done o status error w
      → Move w v
  -- The writer starts a round, or has written.
  writes :
      {v : World} (o : ℕ) (encoded : Chain)
      → v ≡ on_session o (λ s. after_round s (writer_round encoded s)) w
      → Move w v
  wrote : {v : World} (o : ℕ) (status : Status) → v ≡ write_done o status w → Move w v
  -- The writer of a session ends, with a round that finds nothing more to write or to wait for.
  writer_finishes :
      {v : World} (o : ℕ) (encoded : Chain)
      → 0 < (w.sessions o).active_loops
      → writer_round encoded (w.sessions o) ≡ Round.ends
      → v ≡ finish_loop o w
      → Move w v
  -- The reader of a session ends. If it is the last, the writer has ended before, with such a round, and an
  -- aborted or drained session stays so.
  reader_finishes :
      {v : World} (o : ℕ)
      → 0 < (w.sessions o).active_loops
      → ((w.sessions o).active_loops ≡ 1 → Ended (w.sessions o))
      → v ≡ finish_loop o w
      → Move w v

-- A round of the writer that ends finds the session aborted, or drained with no reply to come.
writer_round-Ended : (encoded : Chain) (s : Session) → writer_round encoded s ≡ Round.ends → Ended s
writer_round-Ended encoded s e = by_round (writer_round-Begins encoded s)
  where
    by_round : Begins encoded s (writer_round encoded s) → Ended s
    by_round (Begins.ended_aborted st to) = inl st
    by_round (Begins.ended_drained d none_left to) = inr (d.1, d.2)
    by_round (Begins.idles up empty busy to) = absurd (cc (e, to))
    by_round (Begins.says_error d some_error to) = absurd (cc (e, to))
    by_round (Begins.flushes c rest up to shown more few) = absurd (cc (e, to))

pub Move-IsValid : (w v : World) → Move w v → WorldIsValid w → WorldIsValid v
Move-IsValid w v (Move.runs i e int to) ok =
    subst WorldIsValid (sym to) (channel_step-IsValid i e w int ok)
Move-IsValid w v (Move.starts i c at to) ok =
    subst WorldIsValid (sym to)
      (put-IsValid i c _ w at (start-IsValid c (ok.channels_valid i c at)) (λ o. debt-start o c) ok)
Move-IsValid w v (Move.connects i c status at down to) ok = subst WorldIsValid (sym to) (
    put-IsValid i c _ w at (connected-IsValid status c (ok.channels_valid i c at))
      (λ o. debt-connected o status c) ok)
Move-IsValid w v (Move.reader_ends i c at down to) ok = subst WorldIsValid (sym to) (
    put-IsValid i c _ w at (reader_finished-IsValid c (ok.channels_valid i c at))
      (λ o. debt-reader_finished o c) ok)
Move-IsValid w v (Move.round_ends i c at down done to) ok = subst WorldIsValid (sym to) (
    put-IsValid i c _ w at (next_round-IsValid c down (ok.channels_valid i c at))
      (λ o. debt-next_round o c) ok)
Move-IsValid w v (Move.submits o bytes n small fit live to) ok =
    subst WorldIsValid (sym to) (submit_batch-IsValid o bytes n w small fit live ok)
Move-IsValid w v (Move.drains o error to) ok =
    subst WorldIsValid (sym to)
      (on_session-IsValid o (drain error) w (drain-Keeps error (w.sessions o)) ok)
Move-IsValid w v (Move.answers o encoded idle to) ok = subst WorldIsValid (sym to) (
    on_session-IsValid o (answer_rejected encoded) w (answer_rejected-Keeps encoded (w.sessions o))
      ok)
Move-IsValid w v (Move.reads o status error to) ok =
    subst WorldIsValid (sym to) (read_done-IsValid o status error w ok)
Move-IsValid w v (Move.writes o encoded to) ok = subst WorldIsValid (sym to) (
    on_session-IsValid o (λ s. after_round s (writer_round encoded s)) w
      (writer_round-Keeps encoded (w.sessions o)) ok)
Move-IsValid w v (Move.wrote o status to) ok =
    subst WorldIsValid (sym to) (write_done-IsValid o status w ok)
Move-IsValid w v (Move.writer_finishes o encoded running over to) ok =
    subst WorldIsValid (sym to)
      (finish_loop-IsValid o w running (λ _. writer_round-Ended encoded (w.sessions o) over) ok)
Move-IsValid w v (Move.reader_finishes o running ended to) ok =
    subst WorldIsValid (sym to) (finish_loop-IsValid o w running ended ok)

pub data Run : World → World → Type 0 where
  stay : {w : World} → Run w w
  go : {u v w : World} → Run u v → Move v w → Run u w

-- A worker after its construction: channels that have not started, and no session has done anything.
unfoldable pub new_world : ℕ → World
new_world n = record { channels = replicate n new_channel; sessions = λ o. new_session }

new_at : (n k : ℕ) (c : Channel) → get_elem? (replicate n new_channel) k ≡ some c → c ≡ new_channel
new_at zero k c e = absurd (cc e)
new_at (suc n) zero c e = cc
new_at (suc n) (suc k) c e = new_at n k c e

new_debt : (o : ℕ) → debt o new_channel ≡ 0
unfolding tally pending_slots write_slots new_channel
new_debt o = refl

pub new_world-IsValid : (n : ℕ) → WorldIsValid (new_world n)
unfolding new_world new_session
new_world-IsValid n = record {
  channels_valid = λ k c e. subst IsValid (sym (new_at n k c e)) new_channel-IsValid;
  agrees = λ o. record {
    owed = λ k c e. ap (debt o) (new_at n k c e) ∙ new_debt o;
    idle = λ _. refl;
    busy = λ i e. absurd (cc e);
    gone = λ _. refl;
    fits = omega arith;
  };
}

-- At every point that a worker reaches, sessions and channels agree: an open or draining session waits
-- for the replies of at most one channel, for exactly as many as that channel owes it, and no other
-- channel owes it any; an aborted session waits for none and is owed none.
pub Run-IsValid : (n : ℕ) (w : World) → Run (new_world n) w → WorldIsValid w
Run-IsValid n w r = run (new_world-IsValid n) r
  where
    run : {u v : World} → WorldIsValid u → Run u v → WorldIsValid v
    run ok Run.stay = ok
    run ok (Run.go r m) = Move-IsValid _ _ m (run ok r)
