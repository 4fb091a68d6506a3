-- ===== src/Session/Loops.antt =====
-- src/client_session.cpp: the rounds of `writerLoop`, and what `readerLoop` does outside its parsing.
use redis_proxy.Base.{
  ℕ, zero, suc, Bool, true, false, not, ◌&&◌, ◌||◌, List, [], ◌∷◌, ◌++◌, ◌==◌, if◌then◌else◌,
}
use redis_proxy.Status.{Status, is_ok, StatusCode}
use redis_proxy.Signal.{notify}
use redis_proxy.Buffer.Chain.{Chain, append_chain}
use redis_proxy.Session.{Session, State, World, update, is_aborted, is_open, abort, drain}

abbrev pub is_draining : State → Bool
is_draining State.draining = true
is_draining _ = false

abbrev pub is_nil : List ℕ → Bool
is_nil [] = true
is_nil (b ∷ bs) = false

-- The batching loop: at most `n` more chains from the front of the output.
unfoldable pub gather_output : ℕ → Chain → List Chain → Chain × List Chain
gather_output zero reply out = (reply, out)
gather_output (suc n) reply [] = (reply, [])
gather_output (suc n) reply (c ∷ out) = gather_output n (append_chain reply c).0 out

-- How a round of `writerLoop` begins: the loop ends, it waits for `output_signal_`, or it has a chain to
-- write.
pub data Round : Type 0 where
  ends waits : Round
  writes : Chain → Session → Round

unfoldable pub take_output : List Chain → Session → Round
unfolding gather_output
take_output [] s = Round.waits
take_output (reply ∷ out) s =
    let (joined, rest) = gather_output 63 reply out in
    Round.writes joined (record s { client_out = rest })

-- `encoded` is `MakeBufferChain(pool_, ...)` of `redis::PackError(final_error_)`.
unfoldable pub writer_idle : Chain → Session → Round
unfolding take_output
writer_idle encoded s =
    if is_draining s.state && s.pending_replies == 0
    then (if is_nil s.final_error
        then Round.ends
        else take_output (encoded ∷ []) (record s { final_error = [] }))
    else Round.waits

unfoldable pub writer_open : Chain → List Chain → Session → Round
unfolding take_output writer_idle
writer_open encoded [] s = writer_idle encoded s
writer_open encoded (c ∷ out) s = take_output (c ∷ out) s

unfoldable pub writer_round : Chain → Session → Round
unfolding writer_open
writer_round encoded s =
    if is_aborted s.state then Round.ends else writer_open encoded s.client_out s

abbrev pub after_round : Session → Round → Session
after_round s Round.ends = s
after_round s Round.waits = s
after_round s (Round.writes c s') = s'

-- What `readerLoop` does with the answer to a rejected command, when no reply is outstanding any more.
unfoldable pub answer_rejected : Chain → Session → Session
unfolding notify
answer_rejected encoded s =
    if is_open s.state
    then record s {
      client_out = s.client_out ++ encoded ∷ [];
      output_signal = notify s.output_signal;
    }
    else s

abbrev pub is_closed : StatusCode → Bool
is_closed StatusCode.k_closed = true
is_closed _ = false

abbrev pub on_session : ℕ → (Session → Session) → World → World
on_session o f w = record w { sessions = update o (f (w.sessions o)) w.sessions }

-- What `readerLoop` does with the status of `readSome`; `error` is the empty text when no input is left
-- over, and the protocol error otherwise.
unfoldable pub read_done : ℕ → Status → List ℕ → World → World
unfolding drain abort
read_done o status error w =
    if not (is_open (w.sessions o).state) || is_ok status
    then w
    else (if is_closed status.code then on_session o (drain error) w else abort o w)

-- What `writerLoop` does with the status of `writeAll`.
unfoldable pub write_done : ℕ → Status → World → World
unfolding abort
write_done o status w = if is_ok status then w else abort o w
