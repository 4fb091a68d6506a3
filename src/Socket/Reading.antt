-- ===== src/Socket/Reading.antt =====
-- src/co_socket.cpp, `CoSocket::readSome`: one piece of input is read into the last block of a buffer. The
-- answers of the kernel are a list, one for each call of `read` with, for a descriptor that is not
-- ready, the poll that follows; when the list is over, the coroutine is still waiting.
pub mod Receiving
use redis_proxy.Base.{
  ℕ, zero, suc, ◌+◌, Bool, true, false, List, [], ◌∷◌, Option, none, some, min, length, take,
}
use redis_proxy.Status.{Status, status_ok, io_error, closed}
use redis_proxy.Buffer.Block.{copy_in}
use redis_proxy.Buffer.Store.{Store}
use redis_proxy.Buffer.IoBuffer.{
  IoBuffer, back, reserve_writable, writable_of, modify_back, commit_write,
}
use redis_proxy.Socket.{read_timeout, peer_closed}

-- `read` has these bytes, at least one, to give; or fails with `EAGAIN`, and the poll says whether the
-- descriptor is ready in time; or is at the end; or fails with the text of another error.
pub data Answer : Type 0 where
  gives : ℕ → List ℕ → Answer
  again : Bool → Answer
  ends : Answer
  fails : List ℕ → Answer

-- What `readSome` returns, if it has, the buffer and the blocks.
pub record Received : Type 0 where
  pub result : Option Status
  pub buffer : IoBuffer
  pub store : Store

-- `read` into the space that was reserved, and `commitWrite`.
unfoldable pub receive : List ℕ → IoBuffer → Store → Store × IoBuffer
unfolding writable_of modify_back copy_in commit_write
receive xs b s =
    let n = min (writable_of (back b.blocks) s) (length xs) in
    commit_write n b (modify_back (back b.blocks) (copy_in (take n xs)) s)

abbrev pub returned : Option Status → Store × IoBuffer → Received
returned o r = record { result = o; buffer = r.1; store = r.0 }

-- The call after `reserveWritable`.
unfoldable pub read_round : (IoBuffer → Store → Received) → Answer → Store × IoBuffer → Received
unfolding receive
read_round rest (Answer.gives c cs) r = returned (some status_ok) (receive (c ∷ cs) r.1 r.0)
read_round rest Answer.ends r = returned (some (closed peer_closed)) r
read_round rest (Answer.again true) r = rest r.1 r.0
read_round rest (Answer.again false) r = returned (some (io_error read_timeout)) r
read_round rest (Answer.fails m) r = returned (some (io_error m)) r

unfoldable pub read_some : List Answer → IoBuffer → Store → Received
unfolding read_round reserve_writable
read_some [] b s = returned none (reserve_writable b s)
read_some (a ∷ answers) b s = read_round (read_some answers) a (reserve_writable b s)
