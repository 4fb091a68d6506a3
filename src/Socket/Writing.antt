-- ===== src/Socket/Writing.antt =====
-- src/co_socket.cpp, `CoSocket::writeAll`: the slices of a chain are written with `writev`, as many as the
-- kernel takes at a time. The answers of the kernel are a list, one for each call of `writev` with, for a
-- descriptor that is not ready, the poll that follows; when the list is over, the coroutine is still waiting.
-- The index into the slices is the list of those from it on. The caller holds the slices, so what they show
-- stays as it is while the coroutine waits.
pub mod Pieces
pub mod Sending
pub mod Progress
pub mod Chains
use redis_proxy.Base.{
  ℕ, zero, suc, ◌+◌, ◌-◌, Bool, true, false, List, [], ◌∷◌, ◌++◌, Option, none, some, min, ltb, leb,
  if◌then◌else◌, length, take,
}
use redis_proxy.Status.{Status, status_ok, io_error}
use redis_proxy.Buffer.Store.{Store}
use redis_proxy.Buffer.Chain.{Slice, Chain, slices_string}
use redis_proxy.Socket.{write_timeout, zero_write}

-- `writev` takes some bytes, at least one and at most all; or fails with `EAGAIN`, and the poll says whether
-- the descriptor is ready in time; or takes no byte; or fails with the text of another error.
pub data Answer : Type 0 where
  takes : ℕ → Answer
  again : Bool → Answer
  takes_none : Answer
  fails : List ℕ → Answer

-- What `writeAll` returns, if it has, and the bytes that the kernel has taken.
pub record Written : Type 0 where
  pub result : Option Status
  pub sent : List ℕ

abbrev pub nothing_sent : Option Status → Written
nothing_sent o = record { result = o; sent = [] }

abbrev after_sending : List ℕ → Written → Written
after_sending xs w = record w { sent = xs ++ w.sent }

-- `slice.data() + slice_offset` and `slice.size() - slice_offset`.
abbrev pub rest_of : ℕ → Slice → Slice
rest_of offset x = record x { offset = x.offset + offset; length = x.length - offset }

-- The loop that fills `iov`, with the entries that are left.
unfoldable pub gather_iov : ℕ → ℕ → List Slice → List Slice
gather_iov zero offset xs = []
gather_iov (suc room) offset [] = []
gather_iov (suc room) offset (x ∷ xs) = elim (leb x.length offset) [
  | true ↦ gather_iov (suc room) 0 xs
  | false ↦ rest_of offset x ∷ gather_iov room 0 xs
]

-- The loop over `written`: the new offset and the slices from the new index on. The offset does not exceed
-- the size of the first slice.
unfoldable pub advance : ℕ → ℕ → List Slice → ℕ × List Slice
advance zero offset xs = (offset, xs)
advance (suc n) offset [] = (offset, [])
advance (suc n) offset (x ∷ xs) = elim (ltb (suc n) (x.length - offset)) [
  | true ↦ (offset + suc n, x ∷ xs)
  | false ↦ advance (suc n - (x.length - offset)) 0 xs
]

-- `n > 0`: the bytes that the kernel has taken, and the rest of the loop.
unfoldable pub take_bytes : (ℕ → List Slice → Written) → ℕ → List ℕ → ℕ → List Slice → Written
unfolding advance
take_bytes rest n bytes offset xs =
    let (offset', xs') = advance (min (suc n) (length bytes)) offset xs in
    after_sending (take (suc n) bytes) (rest offset' xs')

-- A round with the `iov` given.
unfoldable pub write_round :
    Store → (ℕ → List Slice → Written) → Answer → List Slice → ℕ → List Slice → Written
unfolding take_bytes
write_round s rest a [] offset xs = nothing_sent (some status_ok)
write_round s rest (Answer.takes n) (v ∷ vs) offset xs =
    take_bytes rest n (slices_string s (v ∷ vs)) offset xs
write_round s rest (Answer.again true) (v ∷ vs) offset xs = rest offset xs
write_round s rest (Answer.again false) (v ∷ vs) offset xs =
    nothing_sent (some (io_error write_timeout))
write_round s rest Answer.takes_none (v ∷ vs) offset xs = nothing_sent (some (io_error zero_write))
write_round s rest (Answer.fails m) (v ∷ vs) offset xs = nothing_sent (some (io_error m))

-- The `iov` is empty, or `writev` has not yet returned.
unfoldable pub wait_round : List Slice → Written
wait_round [] = nothing_sent (some status_ok)
wait_round (v ∷ vs) = nothing_sent none

unfoldable pub write_loop : Store → List Answer → ℕ → List Slice → Written
unfolding write_round wait_round gather_iov
write_loop s answers offset [] = nothing_sent (some status_ok)
write_loop s [] offset (x ∷ xs) = wait_round (gather_iov 64 offset (x ∷ xs))
write_loop s (a ∷ answers) offset (x ∷ xs) =
    write_round s (write_loop s answers) a (gather_iov 64 offset (x ∷ xs)) offset (x ∷ xs)

unfoldable pub write_all : Store → List Answer → Chain → Written
unfolding write_loop
write_all s answers c = write_loop s answers 0 c.slices
