-- ===== src/Tests/Socket.antt =====
-- Runs of src/co_socket.cpp with answers of the kernel written out.
use redis_proxy.Base.{false, none, ℕ, ◌+◌, ◌≡◌, refl, true, List, [], ◌∷◌, some, arith, length}
use redis_proxy.Status.{status_ok, io_error}
use redis_proxy.Socket.{write_timeout, new_socket, move, close, reset, release, move_assign}
use redis_proxy.Buffer.Store.{Store, new_pool}
use redis_proxy.Buffer.Block.{new_block}
use redis_proxy.Buffer.Chain.{Chain, Slice, slice_bytes, slices_string, to_string_for_test}
use redis_proxy.Buffer.Health.{count}
use redis_proxy.Buffer.IoBuffer.{make_buffer_chain}
use redis_proxy.Socket.Ownership.{
  Operation, empty_world, run, step, assign, all_adopted, held, run_accounted,
}
use redis_proxy.Socket.Reading as Read
use redis_proxy.Socket.Reading.{read_some}
use redis_proxy.Socket.Reading.Receiving.{Reads, read_some-Reads}
use redis_proxy.Socket.Writing.{
  Answer, write_all, write_loop, gather_iov, advance, take_bytes, write_round,
}
use redis_proxy.Socket.Writing.Pieces.{Sized}
use redis_proxy.Socket.Writing.Sending.{Sends, write_all-Sends}
use redis_proxy.Socket.Writing.Progress.{write_all-Finishes}
use redis_proxy.Socket.Writing.Chains.{make_buffer_chain-Sends}
use redis_proxy.Tests.Buffer.{pool, pool-Healthy, nobody, filled, filled-Valid}

-- A block that holds 1, 2, 3, 4, and two slices of it with an empty one between them.
abbrev store : Store
store = record (new_pool 4) {
  block = λ _. record (new_block 4) { bytes = 1 ∷ 2 ∷ 3 ∷ 4 ∷ []; end = 4 };
}

abbrev slice_at : ℕ → ℕ → Slice
slice_at o n = record { block = some 0; offset = o; length = n }

abbrev chain : Chain
chain = record { slices = slice_at 0 2 ∷ slice_at 2 0 ∷ slice_at 2 2 ∷ []; total = 4 }

chain-Sized : Sized store chain.slices
unfolding slice_bytes new_pool new_block
chain-Sized = (refl, (refl, (refl, tt)))

-- The kernel takes three bytes, is not ready for a while, takes one byte each time after that.
abbrev answers : List Answer
answers = Answer.takes 2 ∷ Answer.again true ∷ Answer.takes 0 ∷ Answer.takes 0 ∷ Answer.takes 0 ∷ []

write_all-Sends_example : Sends (to_string_for_test store chain) (write_all store answers chain)
write_all-Sends_example = write_all-Sends store answers chain chain-Sized

chain_length : length (to_string_for_test store chain) ≡ 4
unfolding to_string_for_test slices_string slice_bytes new_pool new_block
chain_length = refl

write_all-Finishes_example :
    ((write_all store answers chain).result ≡ some status_ok)
    × ((write_all store answers chain).sent ≡ to_string_for_test store chain)
write_all-Finishes_example =
    write_all-Finishes store answers chain chain-Sized (refl, (refl, (refl, (refl, (refl, tt)))))
      (omega (arith, chain_length))

abbrev pong : List ℕ
pong = 43 ∷ 80 ∷ 79 ∷ 78 ∷ 71 ∷ []

make_buffer_chain-Sends_example :
    (r : Store × Chain) × (make_buffer_chain pong pool ≡ some r)
    × ((later : List Answer) → Sends pong (write_all r.0 later r.1))
make_buffer_chain-Sends_example = make_buffer_chain-Sends pong pool pool-Healthy (λ q. omega arith)

abbrev input : List Read.Answer
input = Read.Answer.again true ∷ Read.Answer.gives 7 (8 ∷ 9 ∷ []) ∷ []

read_some-Reads_example : Reads input filled.1 nobody filled.0 (read_some input filled.1 filled.0)
read_some-Reads_example = read_some-Reads input filled.1 filled.0 filled-Valid

-- A socket for 5 is moved, reset to 6, and assigned to another, for 7; that one is closed.
abbrev operations : List Operation
operations =
    Operation.makes 5
    ∷ Operation.moves 0
    ∷ Operation.resets 0 6
    ∷ Operation.makes 7
    ∷ Operation.assigns 0 1
    ∷ Operation.releases 0
    ∷ []

run_accounted_example :
    count 7 (held (run operations empty_world).sockets)
      + count 7 (run operations empty_world).closed
      + count 7 (run operations empty_world).given
    ≡ count 7 (all_adopted operations empty_world)
run_accounted_example = run_accounted operations 7

-- The kernel takes three bytes and then the last one; with a timeout it has had the first three.
sent_in_two : (write_all store answers chain).sent ≡ 1 ∷ 2 ∷ 3 ∷ 4 ∷ []
unfolding write_all write_loop gather_iov advance take_bytes write_round slices_string slice_bytes
    new_pool new_block
sent_in_two = refl

timed_out :
    write_all store (Answer.takes 2 ∷ Answer.again false ∷ []) chain
    ≡ record { result = some (io_error write_timeout); sent = 1 ∷ 2 ∷ 3 ∷ [] }
unfolding write_all write_loop gather_iov advance take_bytes write_round slices_string slice_bytes
    new_pool new_block
timed_out = refl

-- 5 was closed by the reset and 7 by the assignment, and 6 was moved and then released.
operated : run operations empty_world ≡ record {
  sockets = record { fd = none } ∷ record { fd = none } ∷ record { fd = none } ∷ [];
  closed = 5 ∷ 7 ∷ [];
  given = 6 ∷ [];
}
unfolding run step new_socket move close reset release assign move_assign
operated = refl
