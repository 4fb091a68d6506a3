-- ===== src/Tests/Buffer.antt =====
-- The block pool and the buffers, with blocks of two bytes, as in tests/buffer_test.cpp.
use redis_proxy.Base.{ℕ, ◌+◌, ◌≡◌, refl, sym, subst, List, [], ◌∷◌, Option, none, some, arith}
use redis_proxy.Buffer.Block.{new_block}
use redis_proxy.Buffer.Store.{Store, new_pool, acquire, acquire_from, retain}
use redis_proxy.Buffer.Sharing.{Shares, assign-Shares}
use redis_proxy.Buffer.IoBuffer.References.{held_by}
use redis_proxy.Buffer.Health.{
  Healthy, count, one, new_pool-Healthy, acquire-Acquired, retain-Healthy,
}
use redis_proxy.Buffer.Chain.{Chain, Slice, copy_assign, move_assign}
use redis_proxy.Buffer.IoBuffer.{
  IoBuffer, new_buffer, append, append_loop, append_round, consume, readable_view, slice_prefix,
  make_buffer_chain, back, is_full, clear,
}
use redis_proxy.Buffer.IoBuffer.Valid.{Valid, Frame}
use redis_proxy.Buffer.IoBuffer.Writing.{Appends, append-Appends}
use redis_proxy.Buffer.IoBuffer.Reading.{Consumes, consume-Consumes, Shows, readable_view-Shows}
use redis_proxy.Buffer.IoBuffer.Slicing.{Slices, slice_prefix-Slices}
use redis_proxy.Buffer.IoBuffer.Making.{
  Makes, make_buffer_chain-Makes, clear-Released, new_buffer-Valid,
}

abbrev pub pool : Store
pool = new_pool 2

abbrev pub nobody : ℕ → ℕ
nobody _ = 0

pub pool-Healthy : Healthy pool nobody
pool-Healthy = new_pool-Healthy 2 (omega arith)

abbrev ping : List ℕ
ping = 43 ∷ 80 ∷ 79 ∷ 78 ∷ 71 ∷ []

append-Appends_example :
    (r : Store × IoBuffer) × (append ping new_buffer pool ≡ some r)
    × Appends ping new_buffer nobody pool r
append-Appends_example = append-Appends ping new_buffer pool (new_buffer-Valid pool pool-Healthy)

-- The buffer after `append`.
abbrev or_start : Option (Store × IoBuffer) → Store × IoBuffer
or_start none = (pool, new_buffer)
or_start (some r) = r

pub filled : Store × IoBuffer
filled = or_start (append ping new_buffer pool)

pub filled-Valid : Valid filled.0 nobody filled.1
unfolding filled
filled-Valid =
    let (r, e, a) = append-Appends ping new_buffer pool (new_buffer-Valid pool pool-Healthy) in
    subst (λ o. Valid (or_start o).0 nobody (or_start o).1) (sym e) a.valid

filled_blocks : filled.1.blocks ≡ 0 ∷ 1 ∷ 2 ∷ []
unfolding filled append append_loop append_round new_pool acquire back is_full new_block
filled_blocks = refl

pub filled_bytes : filled.1.readable_bytes ≡ 5
unfolding filled append append_loop append_round new_pool acquire back is_full new_block
filled_bytes = refl

consume-Consumes_example : Consumes 3 filled.1 nobody filled.0 (consume 3 filled.1 filled.0)
consume-Consumes_example = consume-Consumes 3 filled.1 filled.0 filled-Valid

readable_view-Shows_example : Shows filled.1 nobody filled.0 (readable_view filled.1 filled.0)
readable_view-Shows_example = readable_view-Shows filled.1 filled.0 filled-Valid

slice_prefix-Slices_example : Slices 3 filled.1 nobody filled.0 (slice_prefix 3 filled.1 filled.0)
slice_prefix-Slices_example =
    slice_prefix-Slices 3 filled.1 filled.0 filled-Valid (λ q. omega arith)

make_buffer_chain-Makes_example :
    (r : Store × Chain) × (make_buffer_chain ping pool ≡ some r) × Makes ping nobody pool r
make_buffer_chain-Makes_example = make_buffer_chain-Makes ping pool pool-Healthy (λ q. omega arith)

clear-Released_example :
    Healthy (clear filled.1 filled.0).0 nobody
    × Frame filled.0 (clear filled.1 filled.0).0 (λ q. count q filled.1.blocks) nobody
clear-Released_example = clear-Released filled.1 filled.0 filled-Valid

-- A block that two slices hold.
held_once : Store
held_once = (acquire pool).0

held_twice : Store
held_twice = retain 0 held_once

abbrev first_slice : Slice
first_slice = record { block = some 0; offset = 0; length = 2 }

abbrev second_slice : Slice
second_slice = record { block = some 0; offset = 1; length = 1 }

held_once-Healthy : Healthy held_once (λ q. one 0 q)
unfolding held_once acquire acquire_from new_pool
held_once-Healthy = (acquire-Acquired pool-Healthy).healthy (λ q. omega arith)

held_twice-Healthy :
    Healthy held_twice
      (λ q. held_by q first_slice.block + (held_by q second_slice.block + nobody q))
unfolding held_twice
held_twice-Healthy =
    retain-Healthy held_once-Healthy 0 (omega arith) (omega arith) (λ q. omega arith)

assign-Shares_example :
    Shares held_twice
      (copy_assign first_slice second_slice held_twice).0
      first_slice
      second_slice
      (copy_assign first_slice second_slice held_twice).1
      second_slice
      nobody
    × Shares held_twice
        (move_assign first_slice second_slice held_twice).0
        first_slice
        second_slice
        (move_assign first_slice second_slice held_twice).1
        (move_assign first_slice second_slice held_twice).2
        nobody
assign-Shares_example =
    assign-Shares first_slice second_slice held_twice held_twice-Healthy (λ q. ground arith)
