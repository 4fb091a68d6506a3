-- ===== src/Buffer/Store.antt =====
-- src/buffer.cpp, `BlockPool` and the reference counts: the blocks of one worker by address, and the
-- free list. Address `next` is the one that `new` hands out next; `free` has its back at the head.
use redis_proxy.Base.{ℕ, suc, List, [], ◌∷◌, ◌==◌, if◌then◌else◌}
use redis_proxy.Buffer.Block.{Block, new_block, increment, decrement, reset}

pub record Store : Type 0 where
  pub block : ℕ → Block
  pub next : ℕ
  pub free : List ℕ
  pub block_size : ℕ

abbrev pub update : (ℕ → Block) → ℕ → Block → ℕ → Block
update f p b q = if p == q then b else f q

-- `block->f()` for a method that changes the block at `p`.
unfoldable pub modify : ℕ → (Block → Block) → Store → Store
modify p f s = record s { block = update s.block p (f (s.block p)) }

-- The constructor of `BlockPool`, with no block allocated.
unfoldable pub new_pool : ℕ → Store
new_pool n = record { block = λ _. new_block n; next = 0; free = []; block_size = n }

-- `BlockPool::acquire`, by the free list.
unfoldable pub acquire_from : List ℕ → Store → Store × ℕ
unfolding modify
acquire_from [] s =
    (record s { block = update s.block s.next (new_block s.block_size); next = suc s.next }, s.next)
acquire_from (p ∷ ps) s = (modify p reset (record s { free = ps }), p)

unfoldable pub acquire : Store → Store × ℕ
unfolding acquire_from
acquire s = acquire_from s.free s

-- `BlockPool::recycle`.
unfoldable pub recycle : ℕ → Store → Store
unfolding modify
recycle p s = let s' = modify p reset s in record s' { free = p ∷ s'.free }

-- `BufferBlock::retain` and `BufferBlock::release`.
unfoldable pub retain : ℕ → Store → Store
unfolding modify
retain p s = modify p increment s

unfoldable pub release : ℕ → Store → Store
unfolding modify recycle
release p s =
    let s' = modify p decrement s in if (s'.block p).refcount == 0 then recycle p s' else s'

-- The deques' destructors and `clear`: one reference given back for each entry.
unfoldable pub release_all : List ℕ → Store → Store
release_all [] s = s
release_all (p ∷ ps) s = release_all ps (release p s)
