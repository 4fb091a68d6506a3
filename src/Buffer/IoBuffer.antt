-- ===== src/Buffer/IoBuffer.antt =====
-- src/buffer.cpp, `IoBuffer`: a byte queue over a deque of blocks, with a cached linear copy.
-- `front()` and `back()` of an empty deque are undefined in the source; here they change nothing.
pub mod Valid
pub mod Consuming
pub mod Reading
pub mod Reserving
pub mod Committing
pub mod Writing
pub mod References
pub mod Cutting
pub mod Slicing
pub mod Making
use redis_proxy.Base.{
  ℕ, zero, suc, ◌+◌, ◌-◌, Bool, true, false, List, [], ◌∷◌, ◌++◌, Option, none, some, min, ◌==◌,
  if◌then◌else◌, length, take, drop,
}
use redis_proxy.Buffer.Block.{
  Block, writable_bytes, size, advance_end, consume as consume_block, copy_in, window,
}
use redis_proxy.Buffer.Store.{Store, modify, acquire, release, release_all}
use redis_proxy.Buffer.Chain.{Slice, Chain, slice_of, append as append_slice, empty_chain}

pub record IoBuffer : Type 0 where
  pub blocks : List ℕ
  pub readable_bytes : ℕ
  pub linearized : List ℕ
  pub linearized_offset : ℕ

abbrev pub new_buffer : IoBuffer
new_buffer = record { blocks = []; readable_bytes = 0; linearized = []; linearized_offset = 0 }

-- `blocks_.back()`.
unfoldable pub back : List ℕ → Option ℕ
back [] = none
back (p ∷ []) = some p
back (p ∷ q ∷ ps) = back (q ∷ ps)

unfoldable pub clear : IoBuffer → Store → Store × IoBuffer
clear b s = (release_all b.blocks s, new_buffer)

-- `blocks_.empty() || blocks_.back()->writableBytes() == 0`.
unfoldable pub is_full : Option ℕ → Store → Bool
is_full none s = true
is_full (some p) s = writable_bytes (s.block p) == 0

unfoldable pub grow : IoBuffer → Store → Store × IoBuffer
grow b s = let (s', p) = acquire s in (s', record b { blocks = b.blocks ++ p ∷ [] })

-- `reserveWritable`. The pointer that it returns is the end of the last block.
unfoldable pub reserve_writable : IoBuffer → Store → Store × IoBuffer
unfolding grow
reserve_writable b s = if is_full (back b.blocks) s then grow b s else (s, b)

-- `*writable` of `reserveWritable`.
unfoldable pub writable_of : Option ℕ → Store → ℕ
writable_of none s = 0
writable_of (some p) s = writable_bytes (s.block p)

-- A method of the last block.
unfoldable pub modify_back : Option ℕ → (Block → Block) → Store → Store
modify_back none f s = s
modify_back (some p) f s = modify p f s

unfoldable pub commit_write : ℕ → IoBuffer → Store → Store × IoBuffer
unfolding modify_back advance_end
commit_write n b s = (
  modify_back (back b.blocks) (advance_end n) s,
  record b { readable_bytes = b.readable_bytes + n; linearized = []; linearized_offset = 0 },
)

-- A round of the loop of `append` after `reserveWritable`: copy what fits and commit it. The rest of
-- the data is returned.
unfoldable pub fill : List ℕ → IoBuffer → Store → Store × IoBuffer × List ℕ
unfolding writable_of modify_back copy_in commit_write
fill xs b s =
    let n = min (writable_of (back b.blocks) s) (length xs) in
    let s' = modify_back (back b.blocks) (copy_in (take n xs)) s in
    let (s'', b') = commit_write n b s' in (s'', b', drop n xs)

unfoldable pub append_round : List ℕ → IoBuffer → Store → Store × IoBuffer × List ℕ
unfolding reserve_writable fill
append_round xs b s = let (s', b') = reserve_writable b s in fill xs b' s'

-- The loop on fuel: `none` means that it ran out.
unfoldable pub append_loop : ℕ → List ℕ → IoBuffer → Store → Option (Store × IoBuffer)
append_loop fuel [] b s = some (s, b)
append_loop zero (x ∷ xs) b s = none
append_loop (suc fuel) (x ∷ xs) b s =
    let (s', b', rest) = append_round (x ∷ xs) b s in append_loop fuel rest b' s'

unfoldable pub append : List ℕ → IoBuffer → Store → Option (Store × IoBuffer)
unfolding append_loop
append xs b s = append_loop (length xs) xs b s

-- The loop of `consume`. A block that keeps readable bytes took all of `n`, so the loop ends there.
unfoldable pub consume_blocks : ℕ → List ℕ → Store → Store × List ℕ
unfolding consume_block
consume_blocks n [] s = (s, [])
consume_blocks n (p ∷ ps) s =
    let taken = min n (size (s.block p)) in
    let s' = modify p (consume_block taken) s in
    let rest = consume_blocks (n - taken) ps (release p s') in
    if n == 0 then (s, p ∷ ps) else (if size (s'.block p) == 0 then rest else (s', p ∷ ps))

-- `if (!linearized_.empty()) linearized_offset_ += n`.
unfoldable pub advance_offset : List ℕ → ℕ → ℕ → ℕ
advance_offset [] n offset = offset
advance_offset (x ∷ xs) n offset = offset + n

unfoldable pub consume : ℕ → IoBuffer → Store → Store × IoBuffer
unfolding consume_blocks advance_offset
consume n b s =
    let m = min n b.readable_bytes in
    let (s', ps) = consume_blocks m b.blocks s in
    (
      s',
      record b {
        blocks = ps;
        readable_bytes = b.readable_bytes - m;
        linearized_offset = advance_offset b.linearized m b.linearized_offset;
      },
    )

-- The readable bytes of the blocks in order.
unfoldable pub gather : Store → List ℕ → List ℕ
gather s [] = []
gather s (p ∷ ps) = window (s.block p) ++ gather s ps

-- `if (linearized_.empty())`: the copy is made anew.
unfoldable pub linearize : List ℕ → IoBuffer → Store → IoBuffer
linearize [] b s = record b { linearized = gather s b.blocks; linearized_offset = 0 }
linearize (x ∷ xs) b s = b

unfoldable pub view_of : IoBuffer → IoBuffer × List ℕ
view_of b = (b, drop b.linearized_offset b.linearized)

unfoldable pub view_blocks : List ℕ → IoBuffer → Store → IoBuffer × List ℕ
unfolding view_of linearize
view_blocks [] b s = view_of (linearize b.linearized b s)
view_blocks (p ∷ ps) b s =
    if size (s.block p) == b.readable_bytes
    then (b, window (s.block p))
    else view_of (linearize b.linearized b s)

unfoldable pub readable_view : IoBuffer → Store → IoBuffer × List ℕ
unfolding view_blocks
readable_view b s = if b.readable_bytes == 0 then (b, []) else view_blocks b.blocks b s

-- The loop of `slicePrefix`, with the chain so far.
unfoldable pub slice_blocks : ℕ → List ℕ → Chain → Store → Store × Chain
unfolding slice_of append_slice
slice_blocks remaining [] c s = (s, c)
slice_blocks remaining (p ∷ ps) c s =
    let taken = min remaining (size (s.block p)) in
    let (s', x) = slice_of p (s.block p).begin taken s in
    let rest = slice_blocks (remaining - taken) ps (append_slice c x) s' in
    if remaining - taken == 0 then (s', append_slice c x) else rest

unfoldable pub slice_prefix : ℕ → IoBuffer → Store → Store × IoBuffer × Chain
unfolding slice_blocks consume
slice_prefix zero b s = (s, b, empty_chain)
slice_prefix (suc k) b s =
    let (s', c) = slice_blocks (suc k) b.blocks empty_chain s in
    let (s'', b') = consume (suc k) b s' in (s'', b', c)

-- The rest of `MakeBufferChain` after `append`: slice, and clear the temporary buffer as it goes out
-- of scope.
unfoldable pub chain_of : ℕ → Option (Store × IoBuffer) → Option (Store × Chain)
unfolding slice_prefix clear
chain_of n none = none
chain_of n (some (s, b)) =
    let (s1, b1, c) = slice_prefix n b s in let (s2, b2) = clear b1 s1 in some (s2, c)

unfoldable pub make_buffer_chain : List ℕ → Store → Option (Store × Chain)
unfolding chain_of
make_buffer_chain xs s = chain_of (length xs) (append xs new_buffer s)
