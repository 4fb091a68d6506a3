-- ===== src/Buffer/Chain.antt =====
-- src/buffer.cpp, `BufferSlice` and `BufferChain`: counted references to ranges of blocks. A slice
-- that was moved from, or constructed empty, refers to no block.
use redis_proxy.Base.{ℕ, ◌+◌, Bool, List, [], ◌∷◌, ◌++◌, Option, none, some, ◌==◌}
use redis_proxy.Buffer.Block.{range}
use redis_proxy.Buffer.Store.{Store, retain, release}

pub record Slice : Type 0 where
  pub block : Option ℕ
  pub offset : ℕ
  pub length : ℕ

abbrev pub no_slice : Slice
no_slice = record { block = none; offset = 0; length = 0 }

-- `if (block_) block_->retain()` and `if (block_) block_->release()`.
unfoldable pub retain_if : Option ℕ → Store → Store
retain_if none s = s
retain_if (some p) s = retain p s

unfoldable pub release_if : Option ℕ → Store → Store
release_if none s = s
release_if (some p) s = release p s

-- `BufferSlice::retain`.
unfoldable pub slice_of : ℕ → ℕ → ℕ → Store → Store × Slice
slice_of p offset length s =
    (retain p s, record { block = some p; offset = offset; length = length })

-- `BufferSlice::reset`, also the destructor.
unfoldable pub reset : Slice → Store → Store × Slice
unfolding release_if
reset x s = (release_if x.block s, record x { block = none; length = 0 })

-- The copy constructor.
unfoldable pub copy : Slice → Store → Store × Slice
unfolding retain_if
copy x s = (retain_if x.block s, x)

-- Copy assignment from another object: `(new store, new destination)`.
unfoldable pub copy_assign : Slice → Slice → Store → Store × Slice
unfolding reset retain_if
copy_assign dst src s = (retain_if src.block (reset dst s).0, src)

-- The move constructor: `(destination, source)`.
unfoldable pub move : Slice → Slice × Slice
move x = (x, record x { block = none; length = 0 })

-- Move assignment from another object: `(store, destination, source)`.
unfoldable pub move_assign : Slice → Slice → Store → Store × Slice × Slice
unfolding reset move
move_assign dst src s = ((reset dst s).0, (move src).0, (move src).1)

-- The bytes that a slice shows; an empty one has no block to read.
unfoldable pub slice_bytes : Store → Slice → List ℕ
slice_bytes s x = elim (x.block) [ none ↦ [] | some p ↦ range (s.block p) x.offset x.length ]

pub record Chain : Type 0 where
  pub slices : List Slice
  pub total : ℕ

abbrev pub empty_chain : Chain
empty_chain = record { slices = []; total = 0 }

unfoldable pub append : Chain → Slice → Chain
append c x = record { slices = c.slices ++ x ∷ []; total = c.total + x.length }

-- The loop of `appendChain` over the slices of the other chain.
unfoldable pub append_slices : Chain → List Slice → Chain
unfolding append
append_slices c [] = c
append_slices c (x ∷ xs) = append_slices (append c x) xs

-- `(destination, the emptied source)`.
unfoldable pub append_chain : Chain → Chain → Chain × Chain
unfolding append_slices
append_chain c d = (append_slices c d.slices, empty_chain)

unfoldable pub is_empty : Chain → Bool
is_empty c = c.total == 0

-- `toStringForTest`.
unfoldable pub slices_string : Store → List Slice → List ℕ
unfolding slice_bytes
slices_string s [] = []
slices_string s (x ∷ xs) = slice_bytes s x ++ slices_string s xs

unfoldable pub to_string_for_test : Store → Chain → List ℕ
unfolding slices_string
to_string_for_test s c = slices_string s c.slices
