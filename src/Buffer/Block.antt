-- ===== src/Buffer/Block.antt =====
-- src/buffer.cpp, `BufferBlock`: a fixed array with a readable window [begin, end) and a count of
-- the references to it. `capacity - end` and `end - begin` do not go below 0 in a `Fits` block.
use redis_proxy.Base.{
  ℕ, ◌+◌, ◌-◌, ◌≤◌, ◌≡◌, ◌∙◌, refl, List, ◌++◌, arith, min, length, take, drop, replicate,
  length-append, length-take, length-drop, length-replicate, range-extend, range-shrink, take-all,
  take-append_le, add32, sub32,
}

pub record Block : Type 0 where
  pub bytes : List ℕ
  pub capacity : ℕ
  pub begin : ℕ
  pub end : ℕ
  pub refcount : ℕ

-- The constructor. What `new char[capacity]` holds is never read; zeros stand for it.
unfoldable pub new_block : ℕ → Block
new_block capacity = record {
  bytes = replicate capacity 0;
  capacity = capacity;
  begin = 0;
  end = 0;
  refcount = 1;
}

abbrev pub writable_bytes : Block → ℕ
writable_bytes b = b.capacity - b.end

abbrev pub size : Block → ℕ
size b = b.end - b.begin

unfoldable pub advance_end : ℕ → Block → Block
advance_end n b = record b { end = b.end + n }

unfoldable pub consume : ℕ → Block → Block
consume n b = record b { begin = min b.end (b.begin + n) }

unfoldable pub increment : Block → Block
increment b = record b { refcount = add32 b.refcount 1 }

unfoldable pub decrement : Block → Block
decrement b = record b { refcount = sub32 b.refcount 1 }

unfoldable pub reset : Block → Block
reset b = record b { begin = 0; end = 0; refcount = 1 }

-- `std::memcpy` of `src` to offset `at` of an array.
abbrev pub copy_at : List ℕ → ℕ → List ℕ → List ℕ
copy_at dst at src = take at dst ++ (src ++ drop (at + length src) dst)

-- `std::memcpy(writePtr(), src, n)`.
unfoldable pub copy_in : List ℕ → Block → Block
copy_in src b = record b { bytes = copy_at b.bytes b.end src }

-- The bytes [offset, offset + n) of the array.
abbrev pub range : Block → ℕ → ℕ → List ℕ
range b offset n = take n (drop offset b.bytes)

-- The readable bytes.
abbrev pub window : Block → List ℕ
window b = range b b.begin (size b)

pub record Fits (block_size : ℕ) (b : Block) : Type 0 where
  pub array : length b.bytes ≡ b.capacity
  pub sized : b.capacity ≡ block_size
  pub ordered : b.begin ≤ b.end
  pub inside : b.end ≤ b.capacity

pub new_block-Fits : (n : ℕ) → Fits n (new_block n)
unfolding new_block
new_block-Fits n = record {
  array = length-replicate n 0;
  sized = refl;
  ordered = omega arith;
  inside = omega arith;
}

pub consume-Fits : {m : ℕ} {b : Block} (n : ℕ) → Fits m b → Fits m (consume n b)
unfolding consume
consume-Fits n f = ground arith

pub reset-Fits : {m : ℕ} {b : Block} → Fits m b → Fits m (reset b)
unfolding reset
reset-Fits f = ground arith

length-copy_at :
    (dst src : List ℕ) (at : ℕ)
    → at + length src ≤ length dst
    → length (copy_at dst at src) ≡ length dst
length-copy_at dst src at h = omega (
  arith,
  length-append (take at dst) (src ++ drop (at + length src) dst),
  length-append src (drop (at + length src) dst),
  length-take at dst,
  length-drop (at + length src) dst,
)

-- A write into the free part, with the end moved past it.
pub write-Fits :
    {m : ℕ} {b : Block} (src : List ℕ)
    → Fits m b
    → length src ≤ writable_bytes b
    → Fits m (advance_end (length src) (copy_in src b))
unfolding advance_end copy_in
write-Fits {m} {b} src f h = record {
  array = length-copy_at b.bytes src b.end (omega arith) ∙ f.array;
  sized = f.sized;
  ordered = omega arith;
  inside = omega arith;
}

-- A write into the free part leaves every byte before the old end.
pub take-copy_in :
    {m : ℕ} {b : Block} (src : List ℕ)
    → Fits m b
    → take b.end (copy_in src b).bytes ≡ take b.end b.bytes
unfolding copy_in
take-copy_in {b = b} src f =
    take-append_le b.end (take b.end b.bytes) _
      (omega (arith, length-take b.end b.bytes, f.array, f.inside))
    ∙ take-all b.end (take b.end b.bytes) (omega (arith, length-take b.end b.bytes))

-- The readable bytes of a block that is written to are followed by the bytes written.
pub window-write :
    {m : ℕ} {b : Block} (src : List ℕ)
    → Fits m b
    → length src ≤ writable_bytes b
    → window (advance_end (length src) (copy_in src b)) ≡ window b ++ src
unfolding copy_in advance_end
window-write {b = b} src f h =
    range-extend b.begin b.end b.bytes src _ f.ordered (omega (arith, f.array, f.inside))

pub window-consume :
    {m : ℕ} {b : Block} (n : ℕ) → Fits m b → window (consume n b) ≡ drop n (window b)
unfolding consume
window-consume {b = b} n f = range-shrink b.begin n b.end b.bytes f.ordered

pub length-window : {m : ℕ} {b : Block} → Fits m b → length (window b) ≡ size b
length-window {b = b} f = omega (
  arith,
  length-take (size b) (drop b.begin b.bytes),
  length-drop b.begin b.bytes,
  f.array,
  f.ordered,
  f.inside,
)
