-- ===== src/Buffer/Sharing.antt =====
-- src/buffer.cpp, `BufferSlice`: copies, moves and assignments keep the reference counts exact.
use redis_proxy.Base.{ℕ, ◌+◌, ◌≤◌, ◌<◌, ◌^◌, ◌≡◌, refl, Option, none, some, arith}
use redis_proxy.Buffer.Store.{Store}
use redis_proxy.Buffer.Health.{Healthy, Healthy-ext, release-Healthy, retain-Healthy}
use redis_proxy.Buffer.Chain.{
  Slice, reset, release_if, retain_if, copy_assign, move, move_assign, slice_bytes,
}
use redis_proxy.Buffer.IoBuffer.Valid.{
  SameData, SameData-refl, SameData-trans, range-SameData, release-SameData,
}
use redis_proxy.Buffer.IoBuffer.Making.{Released}
use redis_proxy.Buffer.IoBuffer.References.{held_by, retain-SameData}

pub release_if-Released :
    {other : ℕ → ℕ} (o : Option ℕ) (s : Store)
    → Healthy s (λ q. held_by q o + other q)
    → Released other s (release_if o s)
unfolding release_if
release_if-Released none s v = record {
  healthy = Healthy-ext _ v (λ q. omega arith);
  same = λ q k. SameData-refl (s.block q);
}
release_if-Released {other} (some p) s v = record {
  healthy = release-Healthy v p (ground arith) (λ q. omega arith);
  same = λ q k. release-SameData v other p q (λ x. omega arith) k;
}

retain_if-Healthy :
    {ref : ℕ → ℕ} (o : Option ℕ) (s : Store)
    → Healthy s ref
    → ((q : ℕ) → held_by q o ≤ ref q)
    → ((q : ℕ) → ref q + 1 < 2 ^ 32)
    → Healthy (retain_if o s) (λ q. held_by q o + ref q)
unfolding retain_if
retain_if-Healthy none s v h few = Healthy-ext _ v (λ q. omega arith)
retain_if-Healthy (some p) s v h few =
    Healthy-ext _ (retain-Healthy v p (ground (arith, h p)) (few p) (λ q. refl)) (λ q. omega arith)

retain_if-SameData :
    (o : Option ℕ) (s : Store) (q : ℕ) → SameData ((retain_if o s).block q) (s.block q)
unfolding retain_if
retain_if-SameData none s q = SameData-refl (s.block q)
retain_if-SameData (some p) s q = retain-SameData p s q

-- A slice shows what it did if its block has the same data.
same_bytes :
    (s t : Store) (x : Slice) (o : Option ℕ)
    → x.block ≡ o
    → ((q : ℕ) → 0 < held_by q o → SameData (t.block q) (s.block q))
    → slice_bytes t x ≡ slice_bytes s x
unfolding slice_bytes
same_bytes s t x none e h = rw e refl
same_bytes s t x (some p) e h = rw e (range-SameData x.offset x.length (h p (ground arith)))

-- A slice is assigned from another one: the counts are exact for the new holders, the slice shows what the
-- other showed, and the data of every other holder is as before.
pub record Shares (s t : Store) (d x d' x' : Slice) (other : ℕ → ℕ) : Type 0 where
  pub healthy : Healthy t (λ q. held_by q d'.block + (held_by q x'.block + other q))
  pub shown : slice_bytes t d' ≡ slice_bytes s x
  pub same : (q : ℕ) → 0 < other q → SameData (t.block q) (s.block q)

module _ (other : ℕ → ℕ) (d x : Slice) (s : Store)
    (v : Healthy s (λ q. held_by q d.block + (held_by q x.block + other q)))
    (few : (q : ℕ) → held_by q x.block + other q + 1 < 2 ^ 32) where
  released : Released (λ q. held_by q x.block + other q) s (release_if d.block s)
  released = release_if-Released {other = λ q. held_by q x.block + other q} d.block s v

  abbrev after : Store
  after = retain_if x.block (release_if d.block s)

  after_same : (q : ℕ) → 0 < held_by q x.block + other q → SameData (after.block q) (s.block q)
  after_same q k =
      SameData-trans (retain_if-SameData x.block (release_if d.block s) q) (released.same q k)

  copy_assign-Shares : Shares s (copy_assign d x s).0 d x (copy_assign d x s).1 x other
  unfolding copy_assign reset
  copy_assign-Shares = record {
    healthy =
        retain_if-Healthy x.block (release_if d.block s) released.healthy (λ q. omega arith) few;
    shown = same_bytes s after x x.block refl (λ q k. after_same q (omega (arith, k)));
    same = λ q k. after_same q (omega (arith, k));
  }

  move_assign-Shares :
      Shares s (move_assign d x s).0 d x (move_assign d x s).1 (move_assign d x s).2 other
  unfolding move_assign reset move
  move_assign-Shares = record {
    healthy = Healthy-ext _ released.healthy (λ q. omega arith);
    shown =
        same_bytes s (release_if d.block s) x x.block refl
          (λ q k. released.same q (omega (arith, k)));
    same = λ q k. released.same q (omega (arith, k));
  }

-- In a store whose reference counts are exact for two slices and other holders, and not about to wrap, copy
-- and move assignment from one slice to the other leave the counts exact for the new holders: the block that
-- the target held before loses this reference, and goes back to the pool with the last one, also when both slices
-- are of one block. The target then shows the bytes that the source showed, and the data of every block that
-- others hold is as before.
pub assign-Shares :
    {other : ℕ → ℕ} (d x : Slice) (s : Store)
    → Healthy s (λ q. held_by q d.block + (held_by q x.block + other q))
    → ((q : ℕ) → held_by q x.block + other q + 1 < 2 ^ 32)
    → Shares s (copy_assign d x s).0 d x (copy_assign d x s).1 x other
      × Shares s (move_assign d x s).0 d x (move_assign d x s).1 (move_assign d x s).2 other
assign-Shares {other} d x s v few =
    (copy_assign-Shares other d x s v few, move_assign-Shares other d x s v few)
