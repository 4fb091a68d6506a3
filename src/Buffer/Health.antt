-- ===== src/Buffer/Health.antt =====
-- src/buffer.cpp: the reference counts are exact. `ref p` is the number of references to block `p`
-- that the rest of the worker holds: the entries of its buffers' deques and its slices.
use redis_proxy.Base.{
  ℕ, ◌+◌, ◌<◌, ◌^◌, ◌≡◌, refl, sym, subst, fun_ext, ap, List, [], ◌∷◌, arith, ◌==◌, if◌then◌else◌,
}
use native.Mathlib.Decide.{dec_lt}
use redis_proxy.Buffer.Block.{
  Block, Fits, new_block, new_block-Fits, increment, decrement, reset, reset-Fits,
}
use redis_proxy.Buffer.Store.{
  Store, modify, new_pool, acquire_from, acquire, recycle, retain, release,
}

-- 1 at `p`, 0 elsewhere.
abbrev pub one : ℕ → ℕ → ℕ
one p q = if p == q then 1 else 0

abbrev pub count : ℕ → List ℕ → ℕ
count q [] = 0
count q (p ∷ ps) = one p q + count q ps

pub record Healthy (s : Store) (ref : ℕ → ℕ) : Type 0 where
  pub room : 0 < s.block_size
  pub fits : (p : ℕ) → p < s.next → Fits s.block_size (s.block p)
  pub exact : (p : ℕ) → 0 < ref p → (s.block p).refcount ≡ ref p
  pub held : (p : ℕ) → 0 < ref p → p < s.next
  pub few : (p : ℕ) → ref p < 2 ^ 32
  pub idle : (p : ℕ) → 0 < count p s.free → (ref p ≡ 0) × (p < s.next) × (count p s.free ≡ 1)
  -- Nothing leaks: a block is in use or in the free list.
  pub kept : (p : ℕ) → p < s.next → 0 < ref p + count p s.free

pub Healthy-ext :
    {s : Store} {ref : ℕ → ℕ} (ref' : ℕ → ℕ)
    → Healthy s ref
    → ((q : ℕ) → ref' q ≡ ref q)
    → Healthy s ref'
Healthy-ext {s} ref' v e = subst (Healthy s) (fun_ext λ q. sym (e q)) v

pub new_pool-Healthy : (n : ℕ) → 0 < n → Healthy (new_pool n) (λ _. 0)
unfolding new_pool
new_pool-Healthy n h = record {
  room = h;
  fits = λ p l. absurd (omega arith);
  exact = λ p l. absurd (omega arith);
  held = λ p l. absurd (omega arith);
  few = λ p. omega arith;
  idle = λ p l. absurd (omega arith);
  kept = λ p l. absurd (omega arith);
}

-- `release` recycles the block with its last reference, and only then.
release-last :
    (p : ℕ) (s : Store) → (s.block p).refcount ≡ 1 → release p s ≡ recycle p (modify p decrement s)
unfolding release modify decrement
release-last p s e = ground arith

release-shared :
    (p : ℕ) (s : Store)
    → 1 < (s.block p).refcount
    → (s.block p).refcount < 2 ^ 32
    → release p s ≡ modify p decrement s
unfolding release modify decrement
release-shared p s h l = ground arith

decrement-Fits : {n : ℕ} {b : Block} → Fits n b → Fits n (decrement b)
unfolding decrement
decrement-Fits f = ground arith

module _ {s : Store} {ref ref' : ℕ → ℕ} (v : Healthy s ref) where
  pub retain-Healthy :
      (p : ℕ)
      → 0 < ref p
      → ref p + 1 < 2 ^ 32
      → ((q : ℕ) → ref' q ≡ ref q + one p q)
      → Healthy (retain p s) ref'
  unfolding retain modify increment
  retain-Healthy p h l e = record {
    room = v.room;
    fits = λ q k. ground (arith, v.fits q);
    exact = λ q k. ground (arith, v.exact q, v.exact p, e q);
    held = λ q k. ground (arith, v.held q, v.held p, e q);
    few = λ q. ground (arith, v.few q, e q);
    idle = λ q k. ground (arith, v.idle q, e q);
    kept = λ q k. ground (arith, v.kept q, e q);
  }

  recycle-Healthy :
      (p : ℕ)
      → ref p ≡ 1
      → ((q : ℕ) → ref q ≡ ref' q + one p q)
      → Healthy (recycle p (modify p decrement s)) ref'
  unfolding modify recycle
  recycle-Healthy p h e = record {
    room = v.room;
    fits = λ q k. ground (
      arith,
      v.fits q,
      decrement-Fits {b = s.block q} (v.fits q k),
      reset-Fits (decrement-Fits {b = s.block q} (v.fits q k)),
    );
    exact = λ q k. ground (arith, v.exact q, e q);
    held = λ q k. ground (arith, v.held q, e q);
    few = λ q. ground (arith, v.few q, e q);
    idle = λ q k. ground (arith, v.idle q, v.held p, e q, e p);
    kept = λ q k. ground (arith, v.kept q, e q);
  }

  unshare-Healthy :
      (p : ℕ)
      → 1 < ref p
      → ((q : ℕ) → ref q ≡ ref' q + one p q)
      → Healthy (modify p decrement s) ref'
  unfolding modify decrement
  unshare-Healthy p h e = record {
    room = v.room;
    fits = λ q k. ground (arith, v.fits q);
    exact = λ q k. ground (arith, v.exact q, v.exact p, v.few p, e q, e p);
    held = λ q k. ground (arith, v.held q, e q);
    few = λ q. ground (arith, v.few q, e q);
    idle = λ q k. ground (arith, v.idle q, v.held p, e q, e p);
    kept = λ q k. ground (arith, v.kept q, e q, e p);
  }

  pub release-Healthy :
      (p : ℕ) → 0 < ref p → ((q : ℕ) → ref q ≡ ref' q + one p q) → Healthy (release p s) ref'
  release-Healthy p h e = elim (dec_lt 1 (ref p)) [
    | yes many ↦
        rw (release-shared p s (omega (arith, v.exact p h)) (omega (arith, v.exact p h, v.few p)))
          (unshare-Healthy p many e)
    | no last ↦
        rw (release-last p s (omega (arith, v.exact p h))) (recycle-Healthy p (omega arith) e)
  ]

  acquire_new-Healthy :
      s.free ≡ [] → ((q : ℕ) → ref' q ≡ ref q + one s.next q) → Healthy (acquire_from [] s).0 ref'
  unfolding acquire_from new_block
  acquire_new-Healthy none_free e = record {
    room = v.room;
    fits = λ q k. ground (arith, v.fits q, new_block-Fits s.block_size);
    exact = λ q k. ground (arith, v.exact q, v.held q, e q);
    held = λ q k. ground (arith, v.held q, e q);
    few = λ q. ground (arith, v.few q, v.held q, e q);
    idle = λ q k. ground (arith, v.idle q, e q);
    kept = λ q k. ground (arith, v.kept q, e q);
  }

  acquire_free-Healthy :
      (p : ℕ) (ps : List ℕ)
      → s.free ≡ p ∷ ps
      → ((q : ℕ) → ref' q ≡ ref q + one p q)
      → Healthy (acquire_from (p ∷ ps) s).0 ref'
  unfolding acquire_from modify reset
  acquire_free-Healthy p ps at e = record {
    room = v.room;
    fits = λ q k. ground (arith, v.fits q, reset-Fits (v.fits q k));
    exact = λ q k. ground (arith, v.exact q, v.idle p, e q, listed q);
    held = λ q k. ground (arith, v.held q, v.idle p, e q, listed p);
    few = λ q. ground (arith, v.few q, v.idle p, e q, listed p);
    idle = λ q k. ground (arith, v.idle q, v.idle p, e q, listed q);
    kept = λ q k. ground (arith, v.kept q, e q, listed q);
  }
    where
      listed : (q : ℕ) → count q s.free ≡ one p q + count q ps
      listed q = ap (count q) at

module _ {s : Store} {ref : ℕ → ℕ} (v : Healthy s ref) where
  -- A change of a block that keeps its array in shape and its reference count.
  pub modify-Healthy :
      (p : ℕ) (f : Block → Block)
      → Fits s.block_size (f (s.block p))
      → (f (s.block p)).refcount ≡ (s.block p).refcount
      → Healthy (modify p f s) ref
  unfolding modify
  modify-Healthy p f fit e = record {
    room = v.room;
    fits = λ q k. ground (arith, v.fits q, fit);
    exact = λ q k. ground (arith, v.exact q, v.exact p, e);
    held = v.held;
    few = v.few;
    idle = v.idle;
    kept = v.kept;
  }

-- `acquire` hands out a block that nobody refers to, empty, and touches no other.
pub record Acquired (s : Store) (ref : ℕ → ℕ) (r : Store × ℕ) : Type 0 where
  pub unused : ref r.1 ≡ 0
  pub starts : (r.0.block r.1).begin ≡ 0
  pub ends : (r.0.block r.1).end ≡ 0
  pub others : (q : ℕ) → 0 < ref q → r.0.block q ≡ s.block q
  pub healthy : {ref' : ℕ → ℕ} → ((q : ℕ) → ref' q ≡ ref q + one r.1 q) → Healthy r.0 ref'

module _ {s : Store} {ref : ℕ → ℕ} (v : Healthy s ref) where
  acquire_from-Acquired : (ps : List ℕ) → s.free ≡ ps → Acquired s ref (acquire_from ps s)
  unfolding acquire_from modify reset new_block
  acquire_from-Acquired [] e = record {
    unused = ground (arith, v.held s.next);
    starts = ground arith;
    ends = ground arith;
    others = λ q k. ground (arith, v.held q);
    healthy = λ e'. acquire_new-Healthy v e e';
  }
  acquire_from-Acquired (p ∷ ps) e = record {
    unused = listed.0;
    starts = ground arith;
    ends = ground arith;
    others = λ q k. ground (arith, listed);
    healthy = λ e'. acquire_free-Healthy v p ps e e';
  }
    where
      listed : (ref p ≡ 0) × (p < s.next) × (count p s.free ≡ 1)
      listed = v.idle p (ground (arith, ap (count p) e))

  pub acquire-Acquired : Acquired s ref (acquire s)
  unfolding acquire
  acquire-Acquired = acquire_from-Acquired s.free refl
