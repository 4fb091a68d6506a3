-- ===== src/Buffer/IoBuffer/Slicing.antt =====
-- src/buffer.cpp, `IoBuffer::slicePrefix`: references to the first bytes, without a copy.
use redis_proxy.Base.{
  ℕ, zero, suc, ◌+◌, ◌≤◌, ◌<◌, ◌^◌, ◌≡◌, refl, ap, ◌∙◌, arith, length, take, drop, All,
}
use redis_proxy.Buffer.Store.{Store}
use redis_proxy.Buffer.Health.{count, Healthy-ext}
use redis_proxy.Buffer.Chain.{Chain, empty_chain, slices_string, to_string_for_test}
use redis_proxy.Buffer.IoBuffer.{IoBuffer, gather, slice_blocks, slice_prefix, consume}
use redis_proxy.Buffer.IoBuffer.Valid.{
  SameData-refl, gather-SameData, Valid, Valid-ext, Frame, Frame-SameData, Frame-fewer, Frame-trans,
}
use redis_proxy.Buffer.IoBuffer.Reading.{Consumes, consume-Consumes}
use redis_proxy.Buffer.IoBuffer.References.{held, Inside, slices_string-Frame}
use redis_proxy.Buffer.IoBuffer.Cutting.{Sliced, slice_blocks-Sliced}

-- `slicePrefix` hands out a chain of exactly the first `n` readable bytes, whose slices hold counted
-- references, and takes those bytes off the buffer.
pub record Slices (n : ℕ) (b : IoBuffer) (other : ℕ → ℕ) (s : Store) (r : Store × IoBuffer × Chain)
    : Type 0 where
  pub valid : Valid r.0 (λ q. held q r.2.slices + other q) r.1
  pub text : to_string_for_test r.0 r.2 ≡ take n (gather s b.blocks)
  pub total : r.2.total ≡ length (take n (gather s b.blocks))
  pub bytes : gather r.0 r.1.blocks ≡ drop n (gather s b.blocks)
  pub inside : All (Inside r.0) r.2.slices
  pub light : (q : ℕ) → held q r.2.slices ≤ count q b.blocks
  pub fewer : (q : ℕ) → count q r.1.blocks ≤ count q b.blocks
  pub frame : Frame s r.0 (λ q. count q b.blocks) other

module _ {other : ℕ → ℕ} (n : ℕ) (b : IoBuffer) (s : Store) (v : Valid s other b)
    (few : (q : ℕ) → other q + 2 < 2 ^ 32) where
  sliced :
      Sliced n b.blocks
        (λ q. count q b.blocks + other q)
        empty_chain
        s
        (slice_blocks n b.blocks empty_chain s)
  sliced =
      slice_blocks-Sliced n b.blocks (λ q. count q b.blocks + other q) empty_chain s v.healthy
        (λ q. omega arith) (λ q. omega (arith, few q, v.alone q))

  abbrev cut : Store
  cut = (slice_blocks n b.blocks empty_chain s).0

  abbrev chain : Chain
  chain = (slice_blocks n b.blocks empty_chain s).1

  gather-cut : gather cut b.blocks ≡ gather s b.blocks
  gather-cut = gather-SameData s cut b.blocks (λ q _. sliced.same q)

  cut-Valid : Valid cut (λ q. held q chain.slices + other q) b
  cut-Valid = record {
    healthy = Healthy-ext _ sliced.healthy (λ q. omega (arith, ap (held q) sliced.chain));
    alone = v.alone;
    counted = omega (arith, v.counted, ap length gather-cut);
    cache = rw gather-cut v.cache;
  }

  consumed : Consumes n b (λ q. held q chain.slices + other q) cut (consume n b cut)
  consumed = consume-Consumes n b cut cut-Valid

  chain_kept :
      (slices_string (consume n b cut).0 chain.slices ≡ slices_string cut chain.slices)
      × All (Inside (consume n b cut).0) chain.slices
  chain_kept =
      slices_string-Frame chain.slices consumed.frame (λ q. omega arith)
        (rw sliced.chain sliced.inside)

  pub sliced-Slices : Slices n b other s ((consume n b cut).0, (consume n b cut).1, chain)
  unfolding to_string_for_test
  sliced-Slices = record {
    valid = consumed.valid;
    text = chain_kept.0 ∙ (ap (slices_string cut) sliced.chain ∙ sliced.text);
    total = omega (arith, sliced.total);
    bytes = consumed.bytes ∙ ap (drop n) gather-cut;
    inside = chain_kept.1;
    light = λ q. omega (arith, sliced.light q, ap (held q) sliced.chain);
    fewer = consumed.fewer;
    frame =
        Frame-trans {s = s} {t = cut} {mine = λ q. count q b.blocks}
          (Frame-SameData (λ q _. sliced.same q))
          (Frame-fewer other consumed.frame (λ q. omega arith)) (λ q k m. m);
  }

-- `slicePrefix` of a valid buffer hands out a chain of exactly the first `n` readable bytes, or of all
-- of them, with slices inside their blocks that hold counted references, and takes those bytes off the
-- buffer, which stays valid; every other holder of a block keeps the bytes that he reads there. No
-- block may have so many references already that its 32-bit count would wrap.
pub slice_prefix-Slices :
    {other : ℕ → ℕ} (n : ℕ) (b : IoBuffer) (s : Store)
    → Valid s other b
    → ((q : ℕ) → other q + 2 < 2 ^ 32)
    → Slices n b other s (slice_prefix n b s)
unfolding slice_prefix to_string_for_test slices_string
slice_prefix-Slices zero b s v few = record {
  valid = Valid-ext _ v (λ q. omega arith);
  text = refl;
  total = refl;
  bytes = refl;
  inside = tt;
  light = λ q. omega arith;
  fewer = λ q. omega arith;
  frame = Frame-SameData (λ q k. SameData-refl (s.block q));
}
slice_prefix-Slices (suc n) b s v few = sliced-Slices (suc n) b s v few
