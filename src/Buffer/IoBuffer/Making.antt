-- ===== src/Buffer/IoBuffer/Making.antt =====
-- src/buffer.cpp, `IoBuffer::clear`, the destructor, and `MakeBufferChain`.
use redis_proxy.Base.{
  ℕ, ◌+◌, ◌<◌, ◌^◌, ◌≡◌, refl, ap, ◌∙◌, inl, List, [], ◌∷◌, some, arith, length, take, All,
  take-all,
}
use redis_proxy.Buffer.Store.{Store, release, release_all}
use redis_proxy.Buffer.Health.{Healthy, Healthy-ext, count, release-Healthy}
use redis_proxy.Buffer.Chain.{Chain, slices_string, to_string_for_test}
use redis_proxy.Buffer.IoBuffer.{
  IoBuffer, new_buffer, clear, slice_prefix, chain_of, make_buffer_chain, gather,
}
use redis_proxy.Buffer.IoBuffer.Valid.{
  SameData, SameData-refl, SameData-trans, Valid, Frame, Frame-SameData, Frame-fewer, Frame-trans,
  release-SameData,
}
use redis_proxy.Buffer.IoBuffer.Writing.{Appends, append-Appends}
use redis_proxy.Buffer.IoBuffer.References.{held, Inside, slices_string-Frame}
use redis_proxy.Buffer.IoBuffer.Slicing.{Slices, slice_prefix-Slices}

-- What `clear` leaves of the blocks that others hold.
pub record Released (other : ℕ → ℕ) (s t : Store) : Type 0 where
  pub healthy : Healthy t other
  pub same : (q : ℕ) → 0 < other q → SameData (t.block q) (s.block q)

release_all-Released :
    {other : ℕ → ℕ} (ps : List ℕ) (s : Store)
    → Healthy s (λ q. count q ps + other q)
    → Released other s (release_all ps s)
unfolding release_all
release_all-Released [] s v = record {
  healthy = Healthy-ext _ v (λ q. omega arith);
  same = λ q k. SameData-refl (s.block q);
}
release_all-Released {other} (p ∷ ps) s v =
    let r =
      release_all-Released {other = other} ps (release p s)
        (release-Healthy v p (ground arith) (λ q. omega arith)) in
    record {
      healthy = r.healthy;
      same = λ q k.
          SameData-trans (r.same q k)
            (release-SameData v (λ x. count x ps + other x) p q (λ x. omega arith) (omega arith));
    }

-- Clearing a valid buffer gives back its references and no others: the counts are exact for the holders
-- that are left, and they keep the bytes that they read.
pub clear-Released :
    {other : ℕ → ℕ} (b : IoBuffer) (s : Store)
    → Valid s other b
    → Healthy (clear b s).0 other × Frame s (clear b s).0 (λ q. count q b.blocks) other
unfolding clear
clear-Released b s v =
    let r = release_all-Released b.blocks s v.healthy in (r.healthy, Frame-SameData r.same)

pub new_buffer-Valid : {other : ℕ → ℕ} (s : Store) → Healthy s other → Valid s other new_buffer
unfolding gather
new_buffer-Valid s v = record {
  healthy = Healthy-ext _ v (λ q. omega arith);
  alone = λ q. omega arith;
  counted = refl;
  cache = inl refl;
}

-- The chain that `MakeBufferChain` returns: it shows the bytes given, and its slices hold all the
-- references that the call leaves behind.
pub record Makes (xs : List ℕ) (other : ℕ → ℕ) (s : Store) (r : Store × Chain) : Type 0 where
  pub healthy : Healthy r.0 (λ q. held q r.1.slices + other q)
  pub text : to_string_for_test r.0 r.1 ≡ xs
  pub total : r.1.total ≡ length xs
  pub inside : All (Inside r.0) r.1.slices
  pub frame : Frame s r.0 (λ _. 0) other

module _ {other : ℕ → ℕ} (xs : List ℕ) (s : Store) (few : (q : ℕ) → other q + 2 < 2 ^ 32)
    (s1 : Store) (b1 : IoBuffer) (a : Appends xs new_buffer other s (s1, b1)) where
  cut : Slices (length xs) b1 other s1 (slice_prefix (length xs) b1 s1)
  cut = slice_prefix-Slices (length xs) b1 s1 a.valid few

  whole : take (length xs) (gather s1 b1.blocks) ≡ xs
  unfolding gather
  whole = ap (take (length xs)) a.bytes ∙ take-all (length xs) xs (omega arith)

  abbrev s2 : Store
  s2 = (slice_prefix (length xs) b1 s1).0

  abbrev b2 : IoBuffer
  b2 = (slice_prefix (length xs) b1 s1).1

  abbrev chain : Chain
  chain = (slice_prefix (length xs) b1 s1).2

  cleared :
      Healthy (clear b2 s2).0 (λ q. held q chain.slices + other q)
      × Frame s2 (clear b2 s2).0 (λ q. count q b2.blocks) (λ q. held q chain.slices + other q)
  cleared = clear-Released b2 s2 cut.valid

  kept :
      (slices_string (clear b2 s2).0 chain.slices ≡ slices_string s2 chain.slices)
      × All (Inside (clear b2 s2).0) chain.slices
  kept = slices_string-Frame chain.slices cleared.1 (λ q. omega arith) cut.inside

  made-Makes : Makes xs other s ((clear b2 s2).0, chain)
  unfolding to_string_for_test
  made-Makes = record {
    healthy = cleared.0;
    text = kept.0 ∙ (cut.text ∙ whole);
    total = cut.total ∙ ap length whole;
    inside = kept.1;
    frame =
        Frame-trans a.frame
          (Frame-trans cut.frame (Frame-fewer other cleared.1 (λ q. omega arith))
            (λ q k m. omega (arith, cut.fewer q)))
          (λ q k m. a.mine q k);
  }

-- `MakeBufferChain` returns, in a store with exact reference counts that are not about to wrap; its
-- chain shows the bytes given, and the chain's references are all that the call leaves behind.
pub make_buffer_chain-Makes :
    {other : ℕ → ℕ} (xs : List ℕ) (s : Store)
    → Healthy s other
    → ((q : ℕ) → other q + 2 < 2 ^ 32)
    → (r : Store × Chain) × (make_buffer_chain xs s ≡ some r) × Makes xs other s r
unfolding make_buffer_chain
make_buffer_chain-Makes xs s v few =
    let ((s1, b1), e, a) = append-Appends xs new_buffer s (new_buffer-Valid s v) in
    (_, ap (chain_of (length xs)) e, made-Makes xs s few s1 b1 a)
