-- ===== src/Buffer/IoBuffer/Consuming.antt =====
-- src/buffer.cpp, the loop of `IoBuffer::consume`.
use native.Mathlib.Decide.{dec_le}
use redis_proxy.Base.{
  ℕ, zero, suc, ◌+◌, ◌-◌, ◌≤◌, ◌<◌, ◌≡◌, ◌≢◌, refl, sym, ap, ap₂, ◌∙◌, List, [], ◌∷◌, ◌++◌, arith,
  min, length, drop, drop-append_ge, drop-append_le, drop-nil,
}
use redis_proxy.Buffer.Block.{
  Block, window, size, Fits, consume as consume_block, consume-Fits, window-consume, length-window,
}
use redis_proxy.Buffer.Store.{Store, modify, release}
use redis_proxy.Buffer.Health.{Healthy, count, modify-Healthy, release-Healthy}
use redis_proxy.Buffer.IoBuffer.{consume_blocks, gather}
use redis_proxy.Buffer.IoBuffer.Valid.{
  SameData, SameData-refl, gather-SameData, Frame, Frame-SameData, Frame-trans, release-SameData,
  block-modify_self,
}

-- What the loop of `consume` leaves.
pub record Consumed (n : ℕ) (ps : List ℕ) (other : ℕ → ℕ) (s : Store) (r : Store × List ℕ)
    : Type 0 where
  pub healthy : Healthy r.0 (λ q. count q r.1 + other q)
  pub bytes : gather r.0 r.1 ≡ drop n (gather s ps)
  pub fewer : (q : ℕ) → count q r.1 ≤ count q ps
  pub frame : Frame s r.0 (λ q. count q ps) other

module _ {s : Store} (other : ℕ → ℕ) (n p : ℕ) (ps : List ℕ) where
  module _ (v : Healthy s (λ q. count q (p ∷ ps) + other q))
      (a : (q : ℕ) → count q (p ∷ ps) ≤ 1) where
    front-Fits : Fits s.block_size (s.block p)
    front-Fits = v.fits p (v.held p (ground arith))

    consume_front-Frame : Frame s (modify p (consume_block n) s) (λ q. count q (p ∷ ps)) other
    unfolding modify consume_block
    consume_front-Frame = record {
      grows = λ q k. ground arith;
      written = λ q k. ground arith;
      apart = λ q k m. ground (arith, SameData-refl (s.block q));
    }

    consume_front-Healthy : Healthy (modify p (consume_block n) s) (λ q. count q (p ∷ ps) + other q)
    unfolding consume_block
    consume_front-Healthy = modify-Healthy v p _ (consume-Fits n front-Fits) refl

    rest-gather : gather (modify p (consume_block n) s) ps ≡ gather s ps
    unfolding modify
    rest-gather = gather-SameData s _ ps (λ q k. ground (arith, a q, SameData-refl (s.block q)))

    front_window : window ((modify p (consume_block n) s).block p) ≡ drop n (window (s.block p))
    front_window = ap window (block-modify_self p (consume_block n) s) ∙ window-consume n front-Fits

    -- The front block keeps readable bytes.
    consume_part-Consumed :
        n < size (s.block p) → Consumed n (p ∷ ps) other s (modify p (consume_block n) s, p ∷ ps)
    unfolding gather
    consume_part-Consumed h = record {
      healthy = consume_front-Healthy;
      bytes =
          ap₂ ◌++◌ front_window rest-gather
          ∙ sym (
              drop-append_le n (window (s.block p)) (gather s ps)
                (omega (arith, length-window front-Fits)));
      fewer = λ q. omega arith;
      frame = consume_front-Frame;
    }

module _ {s : Store} (other : ℕ → ℕ) (p : ℕ) (ps : List ℕ)
    (v : Healthy s (λ q. count q (p ∷ ps) + other q)) (a : (q : ℕ) → count q (p ∷ ps) ≤ 1) where
  -- The store once the front block is used up, and given back.
  abbrev spent : Store
  spent = modify p (consume_block (size (s.block p))) s

  abbrev passed : Store
  passed = release p spent

  spent-Healthy : Healthy spent (λ q. count q (p ∷ ps) + other q)
  spent-Healthy = consume_front-Healthy other (size (s.block p)) p ps v a

  passed-Healthy : Healthy passed (λ q. count q ps + other q)
  passed-Healthy = release-Healthy spent-Healthy p (ground arith) (λ q. omega arith)

  passed-SameData : (q : ℕ) → 0 < count q ps + other q → SameData (passed.block q) (spent.block q)
  passed-SameData q k =
      release-SameData spent-Healthy (λ r. count r ps + other r) p q (λ r. omega arith) k

  passed-gather : gather passed ps ≡ gather s ps
  passed-gather =
      gather-SameData spent passed ps (λ q k. passed-SameData q (omega arith))
      ∙ rest-gather other (size (s.block p)) p ps v a

  passed-Frame : Frame s passed (λ q. count q (p ∷ ps)) other
  passed-Frame =
      Frame-trans (consume_front-Frame other (size (s.block p)) p ps v a)
        (Frame-SameData {mine = λ q. count q ps} (λ q k. passed-SameData q (omega arith)))
        (λ q k m. omega arith)

  -- The front block is used up, and the loop goes on with the others.
  consume_pass-Consumed :
      (n : ℕ) (r : Store × List ℕ)
      → size (s.block p) ≤ n
      → Consumed (n - size (s.block p)) ps other passed r
      → Consumed n (p ∷ ps) other s r
  unfolding gather
  consume_pass-Consumed n r h c = record {
    healthy = c.healthy;
    bytes =
        c.bytes
        ∙ (ap (drop (n - size (s.block p))) passed-gather
            ∙ sym (
                drop-append_ge n (window (s.block p)) (gather s ps) (omega (arith, width))
                ∙ ap (λ k. drop (n - k) (gather s ps)) width));
    fewer = λ q. omega (arith, c.fewer q);
    frame = Frame-trans passed-Frame c.frame (λ q k m. omega arith);
  }
    where
      width : length (window (s.block p)) ≡ size (s.block p)
      width = length-window (front-Fits other n p ps v a)

size-consume_lt : (n : ℕ) (b : Block) → n < size b → size (consume_block n b) ≢ 0
unfolding consume_block
size-consume_lt n b h = omega arith

size-consume_all : (b : Block) → size (consume_block (size b) b) ≡ 0
unfolding consume_block
size-consume_all b = omega arith

consume_blocks-pass :
    (n p : ℕ) (ps : List ℕ) (s : Store)
    → n ≢ 0
    → size (s.block p) ≤ n
    → consume_blocks n (p ∷ ps) s
      ≡ consume_blocks
          (n - size (s.block p))
          ps
          (release p (modify p (consume_block (size (s.block p))) s))
unfolding consume_blocks
consume_blocks-pass n p ps s h l =
    let m : min n (size (s.block p)) ≡ size (s.block p) = omega arith in
    rw m (
      ground (
        arith,
        ap size (block-modify_self p (consume_block (size (s.block p))) s),
        size-consume_all (s.block p),
      ))

consume_blocks-part :
    (n p : ℕ) (ps : List ℕ) (s : Store)
    → n ≢ 0
    → n < size (s.block p)
    → consume_blocks n (p ∷ ps) s ≡ (modify p (consume_block n) s, p ∷ ps)
unfolding consume_blocks
consume_blocks-part n p ps s h l =
    let m : min n (size (s.block p)) ≡ n = omega arith in
    rw m (
      ground
        (arith, ap size (block-modify_self p (consume_block n) s), size-consume_lt n (s.block p)))

pub consume_blocks-Consumed :
    {other : ℕ → ℕ} (n : ℕ) (ps : List ℕ) (s : Store)
    → Healthy s (λ q. count q ps + other q)
    → ((q : ℕ) → count q ps ≤ 1)
    → Consumed n ps other s (consume_blocks n ps s)
unfolding consume_blocks gather
consume_blocks-Consumed n [] s v a = record {
  healthy = v;
  bytes = sym (drop-nil n);
  fewer = λ q. omega arith;
  frame = Frame-SameData (λ q k. SameData-refl (s.block q));
}
consume_blocks-Consumed {other} zero (p ∷ ps) s v a = record {
  healthy = v;
  bytes = refl;
  fewer = λ q. omega arith;
  frame = Frame-SameData (λ q k. SameData-refl (s.block q));
}
consume_blocks-Consumed {other} (suc n) (p ∷ ps) s v a = elim (dec_le (size (s.block p)) (suc n)) [
  | yes all ↦ rw (consume_blocks-pass (suc n) p ps s (omega arith) all) (
      consume_pass-Consumed other p ps v a (suc n) _ all (
        consume_blocks-Consumed (suc n - size (s.block p)) ps _ (passed-Healthy other p ps v a)
          (λ q. omega (arith, a q))))
  | no part ↦
      rw (consume_blocks-part (suc n) p ps s (omega arith) (omega arith))
        (consume_part-Consumed other (suc n) p ps v a (omega arith))
]
