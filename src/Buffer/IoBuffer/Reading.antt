-- ===== src/Buffer/IoBuffer/Reading.antt =====
-- src/buffer.cpp, `IoBuffer::consume` and `readableView`.
use native.Mathlib.Decide.{dec_le}
use native.Mathlib.Nat.{le_trans}
use redis_proxy.Base.{
  ℕ, ◌≤◌, ◌≡◌, refl, sym, ap, ◌∙◌, ◌⊎◌, inl, inr, List, [], ◌∷◌, ◌++◌, arith, min, length, drop,
  ◌==◌, drop-drop, length-drop, length-append, append-nil, Bool-cases, drop-all,
}
use redis_proxy.Buffer.Block.{window, size, Fits, length-window}
use redis_proxy.Buffer.Store.{Store}
use redis_proxy.Buffer.Health.{count}
use redis_proxy.Buffer.IoBuffer.{
  IoBuffer, consume_blocks, consume, advance_offset, gather, linearize, view_of, view_blocks,
  readable_view,
}
use redis_proxy.Buffer.IoBuffer.Valid.{Valid, Frame}
use redis_proxy.Buffer.IoBuffer.Consuming.{Consumed, consume_blocks-Consumed}

-- Consuming takes the first `n` readable bytes off, or all of them, keeps the invariant, and leaves to
-- every other holder of a block what it reads there.
pub record Consumes (n : ℕ) (b : IoBuffer) (other : ℕ → ℕ) (s : Store) (r : Store × IoBuffer)
    : Type 0 where
  pub valid : Valid r.0 other r.1
  pub bytes : gather r.0 r.1.blocks ≡ drop n (gather s b.blocks)
  pub fewer : (q : ℕ) → count q r.1.blocks ≤ count q b.blocks
  pub frame : Frame s r.0 (λ q. count q b.blocks) other

drop-min {ℓ} : {A : Type ℓ} (n : ℕ) (xs : List A) → drop (min n (length xs)) xs ≡ drop n xs
drop-min n xs = elim (dec_le n (length xs)) [
  | yes h ↦ ap (λ k. drop k xs) {y = n} (omega arith)
  | no h ↦ drop-all (min n (length xs)) xs (omega arith) ∙ sym (drop-all n xs (omega arith))
]

cache-advance :
    (n offset : ℕ) (cached xs : List ℕ)
    → ((cached ≡ []) ⊎ (drop offset cached ≡ xs))
    → (cached ≡ []) ⊎ (drop (advance_offset cached n offset) cached ≡ drop n xs)
unfolding advance_offset
cache-advance n offset [] xs h = inl refl
cache-advance n offset (c ∷ cs) xs (inl e) = inl e
cache-advance n offset (c ∷ cs) xs (inr e) = inr (sym (drop-drop n offset (c ∷ cs)) ∙ ap (drop n) e)

-- On a valid buffer `consume` takes the first `n` readable bytes off, or all of them if there are fewer,
-- keeps the invariant (byte count, cached copy, exact reference counts), and leaves to every other
-- holder of a block the bytes that he reads there.
pub consume-Consumes :
    {other : ℕ → ℕ} (n : ℕ) (b : IoBuffer) (s : Store)
    → Valid s other b
    → Consumes n b other s (consume n b s)
unfolding consume
consume-Consumes {other} n b s v = record {
  valid = record {
    healthy = c.healthy;
    alone = λ q. le_trans (c.fewer q) (v.alone q);
    counted = omega (arith, ap length c.bytes, length-drop m (gather s b.blocks), v.counted);
    cache =
        rw c.bytes (cache-advance m b.linearized_offset b.linearized (gather s b.blocks) v.cache);
  };
  bytes =
      c.bytes
      ∙ (ap (λ k. drop (min n k) (gather s b.blocks)) v.counted ∙ drop-min n (gather s b.blocks));
  fewer = c.fewer;
  frame = c.frame;
}
  where
    m : ℕ
    m = min n b.readable_bytes

    c : Consumed m b.blocks other s (consume_blocks m b.blocks s)
    c = consume_blocks-Consumed m b.blocks s v.healthy v.alone

-- The view shows exactly the readable bytes, whether it comes from one block, from the cached copy or
-- from a copy made for it; the buffer stays valid and keeps its blocks.
pub record Shows (b : IoBuffer) (other : ℕ → ℕ) (s : Store) (r : IoBuffer × List ℕ) : Type 0 where
  pub valid : Valid s other r.0
  pub view : r.1 ≡ gather s b.blocks
  pub blocks : r.0.blocks ≡ b.blocks

nil_of_length {ℓ} : {A : Type ℓ} (xs : List A) → length xs ≡ 0 → xs ≡ []
nil_of_length [] h = refl
nil_of_length (x ∷ xs) h = absurd (omega arith)

module _ {other : ℕ → ℕ} (b : IoBuffer) (s : Store) (v : Valid s other b) where
  linearize-Shows :
      (cached : List ℕ) → b.linearized ≡ cached → Shows b other s (view_of (linearize cached b s))
  unfolding view_of linearize
  linearize-Shows [] e = record {
    valid = record { healthy = v.healthy; alone = v.alone; counted = v.counted; cache = inr refl };
    view = refl;
    blocks = refl;
  }
  linearize-Shows (x ∷ xs) e = record { valid = v; view = ground (arith, v.cache); blocks = refl }

  front-view :
      (p : ℕ) (ps : List ℕ)
      → b.blocks ≡ p ∷ ps
      → size (s.block p) ≡ b.readable_bytes
      → window (s.block p) ≡ gather s b.blocks
  unfolding gather
  front-view p ps e h = rw e (
      sym (
        ap (◌++◌ (window (s.block p))) (nil_of_length (gather s ps) rest)
        ∙ append-nil (window (s.block p))))
    where
      fit : Fits s.block_size (s.block p)
      fit = v.healthy.fits p (v.healthy.held p (ground (arith, ap (count p) e)))

      rest : length (gather s ps) ≡ 0
      rest = omega (
        arith,
        v.counted,
        ap (λ rs. length (gather s rs)) e,
        length-append (window (s.block p)) (gather s ps),
        length-window fit,
      )

  view_blocks-Shows : (ps : List ℕ) → b.blocks ≡ ps → Shows b other s (view_blocks ps b s)
  unfolding view_blocks
  view_blocks-Shows [] e = linearize-Shows b.linearized refl
  view_blocks-Shows (p ∷ ps) e = elim (Bool-cases (size (s.block p) == b.readable_bytes)) [
    | inl one_block ↦
        rw one_block (record { valid = v; view = front-view p ps e (ground arith); blocks = refl })
    | inr several ↦ rw several (linearize-Shows b.linearized refl)
  ]

  -- `readableView` of a valid buffer shows exactly the readable bytes, whether from one block, from the
  -- cached copy or from a copy made now; the buffer stays valid and keeps its blocks.
  pub readable_view-Shows : Shows b other s (readable_view b s)
  unfolding readable_view
  readable_view-Shows = elim (Bool-cases (b.readable_bytes == 0)) [
    | inl empty ↦ rw empty (record {
      valid = v;
      view = sym (nil_of_length (gather s b.blocks) (ground (arith, v.counted)));
      blocks = refl;
    })
    | inr more ↦ rw more (view_blocks-Shows b.blocks refl)
  ]
