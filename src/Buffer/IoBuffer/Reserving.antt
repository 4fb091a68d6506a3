-- ===== src/Buffer/IoBuffer/Reserving.antt =====
-- src/buffer.cpp, `IoBuffer::reserveWritable`: the last block has room.
use redis_proxy.Base.{
  ℕ, ◌+◌, ◌<◌, ◌≡◌, refl, ap, ap₂, ◌∙◌, inl, inr, true, false, List, [], ◌∷◌, ◌++◌, arith, length,
  append-nil, Bool-cases,
}
use redis_proxy.Buffer.Block.{writable_bytes, Fits}
use redis_proxy.Buffer.Store.{Store, acquire}
use redis_proxy.Buffer.Health.{Healthy, one, count, Acquired, acquire-Acquired}
use redis_proxy.Buffer.IoBuffer.{IoBuffer, back, is_full, grow, reserve_writable, gather}
use redis_proxy.Buffer.IoBuffer.Valid.{
  SameData-refl, gather-append, gather-SameData, count-append, back-append, nothing, last, split,
  Valid, Frame, Frame-SameData,
}

-- A buffer whose last block has room.
pub record Reserved (b : IoBuffer) (other : ℕ → ℕ) (s : Store) (r : Store × IoBuffer) : Type 0 where
  pub front : List ℕ
  pub tip : ℕ
  pub valid : Valid r.0 other r.1
  pub blocks : r.1.blocks ≡ front ++ tip ∷ []
  pub room : 0 < writable_bytes (r.0.block tip)
  pub bytes : gather r.0 r.1.blocks ≡ gather s b.blocks
  pub frame : Frame s r.0 (λ q. count q b.blocks) other
  pub mine : (q : ℕ) → 0 < other q → count q r.1.blocks ≡ count q b.blocks

module _ {other : ℕ → ℕ} (b : IoBuffer) (s : Store) (v : Valid s other b) where
  grow_new : Acquired s (λ q. count q b.blocks + other q) (acquire s)
  grow_new = acquire-Acquired v.healthy

  grow_blocks-count :
      (q : ℕ) → count q (b.blocks ++ (acquire s).1 ∷ []) ≡ count q b.blocks + one (acquire s).1 q
  grow_blocks-count q = omega (arith, count-append q b.blocks ((acquire s).1 ∷ []))

  grow_Healthy : Healthy (acquire s).0 (λ q. count q (b.blocks ++ (acquire s).1 ∷ []) + other q)
  grow_Healthy = grow_new.healthy (λ q. omega (arith, grow_blocks-count q))

  grow_bytes : gather (acquire s).0 (b.blocks ++ (acquire s).1 ∷ []) ≡ gather s b.blocks
  unfolding gather
  grow_bytes =
      gather-append (acquire s).0 b.blocks ((acquire s).1 ∷ [])
      ∙ (ap₂ ◌++◌
            (gather-SameData s (acquire s).0 b.blocks
              (λ q k. rw (grow_new.others q (omega arith)) (SameData-refl (s.block q))))
            (ground (arith, grow_new.starts, grow_new.ends))
          ∙ append-nil (gather s b.blocks))

  grow-Reserved : Reserved b other s (grow b s)
  unfolding grow
  grow-Reserved = record {
    front = b.blocks;
    tip = (acquire s).1;
    valid = record {
      healthy = grow_Healthy;
      alone = λ q. ground (arith, grow_blocks-count q, v.alone q, grow_new.unused);
      counted = omega (arith, v.counted, ap length grow_bytes);
      cache = rw grow_bytes v.cache;
    };
    blocks = refl;
    room = omega (arith, grow_new.ends, tip-Fits.sized, grow_Healthy.room);
    bytes = grow_bytes;
    frame =
        Frame-SameData (λ q k. rw (grow_new.others q (omega arith)) (SameData-refl (s.block q)));
    mine = λ q k. ground (arith, grow_blocks-count q, grow_new.unused);
  }
    where
      tip-Fits : Fits (acquire s).0.block_size ((acquire s).0.block (acquire s).1)
      tip-Fits =
          grow_Healthy.fits (acquire s).1
            (grow_Healthy.held (acquire s).1 (ground (arith, grow_blocks-count (acquire s).1)))

  -- A last block that is not full has room.
  open_tip :
      (front : List ℕ) (p : ℕ)
      → b.blocks ≡ front ++ p ∷ []
      → is_full (back b.blocks) s ≡ false
      → 0 < writable_bytes (s.block p)
  unfolding is_full
  open_tip front p e h =
      ground (arith, ap (λ ps. is_full (back ps) s) e, ap (λ o. is_full o s) (back-append front p))

  no_tip : b.blocks ≡ [] → is_full (back b.blocks) s ≡ true
  unfolding is_full back
  no_tip e = rw e

  pub reserve_writable-Reserved : Reserved b other s (reserve_writable b s)
  unfolding reserve_writable
  reserve_writable-Reserved = elim (Bool-cases (is_full (back b.blocks) s)) [
    | inl full ↦ rw full grow-Reserved
    | inr open_end ↦ rw open_end (elim (split b.blocks) [
      | nothing e ↦ absurd (cc (no_tip e))
      | last front p e ↦ record {
        front = front;
        tip = p;
        valid = v;
        blocks = e;
        room = open_tip front p e open_end;
        bytes = refl;
        frame = Frame-SameData (λ q k. SameData-refl (s.block q));
        mine = λ q k. refl;
      }
    ])
  ]
