-- ===== src/Buffer/IoBuffer/Committing.antt =====
-- src/buffer.cpp: bytes copied to the end of the last block, and `IoBuffer::commitWrite`.
use native.Mathlib.Decide.{ℕ_discrete}
use redis_proxy.Base.{
  ℕ, ◌+◌, ◌≤◌, ◌<◌, ◌≡◌, ◌≢◌, refl, sym, ap, ap₂, ◌∙◌, inl, List, [], ◌∷◌, ◌++◌, fun_ext, arith,
  length, take, length-append, append-nil, append_assoc,
}
use redis_proxy.Buffer.Block.{
  Block, window, writable_bytes, Fits, advance_end, copy_in, write-Fits, take-copy_in, window-write,
}
use redis_proxy.Buffer.Store.{Store, modify}
use redis_proxy.Buffer.Health.{Healthy, count, modify-Healthy}
use redis_proxy.Buffer.IoBuffer.{IoBuffer, gather}
use redis_proxy.Buffer.IoBuffer.Valid.{
  SameData-refl, gather-append, gather-SameData, count-append, Valid, Frame, block-modify_self,
  block-modify_ne,
}

pub modify-modify :
    (p : ℕ) (f g : Block → Block) (s : Store)
    → modify p f (modify p g s) ≡ modify p (λ b. f (g b)) s
unfolding modify
modify-modify p f g s = ap (λ k. record s { block = k }) (fun_ext λ q. ground arith)

-- The buffer after `commitWrite`.
abbrev pub written_buffer : IoBuffer → ℕ → IoBuffer
written_buffer b n = record b {
  readable_bytes = b.readable_bytes + n;
  linearized = [];
  linearized_offset = 0;
}

-- What `std::memcpy` and `commitWrite` do to the last block.
abbrev pub write : List ℕ → Block → Block
write xs c = advance_end (length xs) (copy_in xs c)

module _ {other : ℕ → ℕ} (b : IoBuffer) (s : Store) (v : Valid s other b) (front : List ℕ) (p : ℕ)
    (at : b.blocks ≡ front ++ p ∷ []) (xs : List ℕ)
    (fit_in : length xs ≤ writable_bytes (s.block p)) where
  tip-Fits : Fits s.block_size (s.block p)
  tip-Fits =
      v.healthy.fits p
        (v.healthy.held p (ground (arith, ap (count p) at, count-append p front (p ∷ []))))

  tip_alone : (q : ℕ) → 0 < count q front → p ≢ q
  tip_alone q k e = ground (arith, v.alone q, ap (count q) at, count-append q front (p ∷ []))

  pub write_bytes : gather (modify p (write xs) s) b.blocks ≡ gather s b.blocks ++ xs
  unfolding gather
  write_bytes = rw at (
      gather-append (modify p (write xs) s) front (p ∷ [])
      ∙ (ap₂ ◌++◌
            (gather-SameData s (modify p (write xs) s) front (λ q k.
              rw (block-modify_ne p q (write xs) s (tip_alone q k)) (SameData-refl (s.block q))))
            (append-nil _
              ∙ (ap window (block-modify_self p (write xs) s) ∙ window-write xs tip-Fits fit_in))
          ∙ sym regroup))
    where
      regroup : gather s (front ++ p ∷ []) ++ xs ≡ gather s front ++ (window (s.block p) ++ xs)
      regroup =
          ap (λ ys. ys ++ xs)
            (gather-append s front (p ∷ [])
              ∙ ap (◌++◌ (gather s front)) (append-nil (window (s.block p))))
          ∙ append_assoc (gather s front) (window (s.block p)) xs

  write_grows : (q : ℕ) → (s.block q).end ≤ ((modify p (write xs) s).block q).end
  unfolding advance_end copy_in
  write_grows q = elim (ℕ_discrete p q) [
    | yes e ↦ rw (← e, block-modify_self p (write xs) s) (omega arith)
    | no e ↦ rw (block-modify_ne p q (write xs) s e) (omega arith)
  ]

  write_written :
      (q : ℕ)
      → take (s.block q).end ((modify p (write xs) s).block q).bytes
        ≡ take (s.block q).end (s.block q).bytes
  unfolding advance_end
  write_written q = elim (ℕ_discrete p q) [
    | yes e ↦ rw (← e, block-modify_self p (write xs) s) (take-copy_in xs tip-Fits)
    | no e ↦ rw (block-modify_ne p q (write xs) s e)
  ]

  pub write_Frame : Frame s (modify p (write xs) s) (λ q. count q b.blocks) other
  write_Frame = record {
    grows = λ q k. write_grows q;
    written = λ q k. write_written q;
    apart =
        λ q k m. rw (block-modify_ne p q (write xs) s (not_mine q m)) (SameData-refl (s.block q));
  }
    where
      not_mine : (q : ℕ) → count q b.blocks ≡ 0 → p ≢ q
      not_mine q m e = ground (arith, ap (count q) at, count-append q front (p ∷ []))

  write_Healthy : Healthy (modify p (write xs) s) (λ q. count q b.blocks + other q)
  unfolding advance_end copy_in
  write_Healthy = modify-Healthy v.healthy p (write xs) (write-Fits xs tip-Fits fit_in) refl

  pub write_Valid : Valid (modify p (write xs) s) other (written_buffer b (length xs))
  write_Valid = record {
    healthy = write_Healthy;
    alone = v.alone;
    counted = omega (arith, v.counted, ap length write_bytes, length-append (gather s b.blocks) xs);
    cache = inl refl;
  }
