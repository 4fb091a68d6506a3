-- ===== src/Socket/Writing/Chains.antt =====
-- src/co_socket.cpp and src/buffer.cpp: a chain that `MakeBufferChain` has made is written with `writeAll`.
use redis_proxy.Base.{
  ℕ, ◌+◌, ◌≤◌, ◌<◌, ◌^◌, ◌≡◌, refl, subst, List, [], ◌∷◌, Option, none, some, arith, length, drop,
  All, length-take, length-drop,
}
use redis_proxy.Buffer.Block.{Fits}
use redis_proxy.Buffer.Store.{Store}
use redis_proxy.Buffer.Health.{Healthy}
use redis_proxy.Buffer.Chain.{Slice, Chain, slice_bytes}
use redis_proxy.Buffer.IoBuffer.{make_buffer_chain}
use redis_proxy.Buffer.IoBuffer.References.{held, held_by, Inside, EndsInside}
use redis_proxy.Buffer.IoBuffer.Making.{make_buffer_chain-Makes}
use redis_proxy.Socket.Writing.{Answer, write_all}
use redis_proxy.Socket.Writing.Pieces.{Sized}
use redis_proxy.Socket.Writing.Sending.{Sends, write_all-Sends}

slice-Sized :
    {ref : ℕ → ℕ} (s : Store) (x : Slice) (o : Option ℕ)
    → x.block ≡ o
    → Healthy s ref
    → ((q : ℕ) → held_by q o ≤ ref q)
    → EndsInside s x o
    → length (slice_bytes s x) ≡ x.length
unfolding slice_bytes
slice-Sized s x none e v h i = rw e (omega (arith, i))
slice-Sized {ref} s x (some p) e v h i = rw e (
    omega (
      arith,
      length-take x.length (drop x.offset (s.block p).bytes),
      length-drop x.offset (s.block p).bytes,
      f.array,
      f.inside,
      i,
    ))
  where
    f : Fits s.block_size (s.block p)
    f = v.fits p (v.held p (ground (arith, h p)))

slices-Sized :
    {ref : ℕ → ℕ} (s : Store) (xs : List Slice)
    → Healthy s ref
    → ((q : ℕ) → held q xs ≤ ref q)
    → All (Inside s) xs
    → Sized s xs
slices-Sized s [] v h i = tt
slices-Sized s (x ∷ xs) v h i = (
  slice-Sized s x x.block refl v (λ q. omega (arith, h q)) i.0,
  slices-Sized s xs v (λ q. omega (arith, h q)) i.1,
)

-- In a store with exact reference counts that are not about to wrap, the chain that `MakeBufferChain` makes of
-- some bytes is written by `writeAll` as these bytes: whatever the kernel answers, the first of them have been
-- sent, each once and in order, and all of them exactly when it has returned success.
pub make_buffer_chain-Sends :
    {other : ℕ → ℕ} (xs : List ℕ) (s : Store)
    → Healthy s other
    → ((q : ℕ) → other q + 2 < 2 ^ 32)
    → (r : Store × Chain) × (make_buffer_chain xs s ≡ some r)
      × ((answers : List Answer) → Sends xs (write_all r.0 answers r.1))
make_buffer_chain-Sends {other} xs s v few =
    let (r, e, m) = make_buffer_chain-Makes xs s v few in
    (
      r,
      e,
      λ answers.
          subst (λ text. Sends text (write_all r.0 answers r.1)) m.text
            (write_all-Sends r.0 answers r.1
              (slices-Sized r.0 r.1.slices m.healthy (λ q. omega arith) m.inside)),
    )
