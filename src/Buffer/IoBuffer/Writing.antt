-- ===== src/Buffer/IoBuffer/Writing.antt =====
-- src/buffer.cpp, `IoBuffer::append`: reserve, copy, commit.
use redis_proxy.Base.{
  ℕ, zero, suc, ◌≤◌, ◌<◌, ◌≡◌, refl, sym, ap, ◌∙◌, List, [], ◌∷◌, ◌++◌, some, subst, arith, min,
  length, take, drop, length-take, length-drop, append-nil, append_assoc, take-append-drop,
}
use redis_proxy.Buffer.Block.{writable_bytes, advance_end, copy_in}
use redis_proxy.Buffer.Store.{Store, modify}
use redis_proxy.Buffer.Health.{count}
use redis_proxy.Buffer.IoBuffer.{
  IoBuffer, back, reserve_writable, fill, append_round, append_loop, append, gather,
}
use redis_proxy.Buffer.IoBuffer.Valid.{
  SameData-refl, back-append, Valid, Frame, Frame-SameData, Frame-trans,
}
use redis_proxy.Buffer.IoBuffer.Reserving.{Reserved, reserve_writable-Reserved}
use redis_proxy.Buffer.IoBuffer.Committing.{
  modify-modify, written_buffer, write, write_bytes, write_Frame, write_Valid,
}

-- Appending puts the data behind the readable bytes, keeps the invariant, and leaves to every other
-- holder of a block what it reads there.
pub record Appends (xs : List ℕ) (b : IoBuffer) (other : ℕ → ℕ) (s : Store) (r : Store × IoBuffer)
    : Type 0 where
  pub valid : Valid r.0 other r.1
  pub bytes : gather r.0 r.1.blocks ≡ gather s b.blocks ++ xs
  pub frame : Frame s r.0 (λ q. count q b.blocks) other
  pub mine : (q : ℕ) → 0 < other q → count q r.1.blocks ≡ count q b.blocks

-- Reserving adds no byte.
pub reserve_writable-Appends :
    {other : ℕ → ℕ} (b : IoBuffer) (s : Store)
    → Valid s other b
    → Appends [] b other s (reserve_writable b s)
reserve_writable-Appends b s v =
    let r = reserve_writable-Reserved b s v in
    record {
      valid = r.valid;
      bytes = r.bytes ∙ sym (append-nil (gather s b.blocks));
      frame = r.frame;
      mine = r.mine;
    }

-- What a round that has room for `n` bytes does.
fill_lem :
    (xs : List ℕ) (b : IoBuffer) (s : Store) (p n : ℕ)
    → back b.blocks ≡ some p
    → n ≡ min (writable_bytes (s.block p)) (length xs)
    → fill xs b s ≡ (modify p (write (take n xs)) s, written_buffer b n, drop n xs)
unfolding fill
fill_lem xs b s p n at e =
    rw (at, ← e)
      (ap (λ t. (t, written_buffer b n, drop n xs))
        (modify-modify p (advance_end n) (copy_in (take n xs)) s
          ∙ ap (λ k. modify p (λ c. advance_end k (copy_in (take n xs) c)) s) {x = n}
              (omega (arith, length-take n xs))))

-- One round writes at least one byte, and returns the rest.
pub record Round (xs : List ℕ) (b : IoBuffer) (other : ℕ → ℕ) (s : Store)
    (r : Store × IoBuffer × List ℕ) : Type 0 where
  pub taken : ℕ
  pub progress : 0 < taken
  pub rest : r.2 ≡ drop taken xs
  pub appends : Appends (take taken xs) b other s (r.0, r.1)

pub append_round-Round :
    {other : ℕ → ℕ} (xs : List ℕ) (b : IoBuffer) (s : Store)
    → Valid s other b
    → 0 < length xs
    → Round xs b other s (append_round xs b s)
unfolding append_round
append_round-Round {other} xs b s v ne = rw filled (record {
  taken = n;
  progress = omega (arith, r.room);
  rest = refl;
  appends = record {
    valid = rw width at (write_Valid b1 s1 r.valid r.front r.tip r.blocks (take n xs) fits);
    bytes =
        write_bytes b1 s1 r.valid r.front r.tip r.blocks (take n xs) fits
        ∙ ap (λ ys. ys ++ take n xs) r.bytes;
    frame =
        Frame-trans r.frame (write_Frame b1 s1 r.valid r.front r.tip r.blocks (take n xs) fits)
          (λ q k m. omega (arith, r.mine q k));
    mine = r.mine;
  };
})
  where
    r : Reserved b other s (reserve_writable b s)
    r = reserve_writable-Reserved b s v

    s1 : Store
    s1 = (reserve_writable b s).0

    b1 : IoBuffer
    b1 = (reserve_writable b s).1

    n : ℕ
    n = min (writable_bytes (s1.block r.tip)) (length xs)

    width : length (take n xs) ≡ n
    width = omega (arith, length-take n xs)

    fits : length (take n xs) ≤ writable_bytes (s1.block r.tip)
    fits = omega (arith, width)

    filled : fill xs b1 s1 ≡ (modify r.tip (write (take n xs)) s1, written_buffer b1 n, drop n xs)
    filled = fill_lem xs b1 s1 r.tip n (ap back r.blocks ∙ back-append r.front r.tip) refl

pub Appends-trans :
    {other : ℕ → ℕ} (xs ys : List ℕ) (b : IoBuffer) (s : Store) (t r : Store × IoBuffer)
    → Appends xs b other s t
    → Appends ys t.1 other t.0 r
    → Appends (xs ++ ys) b other s r
Appends-trans xs ys b s t r f g = record {
  valid = g.valid;
  bytes = g.bytes ∙ (ap (λ zs. zs ++ ys) f.bytes ∙ append_assoc (gather s b.blocks) xs ys);
  frame = Frame-trans f.frame g.frame (λ q k m. omega (arith, f.mine q k));
  mine = λ q k. omega (arith, f.mine q k, g.mine q k);
}

-- The loop ends with the data appended.
abbrev Ends : ℕ → List ℕ → IoBuffer → (ℕ → ℕ) → Store → Type 0
Ends fuel xs b other s =
    (r : Store × IoBuffer) × (append_loop fuel xs b s ≡ some r) × Appends xs b other s r

append_loop-suc :
    {other : ℕ → ℕ} (fuel x : ℕ) (xs : List ℕ) (b : IoBuffer) (s : Store)
    → (r : Round (x ∷ xs) b other s (append_round (x ∷ xs) b s))
    → Ends fuel
        (drop r.taken (x ∷ xs))
        (append_round (x ∷ xs) b s).1
        other
        (append_round (x ∷ xs) b s).0
    → Ends (suc fuel) (x ∷ xs) b other s
unfolding append_loop
append_loop-suc {other} fuel x xs b s r (t, e, later) = (
  t,
  ap (λ zs. append_loop fuel zs (append_round (x ∷ xs) b s).1 (append_round (x ∷ xs) b s).0) r.rest
      ∙ e,
  subst (λ zs. Appends zs b other s t) (take-append-drop r.taken (x ∷ xs))
      (Appends-trans (take r.taken (x ∷ xs)) (drop r.taken (x ∷ xs)) b s _ t r.appends later),
)

append_loop-Ends :
    {other : ℕ → ℕ} (fuel : ℕ) (xs : List ℕ) (b : IoBuffer) (s : Store)
    → Valid s other b
    → length xs ≤ fuel
    → Ends fuel xs b other s
unfolding append_loop
append_loop-Ends fuel [] b s v h = (
  (s, b),
  refl,
  record {
    valid = v;
    bytes = sym (append-nil (gather s b.blocks));
    frame = Frame-SameData (λ q k. SameData-refl (s.block q));
    mine = λ q k. refl;
  },
)
append_loop-Ends zero (x ∷ xs) b s v h = absurd (omega arith)
append_loop-Ends (suc fuel) (x ∷ xs) b s v h =
    let r = append_round-Round (x ∷ xs) b s v (omega arith) in
    append_loop-suc fuel x xs b s r (
      append_loop-Ends fuel (drop r.taken (x ∷ xs)) (append_round (x ∷ xs) b s).1
        (append_round (x ∷ xs) b s).0 r.appends.valid
        (omega (arith, length-drop r.taken (x ∷ xs), r.progress)))

-- `append` to a valid buffer ends, whatever the data and the (positive) block size; the data then
-- stands behind the readable bytes, the invariant holds, and every other holder of a block keeps the
-- bytes that he reads there.
pub append-Appends :
    {other : ℕ → ℕ} (xs : List ℕ) (b : IoBuffer) (s : Store)
    → Valid s other b
    → (r : Store × IoBuffer) × (append xs b s ≡ some r) × Appends xs b other s r
unfolding append
append-Appends xs b s v = append_loop-Ends (length xs) xs b s v (omega arith)
