-- ===== src/Buffer/IoBuffer/References.antt =====
-- src/buffer.cpp: what slices refer to, and that they show the same as long as they are held.
use redis_proxy.Base.{
  ℕ, ◌+◌, ◌≤◌, ◌<◌, ◌≡◌, refl, sym, ap, ap₂, ◌∙◌, List, [], ◌∷◌, ◌++◌, Option, none, some, arith,
  take, drop, range-prefix, All,
}
use redis_proxy.Buffer.Block.{increment}
use redis_proxy.Buffer.Store.{Store, modify, retain}
use redis_proxy.Buffer.Health.{one}
use redis_proxy.Buffer.Chain.{Slice, slice_bytes, slices_string}
use redis_proxy.Buffer.IoBuffer.Valid.{SameData, Frame}

-- The references that a chain's slices hold.
abbrev pub held_by : ℕ → Option ℕ → ℕ
held_by q none = 0
held_by q (some p) = one p q

abbrev pub held : ℕ → List Slice → ℕ
held q [] = 0
held q (x ∷ xs) = held_by q x.block + held q xs

-- A slice ends before the end of its block; one without a block is empty.
abbrev pub EndsInside : Store → Slice → Option ℕ → Type 0
EndsInside s x none = x.length ≡ 0
EndsInside s x (some p) = x.offset + x.length ≤ (s.block p).end

abbrev pub Inside : Store → Slice → Type 0
Inside s x = EndsInside s x x.block

slice_bytes-cases :
    {s t : Store} {mine other : ℕ → ℕ} (x : Slice) (o : Option ℕ)
    → x.block ≡ o
    → Frame s t mine other
    → ((q : ℕ) → held_by q o ≤ other q)
    → EndsInside s x o
    → (slice_bytes t x ≡ slice_bytes s x) × EndsInside t x o
unfolding slice_bytes
slice_bytes-cases x none e f h i = (rw e, i)
slice_bytes-cases {s} {t} {other = other} x (some p) e f h i = (
  rw e (
      range-prefix x.offset x.length (s.block p).end (t.block p).bytes i
      ∙ (ap (λ ys. take x.length (drop x.offset ys)) (f.written p used)
          ∙ sym (range-prefix x.offset x.length (s.block p).end (s.block p).bytes i))),
  omega (arith, f.grows p used),
)
  where
    used : 0 < other p
    used = ground (arith, h p)

-- A slice that is held shows the same bytes after any operation of a buffer, whoever fills the rest
-- of its block, and still ends inside the block.
slice_bytes-Frame :
    {s t : Store} {mine other : ℕ → ℕ} (x : Slice)
    → Frame s t mine other
    → ((q : ℕ) → held_by q x.block ≤ other q)
    → Inside s x
    → (slice_bytes t x ≡ slice_bytes s x) × Inside t x
slice_bytes-Frame x = slice_bytes-cases x x.block refl

pub slices_string-Frame :
    {s t : Store} {mine other : ℕ → ℕ} (xs : List Slice)
    → Frame s t mine other
    → ((q : ℕ) → held q xs ≤ other q)
    → All (Inside s) xs
    → (slices_string t xs ≡ slices_string s xs) × All (Inside t) xs
unfolding slices_string
slices_string-Frame [] f h i = (refl, tt)
slices_string-Frame (x ∷ xs) f h i =
    let (e, j) = slice_bytes-Frame x f (λ q. omega (arith, h q)) i.0 in
    let (es, js) = slices_string-Frame xs f (λ q. omega (arith, h q)) i.1 in
    (ap₂ ◌++◌ e es, (j, js))

pub retain-SameData : (p : ℕ) (s : Store) (q : ℕ) → SameData ((retain p s).block q) (s.block q)
unfolding retain modify increment
retain-SameData p s q = ground arith
