-- ===== src/Buffer/IoBuffer/Cutting.antt =====
-- src/buffer.cpp, the loop of `IoBuffer::slicePrefix`.
use native.Mathlib.Decide.{dec_le}
use redis_proxy.Base.{
  ℕ, ◌+◌, ◌-◌, ◌≤◌, ◌<◌, ◌^◌, ◌≡◌, refl, sym, ap, ap₂, ◌∙◌, List, [], ◌∷◌, ◌++◌, some, arith, min,
  length, take, drop, length-append, length-take, append-nil, append_assoc, take-append_le,
  take-append_ge, take-take_le, take-nil, All,
}
use redis_proxy.Buffer.Block.{window, size, Fits, length-window}
use redis_proxy.Buffer.Store.{Store, retain}
use redis_proxy.Buffer.Health.{Healthy, one, count, Healthy-ext, retain-Healthy}
use redis_proxy.Buffer.Chain.{Slice, Chain, append, slice_bytes, slices_string}
use redis_proxy.Buffer.IoBuffer.{gather, slice_blocks}
use redis_proxy.Buffer.IoBuffer.Valid.{
  SameData, SameData-refl, SameData-trans, range-SameData, gather-SameData,
}
use redis_proxy.Buffer.IoBuffer.References.{held, Inside, retain-SameData}

-- What the loop of `slicePrefix` adds to the chain `c`.
pub record Sliced (n : ℕ) (ps : List ℕ) (ref : ℕ → ℕ) (c : Chain) (s : Store) (r : Store × Chain)
    : Type 0 where
  pub slices : List Slice
  pub chain : r.1.slices ≡ c.slices ++ slices
  pub total : r.1.total ≡ c.total + length (take n (gather s ps))
  pub healthy : Healthy r.0 (λ q. ref q + held q slices)
  pub same : (q : ℕ) → SameData (r.0.block q) (s.block q)
  pub text : slices_string r.0 slices ≡ take n (gather s ps)
  pub inside : All (Inside r.0) slices
  pub light : (q : ℕ) → held q slices ≤ count q ps

abbrev pub slice_at : ℕ → ℕ → Store → Slice
slice_at p n s = record { block = some p; offset = (s.block p).begin; length = n }

slice_blocks-last :
    (n p : ℕ) (ps : List ℕ) (c : Chain) (s : Store)
    → n ≤ size (s.block p)
    → slice_blocks n (p ∷ ps) c s ≡ (retain p s, append c (slice_at p n s))
unfolding slice_blocks
slice_blocks-last n p ps c s h =
    let m : min n (size (s.block p)) ≡ n = omega arith in rw m (ground arith)

slice_blocks-more :
    (n p : ℕ) (ps : List ℕ) (c : Chain) (s : Store)
    → size (s.block p) < n
    → slice_blocks n (p ∷ ps) c s
      ≡ slice_blocks
          (n - size (s.block p))
          ps
          (append c (slice_at p (size (s.block p)) s))
          (retain p s)
unfolding slice_blocks
slice_blocks-more n p ps c s h =
    let m : min n (size (s.block p)) ≡ size (s.block p) = omega arith in rw m (ground arith)

module _ (p : ℕ) (ps : List ℕ) (ref : ℕ → ℕ) (c : Chain) (s : Store) (v : Healthy s ref)
    (h : (q : ℕ) → count q (p ∷ ps) ≤ ref q)
    (few : (q : ℕ) → ref q + count q (p ∷ ps) < 2 ^ 32) where
  retained-Healthy : Healthy (retain p s) (λ q. ref q + one p q)
  retained-Healthy = retain-Healthy v p (ground (arith, h p)) (ground (arith, few p)) (λ q. refl)

  pub tip-Fits : Fits s.block_size (s.block p)
  tip-Fits = v.fits p (v.held p (ground (arith, h p)))

  slice_at-text :
      (k : ℕ)
      → k ≤ size (s.block p)
      → slice_bytes (retain p s) (slice_at p k s) ≡ take k (window (s.block p))
  unfolding slice_bytes
  slice_at-text k l =
      range-SameData (s.block p).begin k (retain-SameData p s p)
      ∙ sym (take-take_le k (size (s.block p)) (drop (s.block p).begin (s.block p).bytes) l)

  slice_at-Inside : (k : ℕ) → k ≤ size (s.block p) → Inside (retain p s) (slice_at p k s)
  slice_at-Inside k l = omega (arith, (retain-SameData p s p).end, tip-Fits.ordered)

  text_width : length (window (s.block p)) ≡ size (s.block p)
  text_width = length-window tip-Fits

  last_slice-Sliced :
      (n : ℕ)
      → n ≤ size (s.block p)
      → Sliced n (p ∷ ps) ref c s (retain p s, append c (slice_at p n s))
  unfolding gather slices_string append
  last_slice-Sliced n small = record {
    slices = slice_at p n s ∷ [];
    chain = refl;
    total = omega (arith, ap length shown, length-take n (window (s.block p)), text_width);
    healthy = Healthy-ext _ retained-Healthy (λ q. omega arith);
    same = retain-SameData p s;
    text = append-nil _ ∙ (slice_at-text n small ∙ sym shown);
    inside = (slice_at-Inside n small, tt);
    light = λ q. omega arith;
  }
    where
      shown : take n (window (s.block p) ++ gather s ps) ≡ take n (window (s.block p))
      shown = take-append_le n (window (s.block p)) (gather s ps) (omega (arith, text_width))

  more_slices-Sliced :
      (n : ℕ) (r : Store × Chain)
      → size (s.block p) < n
      → Sliced
          (n - size (s.block p))
          ps
          (λ q. ref q + one p q)
          (append c (slice_at p (size (s.block p)) s))
          (retain p s)
          r
      → Sliced n (p ∷ ps) ref c s r
  unfolding gather slices_string append
  more_slices-Sliced n r large d = record {
    slices = slice_at p (size (s.block p)) s ∷ d.slices;
    chain = d.chain ∙ append_assoc c.slices (slice_at p (size (s.block p)) s ∷ []) d.slices;
    total = omega (
      arith,
      d.total,
      ap length shown,
      length-append (window (s.block p)) (take (n - size (s.block p)) (gather s ps)),
      text_width,
      ap (λ ys. length (take (n - size (s.block p)) ys)) rest_same,
    );
    healthy = Healthy-ext _ d.healthy (λ q. omega arith);
    same = λ q. SameData-trans (d.same q) (retain-SameData p s q);
    text =
        ap₂ ◌++◌
          (range-SameData (s.block p).begin (size (s.block p))
            (SameData-trans (d.same p) (retain-SameData p s p)))
          (d.text ∙ ap (take (n - size (s.block p))) rest_same)
        ∙ sym shown;
    inside =
        (omega (arith, (d.same p).end, (retain-SameData p s p).end, tip-Fits.ordered), d.inside);
    light = λ q. omega (arith, d.light q);
  }
    where
      shown :
          take n (window (s.block p) ++ gather s ps)
          ≡ window (s.block p) ++ take (n - size (s.block p)) (gather s ps)
      shown =
          take-append_ge n (window (s.block p)) (gather s ps) (omega (arith, text_width))
          ∙ ap (λ k. window (s.block p) ++ take (n - k) (gather s ps)) text_width

      rest_same : gather (retain p s) ps ≡ gather s ps
      rest_same = gather-SameData s (retain p s) ps (λ q _. retain-SameData p s q)

pub slice_blocks-Sliced :
    (n : ℕ) (ps : List ℕ) (ref : ℕ → ℕ) (c : Chain) (s : Store)
    → Healthy s ref
    → ((q : ℕ) → count q ps ≤ ref q)
    → ((q : ℕ) → ref q + count q ps < 2 ^ 32)
    → Sliced n ps ref c s (slice_blocks n ps c s)
unfolding slice_blocks gather slices_string
slice_blocks-Sliced n [] ref c s v h few = record {
  slices = [];
  chain = sym (append-nil c.slices);
  total = omega (arith, ap length (take-nil {A = ℕ} n));
  healthy = Healthy-ext _ v (λ q. omega arith);
  same = λ q. SameData-refl (s.block q);
  text = sym (take-nil n);
  inside = tt;
  light = λ q. omega arith;
}
slice_blocks-Sliced n (p ∷ ps) ref c s v h few = elim (dec_le n (size (s.block p))) [
  | yes small ↦
      rw (slice_blocks-last n p ps c s small) (last_slice-Sliced p ps ref c s v h few n small)
  | no large ↦ rw (slice_blocks-more n p ps c s (omega arith)) (
      more_slices-Sliced p ps ref c s v h few n _ (omega arith) (
        slice_blocks-Sliced (n - size (s.block p)) ps (λ q. ref q + one p q) _ (retain p s)
          (retained-Healthy p ps ref c s v h few) (λ q. omega (arith, h q))
          (λ q. omega (arith, few q))))
]
