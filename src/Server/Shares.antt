-- ===== src/Server/Shares.antt =====
-- src/proxy_server.cpp, `acceptLoop`: sums and shares of numbered workers.
use native.Mathlib.Decide.{dec_lt, ℕ_discrete}
use redis_proxy.Base.{
  ℕ, zero, suc, ◌+◌, ◌≤◌, ◌<◌, ◌≡◌, ◌≢◌, refl, sym, ap, ◌∙◌, ◌⊎◌, inl, inr, arith,
}

-- The sum of a function over the first indices.
abbrev pub total : (ℕ → ℕ) → ℕ → ℕ
total f zero = 0
total f (suc n) = f n + total f n

total-same : (f g : ℕ → ℕ) (n : ℕ) → ((i : ℕ) → i < n → f i ≡ g i) → total f n ≡ total g n
total-same f g zero h = refl
total-same f g (suc n) h =
    omega (arith, h n (omega arith), total-same f g n (λ i k. h i (omega (arith, k))))

-- A function changed at one index.
pub total-one :
    (f g : ℕ → ℕ) (n k : ℕ)
    → k < n
    → ((i : ℕ) → k ≢ i → f i ≡ g i)
    → total f n + g k ≡ total g n + f k
total-one f g zero k h same = absurd (omega (arith, h))
total-one f g (suc n) k h same = elim (dec_lt k n) [
  | yes below ↦ omega (arith, total-one f g n k below same, same n (λ e. omega (arith, e, below)))
  | no last ↦
      let e : k ≡ n = omega (arith, last, h) in
      omega (arith, total-same f g n (λ i b. same i (λ z. omega (arith, z, b, e))), ap f e, ap g e)
]

-- The workers before the next one are a round ahead of the others.
pub record Even (n next : ℕ) (share : ℕ → ℕ) : Type 0 where
  pub rounds : ℕ
  pub ahead : (i : ℕ) → i < next → share i ≡ suc rounds
  pub behind : (i : ℕ) → next ≤ i → i < n → share i ≡ rounds

-- The next worker is the one after, or the first again.
abbrev pub Next : ℕ → ℕ → ℕ → Type 0
Next n k m = (m ≡ suc k) × (m < n) ⊎ (m ≡ 0) × (suc k ≡ n)

pub next-Even :
    (n k m : ℕ) (share share' : ℕ → ℕ)
    → k < n
    → Next n k m
    → share' k ≡ suc (share k)
    → ((i : ℕ) → k ≢ i → share' i ≡ share i)
    → Even n k share
    → Even n m share'
next-Even n k m share share' h (inl to) more same e = record {
  rounds = e.rounds;
  ahead = λ i b. elim (ℕ_discrete k i) [
    | yes z ↦ ap share' (sym z) ∙ omega (arith, more, e.behind k (omega arith) h)
    | no ne ↦ same i ne ∙ e.ahead i (omega (arith, b, to.0, ne))
  ];
  behind = λ i b l. same i (λ z. omega (arith, z, b, to.0)) ∙ e.behind i (omega (arith, b, to.0)) l;
}
next-Even n k m share share' h (inr to) more same e = record {
  rounds = suc e.rounds;
  ahead = λ i b. absurd (omega (arith, b, to.0));
  behind = λ i b l. elim (ℕ_discrete k i) [
    | yes z ↦ ap share' (sym z) ∙ omega (arith, more, e.behind k (omega arith) h)
    | no ne ↦ same i ne ∙ e.ahead i (omega (arith, l, to.1, ne))
  ];
}
