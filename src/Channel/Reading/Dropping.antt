-- ===== src/Channel/Reading/Dropping.antt =====
-- src/buffer.cpp and src/backend_channel.cpp: a reply that nobody takes gives its references back.
use redis_proxy.Base.{
  ℕ, ◌+◌, ◌≤◌, ◌≡◌, refl, sym, ap, subst, All, inl, inr, List, [], ◌∷◌, length, arith, ◌∙◌,
}
use redis_proxy.Buffer.Store.{Store}
use redis_proxy.Buffer.Health.{Healthy, Healthy-ext, count}
use redis_proxy.Buffer.Chain.{Chain, Slice, reset, release_if, to_string_for_test}
use redis_proxy.Buffer.IoBuffer.{IoBuffer, gather}
use redis_proxy.Buffer.IoBuffer.Valid.{
  SameData-refl, SameData-trans, gather-SameData, Valid, Valid-ext, Frame, Frame-SameData,
}
use redis_proxy.Buffer.IoBuffer.Making.{Released}
use redis_proxy.Buffer.IoBuffer.References.{held, Inside}
use redis_proxy.Buffer.Sharing.{release_if-Released}
use redis_proxy.Channel.{Notice}
use redis_proxy.Channel.Reading.{discard, hand_over}
use redis_proxy.Channel.Reading.Giving.{
  taken, Shown, Failing, Carries, taken-Failing, Shown-Failing,
}

discard-Released :
    {other : ℕ → ℕ} (xs : List Slice) (s : Store)
    → Healthy s (λ q. held q xs + other q)
    → Released other s (discard xs s)
unfolding discard reset
discard-Released [] s v = record {
  healthy = Healthy-ext _ v (λ q. omega arith);
  same = λ q k. SameData-refl (s.block q);
}
discard-Released {other} (x ∷ xs) s v =
    let first =
      release_if-Released {other = λ q. held q xs + other q} x.block s
        (Healthy-ext _ v (λ q. omega arith)) in
    let r = discard-Released {other = other} xs (release_if x.block s) first.healthy in
    record {
      healthy = r.healthy;
      same = λ q k. SameData-trans (r.same q k) (first.same q (omega (arith, k)));
    }

-- A buffer after the reply is moved to its owner or destroyed: others hold what they held, and the owner
-- the references of the reply, which shows its bytes.
pub record Handed (r : Chain) (ns : List Notice) (other : ℕ → ℕ) (b : IoBuffer) (s t : Store)
    : Type 0 where
  pub little : (q : ℕ) → taken q ns ≤ held q r.slices
  pub valid : Valid t (λ q. taken q ns + other q) b
  pub bytes : gather t b.blocks ≡ gather s b.blocks
  pub shown : Shown t (to_string_for_test s r) ns
  pub frame : Frame s t (λ q. 1) other

discard-Handed :
    {other : ℕ → ℕ} (ns : List Notice) (r : Chain) (b : IoBuffer) (s : Store)
    → Failing ns
    → Valid s (λ q. held q r.slices + other q) b
    → Handed r ns other b s (discard r.slices s)
discard-Handed {other} ns r b s failing v =
    let x =
      discard-Released {other = λ q. count q b.blocks + other q} r.slices s
        (Healthy-ext _ v.healthy (λ q. omega arith)) in
    let same : gather (discard r.slices s) b.blocks ≡ gather s b.blocks =
      gather-SameData s (discard r.slices s) b.blocks (λ q k. x.same q (omega (arith, k))) in
    record {
      little = λ q. omega (arith, taken-Failing q ns failing);
      valid = record {
        healthy = Healthy-ext _ x.healthy (λ q. omega (arith, taken-Failing q ns failing));
        alone = v.alone;
        counted = v.counted ∙ ap length (sym same);
        cache = elim v.cache [ inl e ↦ inl e | inr e ↦ inr (e ∙ sym same) ];
      };
      bytes = same;
      shown = Shown-Failing _ _ ns failing;
      frame = Frame-SameData (λ q k. x.same q (omega (arith, k)));
    }

given-Handed :
    {other : ℕ → ℕ} (o : ℕ) (r : Chain) (b : IoBuffer) (s : Store)
    → All (Inside s) r.slices
    → Valid s (λ q. held q r.slices + other q) b
    → Handed r (Notice.reply o r ∷ []) other b s s
given-Handed o r b s inside v = record {
  little = λ q. omega arith;
  valid = Valid-ext _ v (λ q. omega arith);
  bytes = refl;
  shown = (refl, inside, tt);
  frame = Frame-SameData (λ q k. SameData-refl (s.block q));
}

pub hand_over-Handed :
    {other : ℕ → ℕ} (ns : List Notice) (r : Chain) (b : IoBuffer) (s : Store)
    → Carries r ns
    → All (Inside s) r.slices
    → Valid s (λ q. held q r.slices + other q) b
    → Handed r ns other b s (hand_over ns r s)
unfolding hand_over
hand_over-Handed {other} ns r b s (Carries.given o e) inside v =
    subst (λ ms. Handed r ms other b s (hand_over ms r s)) (sym e) (given-Handed o r b s inside v)
hand_over-Handed [] r b s (Carries.dropped f) inside v = discard-Handed [] r b s f v
hand_over-Handed (Notice.failure o status ∷ ns) r b s (Carries.dropped f) inside v =
    discard-Handed (Notice.failure o status ∷ ns) r b s f v
hand_over-Handed (Notice.reply o c ∷ ns) r b s (Carries.dropped f) inside v = absurd f
