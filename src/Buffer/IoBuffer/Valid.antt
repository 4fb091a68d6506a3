-- ===== src/Buffer/IoBuffer/Valid.antt =====
-- src/buffer.cpp, `IoBuffer`: the invariant of a buffer in a store, and what an operation on one
-- buffer leaves to everybody else.
use redis_proxy.Base.{
  ℕ, ◌+◌, ◌≤◌, ◌<◌, ◌≡◌, ◌≢◌, refl, subst, fun_ext, sym, ap, ap₂, ◌∙◌, ◌⊎◌, List, [], ◌∷◌, ◌++◌,
  some, arith, append_assoc, length, drop, take, take-take_le,
}
use native.Mathlib.Nat.{le_trans}
use redis_proxy.Buffer.Block.{Block, window, range, decrement}
use redis_proxy.Buffer.Store.{Store, release, modify, recycle}
use redis_proxy.Buffer.Health.{Healthy, one, count}
use redis_proxy.Buffer.IoBuffer.{IoBuffer, back, gather}

pub record SameData (a b : Block) : Type 0 where
  pub bytes : a.bytes ≡ b.bytes
  pub begin : a.begin ≡ b.begin
  pub end : a.end ≡ b.end

pub SameData-refl : (a : Block) → SameData a a
SameData-refl a = record { bytes = refl; begin = refl; end = refl }

pub SameData-trans : {a b c : Block} → SameData a b → SameData b c → SameData a c
SameData-trans e f = record {
  bytes = e.bytes ∙ f.bytes;
  begin = e.begin ∙ f.begin;
  end = e.end ∙ f.end;
}

pub range-SameData : {a b : Block} (o n : ℕ) → SameData a b → range a o n ≡ range b o n
range-SameData o n e = ap (λ xs. take n (drop o xs)) e.bytes

pub window-SameData : {a b : Block} → SameData a b → window a ≡ window b
window-SameData e = ground (arith, e.bytes)

pub gather-append : (s : Store) (ps qs : List ℕ) → gather s (ps ++ qs) ≡ gather s ps ++ gather s qs
unfolding gather
gather-append s [] qs = refl
gather-append s (p ∷ ps) qs =
    ap (◌++◌ (window (s.block p))) (gather-append s ps qs)
    ∙ sym (append_assoc (window (s.block p)) (gather s ps) (gather s qs))

pub gather-SameData :
    (s t : Store) (ps : List ℕ)
    → ((q : ℕ) → 0 < count q ps → SameData (t.block q) (s.block q))
    → gather t ps ≡ gather s ps
unfolding gather
gather-SameData s t [] h = refl
gather-SameData s t (p ∷ ps) h =
    ap₂ ◌++◌ (window-SameData (h p (ground arith)))
      (gather-SameData s t ps (λ q k. h q (omega arith)))

pub count-append : (q : ℕ) (ps rs : List ℕ) → count q (ps ++ rs) ≡ count q ps + count q rs
count-append q [] rs = omega arith
count-append q (p ∷ ps) rs = omega (arith, count-append q ps rs)

pub back-append : (ps : List ℕ) (p : ℕ) → back (ps ++ p ∷ []) ≡ some p
unfolding back
back-append [] p = refl
back-append (q ∷ []) p = refl
back-append (q ∷ r ∷ ps) p = back-append (r ∷ ps) p

-- A deque is empty, or its last entry splits off.
pub data Split (ps : List ℕ) : Type 0 where
  nothing : ps ≡ [] → Split ps
  last : (front : List ℕ) (p : ℕ) → ps ≡ front ++ p ∷ [] → Split ps

pub split : (ps : List ℕ) → Split ps
split [] = nothing refl
split (p ∷ ps) = elim (split ps) [
  | nothing e ↦ last [] p (ap (◌∷◌ p) e)
  | last front q e ↦ last (p ∷ front) q (ap (◌∷◌ p) e)
]

-- `other q` is the number of references to block `q` that are not entries of the buffer's deque.
pub record Valid (s : Store) (other : ℕ → ℕ) (b : IoBuffer) : Type 0 where
  pub healthy : Healthy s (λ q. count q b.blocks + other q)
  pub alone : (q : ℕ) → count q b.blocks ≤ 1
  pub counted : b.readable_bytes ≡ length (gather s b.blocks)
  pub cache : (b.linearized ≡ []) ⊎ (drop b.linearized_offset b.linearized ≡ gather s b.blocks)

pub Valid-ext :
    {s : Store} {b : IoBuffer} {other : ℕ → ℕ} (other' : ℕ → ℕ)
    → Valid s other b
    → ((q : ℕ) → other' q ≡ other q)
    → Valid s other' b
Valid-ext {s} {b} other' v e = subst (λ f. Valid s f b) (fun_ext λ q. sym (e q)) v

-- A block that somebody else refers to keeps the bytes before its end, which slices read, and all of
-- its data if the buffer does not hold it.
pub record Frame (s t : Store) (mine other : ℕ → ℕ) : Type 0 where
  pub grows : (q : ℕ) → 0 < other q → (s.block q).end ≤ (t.block q).end
  pub written :
      (q : ℕ)
      → 0 < other q
      → take (s.block q).end (t.block q).bytes ≡ take (s.block q).end (s.block q).bytes
  pub apart : (q : ℕ) → 0 < other q → mine q ≡ 0 → SameData (t.block q) (s.block q)

pub Frame-SameData :
    {s t : Store} {mine other : ℕ → ℕ}
    → ((q : ℕ) → 0 < other q → SameData (t.block q) (s.block q))
    → Frame s t mine other
Frame-SameData {s} h = record {
  grows = λ q k. omega (arith, (h q k).end);
  written = λ q k. ap (take (s.block q).end) (h q k).bytes;
  apart = λ q k _. h q k;
}

-- What is known of blocks that somebody else refers to, whoever holds them.
pub any_Frame : {s t : Store} {mine other : ℕ → ℕ} → Frame s t mine other → Frame s t (λ q. 1) other
any_Frame f = record {
  grows = f.grows;
  written = f.written;
  apart = λ q k m. absurd (omega (arith, m));
}

-- A holder of fewer references is left as much.
pub Frame-fewer :
    {s t : Store} {mine other : ℕ → ℕ} (less : ℕ → ℕ)
    → Frame s t mine other
    → ((q : ℕ) → less q ≤ other q)
    → Frame s t mine less
Frame-fewer less f h = record {
  grows = λ q k. f.grows q (omega (arith, h q));
  written = λ q k. f.written q (omega (arith, h q));
  apart = λ q k m. f.apart q (omega (arith, h q)) m;
}

pub Frame-trans :
    {s t u : Store} {mine mine' other : ℕ → ℕ}
    → Frame s t mine other
    → Frame t u mine' other
    → ((q : ℕ) → 0 < other q → mine q ≡ 0 → mine' q ≡ 0)
    → Frame s u mine other
Frame-trans {s} {t} {u} f g h = record {
  grows = λ q k. le_trans (f.grows q k) (g.grows q k);
  written = λ q k.
      sym (take-take_le (s.block q).end (t.block q).end (u.block q).bytes (f.grows q k))
      ∙ (ap (take (s.block q).end) (g.written q k)
          ∙ (take-take_le (s.block q).end (t.block q).end (t.block q).bytes (f.grows q k)
              ∙ f.written q k));
  apart = λ q k m. SameData-trans (g.apart q k (h q k m)) (f.apart q k m);
}

pub release-SameData :
    {s : Store} {ref : ℕ → ℕ}
    → Healthy s ref
    → (ref' : ℕ → ℕ) (p q : ℕ) → ((r : ℕ) → ref r ≡ ref' r + one p r)
    → 0 < ref' q
    → SameData ((release p s).block q) (s.block q)
unfolding release modify decrement recycle
release-SameData v ref' p q e h = ground (arith, v.exact q, v.exact p, v.few p, e q, e p)

pub block-modify_self :
    (p : ℕ) (f : Block → Block) (s : Store) → (modify p f s).block p ≡ f (s.block p)
unfolding modify
block-modify_self p f s = ground arith

pub block-modify_ne :
    (p q : ℕ) (f : Block → Block) (s : Store) → p ≢ q → (modify p f s).block q ≡ s.block q
unfolding modify
block-modify_ne p q f s h = ground arith
