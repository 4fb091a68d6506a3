-- ===== src/Session/Fair.antt =====
-- src/client_session.cpp: `pending_replies_` and `current_backend_` against the queues of the channels.
use redis_proxy.Base.{
  ℕ, zero, suc, ◌+◌, ◌<◌, ◌^◌, ◌≡◌, refl, sym, ap, subst, ◌∙◌, ◌≢◌, ◌⊎◌, inl, inr, Bool, true,
  false, [], ◌∷◌, Option, none, some, arith, ◌==◌, if◌then◌else◌, get_elem?, set, Bool-cases, sub64,
  add64, ==_refl,
}
use redis_proxy.Buffer.Chain.{Chain}
use redis_proxy.Channel.{Channel}
use redis_proxy.Channel.Invariant.{IsValid}
use redis_proxy.Pool.{Channels}
use redis_proxy.Session.{Session, State, on_backend_reply, count_reply}
use redis_proxy.Session.Debt.{debt}
use redis_proxy.Session.Claims.{claim, FairOf, Fair, ChannelsValid}

-- An element of a list with one element replaced.
pub set_at :
    (cs : Channels) (i : ℕ) (c : Channel) (k : ℕ) (d : Channel)
    → get_elem? (set cs i c) k ≡ some d
    → (((i == k) ≡ true) × (c ≡ d)) ⊎ (((i == k) ≡ false) × (get_elem? cs k ≡ some d))
set_at [] i c k d e = absurd (cc e)
set_at (x ∷ cs) zero c zero d e = inl (refl, cc)
set_at (x ∷ cs) zero c (suc k) d e = inr (ground arith, e)
set_at (x ∷ cs) (suc i) c zero d e = inr (ground arith, e)
set_at (x ∷ cs) (suc i) c (suc k) d e = elim (set_at cs i c k d e) [
  | inl h ↦ inl (ground (arith, h.0), h.1)
  | inr h ↦ inr (ground (arith, h.0), h.1)
]

pub set-ChannelsValid :
    (i : ℕ) (c : Channel) (cs : Channels)
    → IsValid c
    → ChannelsValid cs
    → ChannelsValid (set cs i c)
set-ChannelsValid i c cs v vs k d e = elim (set_at cs i c k d e) [
  | inl h ↦ subst IsValid h.1 v
  | inr h ↦ vs k d h.1
]

claim_at : (cur : Option ℕ) (n i k : ℕ) → (i == k) ≡ true → claim cur n i ≡ claim cur n k
claim_at cur n i k e = let ik : i ≡ k = ground (arith, e) in ap (claim cur n) ik

-- A channel is replaced, and the session's claims change at that channel only.
set-owed :
    (o i : ℕ) (c : Channel) (cs : Channels) (s : Session) (cur : Option ℕ) (n : ℕ)
    → debt o c ≡ claim cur n i
    → ((k : ℕ) → (i == k) ≡ false → claim cur n k ≡ claim s.current_backend s.pending_replies k)
    → Fair cs o s
    → (k : ℕ) (d : Channel) → get_elem? (set cs i c) k ≡ some d
    → debt o d ≡ claim cur n k
set-owed o i c cs s cur n here elsewhere f k d e = elim (set_at cs i c k d e) [
  | inl h ↦ ap (debt o) (sym h.1) ∙ here ∙ claim_at cur n i k h.0
  | inr h ↦ f.owed k d h.1 ∙ sym (elsewhere k h.0)
]

-- Putting a channel that owes as much as before.
pub Fair-set :
    (o i : ℕ) (c c' : Channel) (cs : Channels) (s : Session)
    → get_elem? cs i ≡ some c
    → debt o c' ≡ debt o c
    → Fair cs o s
    → Fair (set cs i c') o s
Fair-set o i c c' cs s at e f = record {
  owed =
      set-owed o i c' cs s s.current_backend s.pending_replies (e ∙ f.owed i c at) (λ k _. refl) f;
  idle = f.idle;
  busy = f.busy;
  gone = f.gone;
  fits = f.fits;
}

claim-elsewhere :
    (cur : Option ℕ) (n i k : ℕ)
    → (cur ≡ none) ⊎ (cur ≡ some i)
    → (i == k) ≡ false
    → claim cur n k ≡ 0
claim-elsewhere none n i k h e = refl
claim-elsewhere (some j) n i k (inl h) e = absurd (cc h)
claim-elsewhere (some j) n i k (inr h) e = let ji : j ≡ i = cc h in rw ji (rw e refl)

pub claim-current : (cur : Option ℕ) (n i : ℕ) → cur ≡ some i → claim cur n i ≡ n
claim-current none n i h = absurd (cc h)
claim-current (some j) n i h = let ji : j ≡ i = cc h in rw ji (rw (==_refl i) refl)

pub claim-owing : (cur : Option ℕ) (n i : ℕ) → claim cur n i ≢ 0 → cur ≡ some i
claim-owing none n i h = absurd (h refl)
claim-owing (some j) n i h = elim (Bool-cases (j == i)) [
  | inl e ↦ ap (λ z. some z) (ground (arith, e))
  | inr e ↦ absurd (h (rw e refl))
]

-- A reply of the current channel, on whether it was the last one.
count-Fair :
    (b : Bool) (o i : ℕ) (c' : Channel) (cs : Channels) (s : Session)
    → (sub64 s.pending_replies 1 == 0) ≡ b
    → s.current_backend ≡ some i
    → s.pending_replies ≡ debt o c' + 1
    → Fair cs o s
    → FairOf
        (set cs i c')
        o
        (if b then none else s.current_backend)
        (sub64 s.pending_replies 1)
        s.state
count-Fair true o i c' cs s last cur pending f = record {
  owed =
      set-owed o i c' cs s none (sub64 s.pending_replies 1) (omega (arith, left, pending, f.fits))
        (λ k ne. sym (claim-elsewhere s.current_backend s.pending_replies i k (inr cur) ne)) f;
  idle = λ _. left;
  busy = λ j h. absurd (cc h);
  gone = λ _. refl;
  fits = omega (arith, left);
}
  where
    left : sub64 s.pending_replies 1 ≡ 0
    left = ground (arith, last)
count-Fair false o i c' cs s more cur pending f = record {
  owed =
      set-owed o i c' cs s s.current_backend (sub64 s.pending_replies 1)
        (omega (
          arith,
          claim-current s.current_backend (sub64 s.pending_replies 1) i cur,
          pending,
          f.fits,
        ))
        (λ k ne.
          claim-elsewhere s.current_backend (sub64 s.pending_replies 1) i k (inr cur) ne
          ∙ sym (claim-elsewhere s.current_backend s.pending_replies i k (inr cur) ne))
        f;
  idle = λ h. absurd (cc (cur, h));
  busy = λ j h. ground (arith, more);
  gone = f.gone;
  fits = omega arith;
}

pub on_backend_reply-Fair :
    (o i : ℕ) (r : Chain) (c c' : Channel) (cs : Channels) (s : Session)
    → get_elem? cs i ≡ some c
    → debt o c ≡ debt o c' + 1
    → Fair cs o s
    → Fair (set cs i c') o (on_backend_reply r s)
unfolding on_backend_reply count_reply
on_backend_reply-Fair o i r c c' cs s at e f = elim (Bool-cases (sub64 s.pending_replies 1 == 0)) [
  | inl last ↦ rw last (count-Fair true o i c' cs s last cur pending f)
  | inr more ↦ rw more (count-Fair false o i c' cs s more cur pending f)
]
  where
    owing : debt o c' + 1 ≡ claim s.current_backend s.pending_replies i
    owing = sym e ∙ f.owed i c at

    cur : s.current_backend ≡ some i
    cur = claim-owing s.current_backend s.pending_replies i (λ z. omega (arith, z, owing))

    pending : s.pending_replies ≡ debt o c' + 1
    pending = sym (owing ∙ claim-current s.current_backend s.pending_replies i cur)

pub submitted-Fair :
    (o i n : ℕ) (c c' : Channel) (cs : Channels) (s : Session)
    → get_elem? cs i ≡ some c
    → (s.current_backend ≡ none) ⊎ (s.current_backend ≡ some i)
    → debt o c' ≡ debt o c + n
    → 0 < n
    → s.pending_replies + n < 2 ^ 64
    → s.state ≢ State.aborted
    → Fair cs o s
    → Fair
        (set cs i c')
        o
        (record s { current_backend = some i; pending_replies = add64 s.pending_replies n })
submitted-Fair o i n c c' cs s at cur e pos fit live f = record {
  owed =
      set-owed o i c' cs s (some i) (add64 s.pending_replies n)
        (rw (==_refl i) (omega (arith, e, pending)))
        (λ k ne. rw ne (sym (claim-elsewhere s.current_backend s.pending_replies i k cur ne))) f;
  idle = λ h. absurd (cc h);
  busy = λ j h. omega (arith);
  gone = λ h. absurd (live h);
  fits = omega arith;
}
  where
    pending_of :
        (s.current_backend ≡ none) ⊎ (s.current_backend ≡ some i) → debt o c ≡ s.pending_replies
    pending_of (inl h) = f.owed i c at ∙ rw h (sym (f.idle h))
    pending_of (inr h) = f.owed i c at ∙ claim-current s.current_backend s.pending_replies i h

    pending : debt o c ≡ s.pending_replies
    pending = pending_of cur
