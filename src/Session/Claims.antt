-- ===== src/Session/Claims.antt =====
-- src/client_session.cpp: the replies that a session waits for, and those that the channels owe it.
use redis_proxy.Base.{
  ℕ, zero, suc, ◌<◌, ◌^◌, ◌≡◌, refl, sym, ap, subst, ◌∙◌, ◌≢◌, false, [], ◌∷◌, Option, none, some,
  arith, ◌==◌, if◌then◌else◌, get_elem?, ==_refl,
}
use redis_proxy.Channel.{Channel, step, detached, detach_owner as detach_channel}
use redis_proxy.Channel.Invariant.{IsValid, step-IsValid}
use redis_proxy.Pool.{Channels, detach_owner}
use redis_proxy.Session.{Session, State, aborted_session}
use redis_proxy.Session.Debt.{debt, debt-detach_owner}

-- The replies that a session waits for from the channel at `k`.
abbrev pub claim : Option ℕ → ℕ → ℕ → ℕ
claim none pending k = 0
claim (some i) pending k = if i == k then pending else 0

-- Channel and session agree: a session waits for the replies of its current channel only, for as many as
-- the channel owes; it has a current channel exactly when it waits for a reply; an aborted one has none.
pub record FairOf (cs : Channels) (o : ℕ) (cur : Option ℕ) (n : ℕ) (st : State) : Type 0 where
  pub owed : (k : ℕ) (c : Channel) → get_elem? cs k ≡ some c → debt o c ≡ claim cur n k
  pub idle : cur ≡ none → n ≡ 0
  pub busy : (i : ℕ) → cur ≡ some i → n ≢ 0
  pub gone : st ≡ State.aborted → cur ≡ none
  pub fits : n < 2 ^ 64

abbrev pub Fair : Channels → ℕ → Session → Type 0
Fair cs o s = FairOf cs o s.current_backend s.pending_replies s.state

abbrev pub ChannelsValid : Channels → Type 0
ChannelsValid cs = (k : ℕ) (c : Channel) → get_elem? cs k ≡ some c → IsValid c

-- A channel after a detachment is one before it.
pub detached_at :
    (p : ℕ) (cs : Channels) (k : ℕ) (c' : Channel)
    → get_elem? (detach_owner p cs) k ≡ some c'
    → (c : Channel) × (get_elem? cs k ≡ some c) × (c' ≡ detach_channel p c)
unfolding detach_owner
detached_at p [] k c' e = absurd (cc e)
detached_at p (c ∷ cs) zero c' e = (c, refl, cc)
detached_at p (c ∷ cs) (suc k) c' e = detached_at p cs k c' e

pub detached-ChannelsValid :
    (p : ℕ) (cs : Channels) → ChannelsValid cs → ChannelsValid (detach_owner p cs)
unfolding step
detached-ChannelsValid p cs vs k c' e =
    let (c, ec, ed) = detached_at p cs k c' e in
    subst IsValid (sym ed) (step-IsValid c (detached p) tt (vs k c ec))

-- Detaching another session changes nothing here.
pub Fair-detach_other :
    (o p : ℕ) (cs : Channels) (s : Session)
    → (p == o) ≡ false
    → Fair cs o s
    → Fair (detach_owner p cs) o s
Fair-detach_other o p cs s other f = record {
  owed = λ k c' e.
      let (c, ec, ed) = detached_at p cs k c' e in
      ap (debt o) ed ∙ debt-detach_owner o p c ∙ rw other (f.owed k c ec);
  idle = f.idle;
  busy = f.busy;
  gone = f.gone;
  fits = f.fits;
}

-- A session that has aborted: nobody owes it anything.
pub aborted_session-Fair :
    (o : ℕ) (cs : Channels) (s : Session) → Fair (detach_owner o cs) o (aborted_session s)
unfolding aborted_session
aborted_session-Fair o cs s = record {
  owed = λ k c' e.
      let (c, ec, ed) = detached_at o cs k c' e in
      ap (debt o) ed ∙ debt-detach_owner o o c ∙ rw (==_refl o) refl;
  idle = λ _. refl;
  busy = λ i e. absurd (cc e);
  gone = λ _. refl;
  fits = omega arith;
}
