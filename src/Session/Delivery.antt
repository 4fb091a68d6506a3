-- ===== src/Session/Delivery.antt =====
-- src/client_session.cpp: the callbacks of the channels, `abort` and `submitBatch` keep channels and
-- sessions in agreement.
use redis_proxy.Base.{
  ℕ, ◌≡◌, refl, sym, ap, subst, ◌∙◌, inl, inr, true, false, List, [], ◌∷◌, arith, ◌==◌, Bool-cases,
  ==_refl,
}
use redis_proxy.Status.{Status}
use redis_proxy.Channel.{failures}
use redis_proxy.Channel.Owners.{times}
use redis_proxy.Session.{State, World, abort, is_aborted, deliver, deliver_all}
use redis_proxy.Session.Claims.{
  Fair, ChannelsValid, detached-ChannelsValid, Fair-detach_other, aborted_session-Fair,
}

-- A session and the channels of its worker agree.
abbrev pub Agrees : ℕ → World → Type 0
Agrees o w = Fair w.channels o (w.sessions o)

-- Enough for `abort` to make them agree: a session that has aborted is already owed nothing.
abbrev pub Weak : ℕ → World → Type 0
Weak o w = (w.sessions o).state ≡ State.aborted → Agrees o w

is_aborted-true : (st : State) → is_aborted st ≡ true → st ≡ State.aborted
is_aborted-true State.opened e = absurd (cc e)
is_aborted-true State.draining e = absurd (cc e)
is_aborted-true State.aborted e = refl

pub abort-ChannelsValid :
    (p : ℕ) (w : World) → ChannelsValid w.channels → ChannelsValid (abort p w).channels
unfolding abort
abort-ChannelsValid p w vs = elim (Bool-cases (is_aborted (w.sessions p).state)) [
  | inl e ↦ rw e vs
  | inr e ↦ rw e (detached-ChannelsValid p w.channels vs)
]

-- `abort` makes the session agree with the channels.
pub abort-own : (o : ℕ) (w : World) → Weak o w → Agrees o (abort o w)
unfolding abort
abort-own o w h = elim (Bool-cases (is_aborted (w.sessions o).state)) [
  | inl e ↦ rw e (h (is_aborted-true _ e))
  | inr e ↦ rw (e, ==_refl o) (aborted_session-Fair o w.channels (w.sessions o))
]

-- It leaves the other sessions alone.
pub abort-session_other :
    (o p : ℕ) (w : World) → (p == o) ≡ false → (abort p w).sessions o ≡ w.sessions o
unfolding abort
abort-session_other o p w ne = elim (Bool-cases (is_aborted (w.sessions p).state)) [
  | inl e ↦ rw e refl
  | inr e ↦ rw (e, ne) refl
]

pub abort-other : (o p : ℕ) (w : World) → (p == o) ≡ false → Agrees o w → Agrees o (abort p w)
unfolding abort
abort-other o p w ne f = elim (Bool-cases (is_aborted (w.sessions p).state)) [
  | inl e ↦ rw e f
  | inr e ↦ rw (e, ne) (Fair-detach_other o p w.channels (w.sessions o) ne f)
]

abort-other-Weak : (o p : ℕ) (w : World) → (p == o) ≡ false → Weak o w → Weak o (abort p w)
abort-other-Weak o p w ne h st =
    abort-other o p w ne (h (ap (λ s. s.state) (sym (abort-session_other o p w ne)) ∙ st))

-- The owners of a lost connection are all told; each is made to agree, and the rest stay so.
pub failures-Agrees :
    (o : ℕ) (status : Status) (os : List ℕ) (w : World)
    → Weak o w
    → (times o os ≡ 0 → Agrees o w)
    → Agrees o (deliver_all (failures status os) w)
unfolding deliver_all failures deliver times
failures-Agrees o status [] w h k = k refl
failures-Agrees o status (p ∷ os) w h k = elim (Bool-cases (p == o)) [
  | inl e ↦
      let po : p ≡ o = ground (arith, e) in
      let f = subst (λ q. Agrees o (abort q w)) (sym po) (abort-own o w h) in
      failures-Agrees o status os (abort p w) (λ _. f) (λ _. f)
  | inr e ↦
      failures-Agrees o status os (abort p w) (abort-other-Weak o p w e h)
        (λ z. abort-other o p w e (k (rw e (omega (arith, z)))))
]

pub failures-ChannelsValid :
    (status : Status) (os : List ℕ) (w : World)
    → ChannelsValid w.channels
    → ChannelsValid (deliver_all (failures status os) w).channels
unfolding deliver_all failures deliver
failures-ChannelsValid status [] w vs = vs
failures-ChannelsValid status (p ∷ os) w vs =
    failures-ChannelsValid status os (abort p w) (abort-ChannelsValid p w vs)

-- What holds between two suspension points.
pub record WorldIsValid (w : World) : Type 0 where
  pub channels_valid : ChannelsValid w.channels
  pub agrees : (o : ℕ) → Agrees o w

pub abort-IsValid : (p : ℕ) (w : World) → WorldIsValid w → WorldIsValid (abort p w)
abort-IsValid p w v = record {
  channels_valid = abort-ChannelsValid p w v.channels_valid;
  agrees = λ o. elim (Bool-cases (p == o)) [
    | inl e ↦
        let po : p ≡ o = ground (arith, e) in
        subst (λ q. Agrees o (abort q w)) (sym po) (abort-own o w (λ _. v.agrees o))
    | inr e ↦ abort-other o p w e (v.agrees o)
  ];
}
