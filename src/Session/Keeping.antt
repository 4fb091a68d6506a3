-- ===== src/Session/Keeping.antt =====
-- src/client_session.cpp: everything that a session or a channel does keeps channels and sessions in
-- agreement.
use redis_proxy.Base.{
  ℕ, ◌-◌, ◌<◌, ◌≡◌, refl, sym, ap, subst, ◌∙◌, ◌⊎◌, inl, inr, Bool, true, false, List, [], ◌∷◌,
  Option, none, some, arith, ◌==◌, not, ◌&&◌, ◌||◌, if◌then◌else◌, Bool-cases, ==_refl,
}
use redis_proxy.Status.{Status, is_ok}
use redis_proxy.Buffer.Chain.{Chain}
use redis_proxy.Channel.{Channel, start, is_stopped}
use redis_proxy.Pool.{Channels, detach_owner}
use redis_proxy.Channel.Connection.{connected, reader_finished, next_round}
use redis_proxy.Session.{Session, State, World, drain, is_open, is_aborted, finish_loop}
use redis_proxy.Session.Loops.{
  is_draining, is_nil, is_closed, Round, take_output, writer_idle, writer_open, writer_round,
  after_round, answer_rejected, on_session, read_done, write_done,
}
use redis_proxy.Session.Debt.{debt-detach_owner, debt}
use redis_proxy.Session.Claims.{Fair-detach_other, detached-ChannelsValid, detached_at, Fair, claim}
use redis_proxy.Session.Delivery.{WorldIsValid, abort-IsValid}

-- A session that waits for the same replies of the same channel, and has not newly aborted.
abbrev pub Keeps : Session → Session → Type 0
Keeps s t =
    (t.current_backend ≡ s.current_backend)
    × (t.pending_replies ≡ s.pending_replies)
    × (t.state ≡ State.aborted → s.state ≡ State.aborted)

pub Fair-Keeps : (cs : Channels) (o : ℕ) (s t : Session) → Keeps s t → Fair cs o s → Fair cs o t
Fair-Keeps cs o s t (cur, n, st) f = record {
  owed = λ k c e.
      f.owed k c e
      ∙ (ap (λ x. claim x s.pending_replies k) (sym cur)
          ∙ ap (λ x. claim t.current_backend x k) (sym n));
  idle = λ h. n ∙ f.idle (sym cur ∙ h);
  busy = λ i h z. f.busy i (sym cur ∙ h) (sym n ∙ z);
  gone = λ h. cur ∙ f.gone (st h);
  fits = omega (arith, n, f.fits);
}

pub on_session-IsValid :
    (o : ℕ) (f : Session → Session) (w : World)
    → Keeps (w.sessions o) (f (w.sessions o))
    → WorldIsValid w
    → WorldIsValid (on_session o f w)
on_session-IsValid o f w keeps v = record {
  channels_valid = v.channels_valid;
  agrees = λ p. elim (Bool-cases (o == p)) [
    | inl e ↦
        let op : o ≡ p = ground (arith, e) in
        rw e (
          subst (λ q. Fair w.channels q (f (w.sessions o))) op
            (Fair-Keeps w.channels o (w.sessions o) (f (w.sessions o)) keeps (v.agrees o)))
    | inr e ↦ rw e (v.agrees p)
  ];
}

pub drain-Keeps : (error : List ℕ) (s : Session) → Keeps s (drain error s)
unfolding drain
drain-Keeps error s = elim (Bool-cases (is_open s.state)) [
  | inl e ↦ rw e (refl, refl, λ h. absurd (cc h))
  | inr e ↦ rw e (refl, refl, λ h. h)
]

pub answer_rejected-Keeps : (encoded : Chain) (s : Session) → Keeps s (answer_rejected encoded s)
unfolding answer_rejected
answer_rejected-Keeps encoded s = elim (Bool-cases (is_open s.state)) [
  | inl e ↦ rw e (refl, refl, λ h. h)
  | inr e ↦ rw e (refl, refl, λ h. h)
]

take_output-Keeps : (out : List Chain) (s : Session) → Keeps s (after_round s (take_output out s))
unfolding take_output
take_output-Keeps [] s = (refl, refl, λ h. h)
take_output-Keeps (c ∷ out) s = (refl, refl, λ h. h)

if-Keeps :
    (b : Bool) (s : Session) (x y : Round)
    → Keeps s (after_round s x)
    → Keeps s (after_round s y)
    → Keeps s (after_round s (if b then x else y))
if-Keeps true s x y h k = h
if-Keeps false s x y h k = k

writer_open-Keeps :
    (encoded : Chain) (out : List Chain) (s : Session)
    → Keeps s (after_round s (writer_open encoded out s))
unfolding writer_open writer_idle take_output
writer_open-Keeps encoded [] s =
    if-Keeps (is_draining s.state && s.pending_replies == 0) s _ _
      (if-Keeps (is_nil s.final_error) s _ _ (refl, refl, λ h. h) (refl, refl, λ h. h))
      (refl, refl, λ h. h)
writer_open-Keeps encoded (c ∷ out) s = (refl, refl, λ h. h)

pub writer_round-Keeps :
    (encoded : Chain) (s : Session) → Keeps s (after_round s (writer_round encoded s))
unfolding writer_round
writer_round-Keeps encoded s =
    if-Keeps (is_aborted s.state) s _ _ (refl, refl, λ h. h)
      (writer_open-Keeps encoded s.client_out s)

pub read_done-IsValid :
    (o : ℕ) (status : Status) (error : List ℕ) (w : World)
    → WorldIsValid w
    → WorldIsValid (read_done o status error w)
unfolding read_done
read_done-IsValid o status error w v =
    if-WorldIsValid (not (is_open (w.sessions o).state) || is_ok status) w _ v (
      if-WorldIsValid (is_closed status.code) _ _
        (on_session-IsValid o (drain error) w (drain-Keeps error (w.sessions o)) v)
        (abort-IsValid o w v))
  where
    if-WorldIsValid :
        (b : Bool) (x y : World)
        → WorldIsValid x
        → WorldIsValid y
        → WorldIsValid (if b then x else y)
    if-WorldIsValid true x y h k = h
    if-WorldIsValid false x y h k = k

pub write_done-IsValid :
    (o : ℕ) (status : Status) (w : World) → WorldIsValid w → WorldIsValid (write_done o status w)
unfolding write_done
write_done-IsValid o status w v = elim (Bool-cases (is_ok status)) [
  | inl e ↦ rw e v
  | inr e ↦ rw e (abort-IsValid o w v)
]

-- When the writer of a session has ended: nothing more is owed to it.
abbrev pub Ended : Session → Type 0
Ended s = (s.state ≡ State.aborted) ⊎ ((s.state ≡ State.draining) × (s.pending_replies ≡ 0))

idle_claim :
    (cs : Channels) (o : ℕ) (s : Session)
    → Ended s
    → Fair cs o s
    → (s.current_backend ≡ none) × (s.pending_replies ≡ 0)
idle_claim cs o s (inl st) f = (f.gone st, f.idle (f.gone st))
idle_claim cs o s (inr (st, z)) f = (no_channel s.current_backend refl, z)
  where
    no_channel : (cur : Option ℕ) → s.current_backend ≡ cur → s.current_backend ≡ none
    no_channel none e = e
    no_channel (some i) e = absurd (f.busy i e z)

finish-own :
    (o : ℕ) (cs : Channels) (s t : Session)
    → Ended s
    → Keeps s t
    → Fair cs o s
    → Fair (detach_owner o cs) o t
finish-own o cs s t ended keeps f = Fair-Keeps (detach_owner o cs) o s t keeps (record {
  owed = λ k c' e.
      let (c, ec, ed) = detached_at o cs k c' e in
      ap (debt o) ed
      ∙ debt-detach_owner o o c
      ∙ rw (==_refl o) (sym (ap (λ x. claim x s.pending_replies k) (idle_claim cs o s ended f).0));
  idle = f.idle;
  busy = f.busy;
  gone = f.gone;
  fits = f.fits;
})

abbrev finished_session : Session → Session
finished_session s = record s { active_loops = s.active_loops - 1; closed = true; finished = true }

pub finish_loop-IsValid :
    (o : ℕ) (w : World)
    → 0 < (w.sessions o).active_loops
    → ((w.sessions o).active_loops ≡ 1 → Ended (w.sessions o))
    → WorldIsValid w
    → WorldIsValid (finish_loop o w)
unfolding finish_loop
finish_loop-IsValid o w running ended v =
    elim (Bool-cases (not ((w.sessions o).active_loops - 1 == 0))) [
      | inl e ↦ rw e (
          on_session-IsValid o (λ s. record s { active_loops = s.active_loops - 1 }) w
            (refl, refl, λ h. h) v)
      | inr e ↦
          let at_end = ended (ground (arith, e, running)) in
          rw e (record {
            channels_valid = detached-ChannelsValid o w.channels v.channels_valid;
            agrees = λ p. elim (Bool-cases (o == p)) [
              | inl h ↦
                  let op : o ≡ p = ground (arith, h) in
                  rw h (
                    subst
                      (λ q. Fair (detach_owner o w.channels) q (finished_session (w.sessions o))) op
                      (finish-own o w.channels (w.sessions o) (finished_session (w.sessions o))
                        at_end (refl, refl, λ h. h) (v.agrees o)))
              | inr h ↦ rw h (Fair-detach_other p o w.channels (w.sessions p) h (v.agrees p))
            ];
          })
    ]

pub debt-start : (o : ℕ) (c : Channel) → debt o (start c) ≡ debt o c
unfolding start
debt-start o c = elim (Bool-cases (is_stopped c)) [ inl e ↦ rw e refl | inr e ↦ rw e refl ]

pub debt-connected : (o : ℕ) (s : Status) (c : Channel) → debt o (connected s c) ≡ debt o c
unfolding connected
debt-connected o s c = elim (Bool-cases (is_ok s && not c.stop_requested)) [
  | inl e ↦ rw e refl
  | inr e ↦ rw e refl
]

pub debt-reader_finished : (o : ℕ) (c : Channel) → debt o (reader_finished c) ≡ debt o c
unfolding reader_finished
debt-reader_finished o c = refl

pub debt-next_round : (o : ℕ) (c : Channel) → debt o (next_round c) ≡ debt o c
unfolding next_round
debt-next_round o c = elim (Bool-cases c.stop_requested) [ inl e ↦ rw e refl | inr e ↦ rw e refl ]
