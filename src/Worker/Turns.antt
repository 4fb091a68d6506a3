-- ===== src/Worker/Turns.antt =====
-- src/worker.cpp: steps in which no session ends, and what they do to the sessions.
use redis_proxy.Base.{
  ℕ, ◌<◌, ◌≡◌, refl, sym, ap, subst, ◌∙◌, ◌⊎◌, inl, inr, Bool, true, false, List, [], ◌∷◌, ◌++◌,
  arith, length, length-append,
}
use redis_proxy.Buffer.Health.{count}
use redis_proxy.Worker.{
  Worker, push_fd, notify_reaper, load_flag, swap_fds, start_next, drain_notifier, poll_again,
  reap_sessions, Step, Steps,
}
use redis_proxy.Worker.Retirement.{count-erase_all_le, erase_all_others, erase_all_listed}

abbrev pub ends_session : {w v : Worker} {xs : List ℕ} → Step w xs v → Bool
ends_session (Step.ends i mine first to) = true
ends_session _ = false

-- Steps that dispatch no descriptor and end no session.
pub data Turns : Worker → Worker → Type 0 where
  here : {w : Worker} → Turns w w
  turn : {u v w : Worker} → Turns u v → (x : Step v [] w) → ends_session x ≡ false → Turns u w

pub Turns-trans : {u v w : Worker} → Turns u v → Turns v w → Turns u w
Turns-trans r Turns.here = r
Turns-trans r (Turns.turn q x e) = Turns.turn (Turns-trans r q) x e

pub Turns-Steps : {u v : Worker} → Turns u v → Steps u [] v
Turns-Steps Turns.here = Steps.none_yet
Turns-Steps (Turns.turn q x e) = Steps.after (Turns-Steps q) x refl

-- A session that was started is reported as ended or erased.
pub record Leaving (i : ℕ) (w : Worker) : Type 0 where
  pub known : i < length w.started
  pub over : (0 < count i w.finished_sessions) ⊎ (count i w.sessions ≡ 0)

-- A session that was started is owned and has not ended.
pub record Running (i : ℕ) (w : Worker) : Type 0 where
  pub known : i < length w.started
  pub owned : count i w.sessions ≡ 1
  pub unfinished : count i w.finished_sessions ≡ 0

-- What a step does to the sessions, if none ends.
data Effect (w v : Worker) : Type 0 where
  keeps :
      v.started ≡ w.started
      → v.sessions ≡ w.sessions
      → v.finished_sessions ≡ w.finished_sessions
      → Effect w v
  begins :
      (fd : ℕ)
      → v.started ≡ w.started ++ fd ∷ []
      → v.sessions ≡ length w.started ∷ w.sessions
      → v.finished_sessions ≡ w.finished_sessions
      → Effect w v
  reaps : v ≡ reap_sessions w → Effect w v

start_next-Effect : (fs : List ℕ) (w : Worker) → Effect w (start_next fs w)
unfolding start_next
start_next-Effect [] w = Effect.keeps refl refl refl
start_next-Effect (fd ∷ rest) w = Effect.begins fd refl refl refl

Step-Effect : {w v : Worker} {xs : List ℕ} (x : Step w xs v) → ends_session x ≡ false → Effect w v
unfolding push_fd notify_reaper load_flag swap_fds drain_notifier poll_again
Step-Effect {w} (Step.dispatches fd to) h = subst (Effect w) (sym to) (Effect.keeps refl refl refl)
Step-Effect {w} (Step.notifies due to) h = subst (Effect w) (sym to) (Effect.keeps refl refl refl)
Step-Effect {w} (Step.loads at to) h = subst (Effect w) (sym to) (Effect.keeps refl refl refl)
Step-Effect {w} (Step.swaps at to) h = subst (Effect w) (sym to) (Effect.keeps refl refl refl)
Step-Effect {w} (Step.begins at to) h = subst (Effect w) (sym to) (start_next-Effect w.fds w)
Step-Effect {w} (Step.reaps at to) h = Effect.reaps to
Step-Effect {w} (Step.wakes at up to) h = subst (Effect w) (sym to) (Effect.keeps refl refl refl)
Step-Effect {w} (Step.interrupted at to) h = subst (Effect w) (sym to) (Effect.keeps refl refl refl)
Step-Effect (Step.ends i mine first to) h = absurd (cc h)

reap_sessions-Leaving : (i : ℕ) (w : Worker) → Leaving i w → Leaving i (reap_sessions w)
unfolding reap_sessions
reap_sessions-Leaving i w l = record {
  known = l.known;
  over = elim l.over [
    | inl listed ↦ inr (erase_all_listed i w.finished_sessions w.sessions listed)
    | inr gone ↦ inr (omega (arith, gone, count-erase_all_le i w.finished_sessions w.sessions))
  ];
}

reap_sessions-Running : (i : ℕ) (w : Worker) → Running i w → Running i (reap_sessions w)
unfolding reap_sessions
reap_sessions-Running i w r = record {
  known = r.known;
  owned = erase_all_others i w.finished_sessions w.sessions r.unfinished ∙ r.owned;
  unfinished = refl;
}

Effect-Leaving : (i : ℕ) (w v : Worker) → Effect w v → Leaving i w → Leaving i v
Effect-Leaving i w v (Effect.keeps e f g) l = record {
  known = omega (arith, l.known, ap length e);
  over = elim l.over [
    | inl listed ↦ inl (omega (arith, listed, ap (count i) g))
    | inr gone ↦ inr (ap (count i) f ∙ gone)
  ];
}
Effect-Leaving i w v (Effect.begins fd e f g) l = record {
  known = omega (arith, l.known, ap length e, length-append w.started (fd ∷ []));
  over = elim l.over [
    | inl listed ↦ inl (omega (arith, listed, ap (count i) g))
    | inr gone ↦ inr (ground (arith, ap (count i) f, gone, l.known))
  ];
}
Effect-Leaving i w v (Effect.reaps e) l = subst (Leaving i) (sym e) (reap_sessions-Leaving i w l)

Effect-Running : (i : ℕ) (w v : Worker) → Effect w v → Running i w → Running i v
Effect-Running i w v (Effect.keeps e f g) r = record {
  known = omega (arith, r.known, ap length e);
  owned = ap (count i) f ∙ r.owned;
  unfinished = ap (count i) g ∙ r.unfinished;
}
Effect-Running i w v (Effect.begins fd e f g) r = record {
  known = omega (arith, r.known, ap length e, length-append w.started (fd ∷ []));
  owned = ground (arith, ap (count i) f, r.owned, r.known);
  unfinished = ap (count i) g ∙ r.unfinished;
}
Effect-Running i w v (Effect.reaps e) r = subst (Running i) (sym e) (reap_sessions-Running i w r)

pub Turns-Leaving : (i : ℕ) (w v : Worker) → Turns w v → Leaving i w → Leaving i v
Turns-Leaving i w v Turns.here l = l
Turns-Leaving i w v (Turns.turn {v = m} q x e) l =
    Effect-Leaving i m v (Step-Effect x e) (Turns-Leaving i w m q l)

pub Turns-Running : (i : ℕ) (w v : Worker) → Turns w v → Running i w → Running i v
Turns-Running i w v Turns.here r = r
Turns-Running i w v (Turns.turn {v = m} q x e) r =
    Effect-Running i m v (Step-Effect x e) (Turns-Running i w m q r)
