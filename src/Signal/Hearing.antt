-- ===== src/Signal/Hearing.antt =====
-- src/coroutine_signal.cpp: no notice is lost.
use redis_proxy.Base.{◌≡◌, refl, sym, ap, subst, ◌∙◌, Bool, true, false}
use redis_proxy.Signal.{
  Latch, Place, new_latch, wake, notify, wait, resume, give_notice, call_wait, return_from_wait,
  Step, Steps,
}

abbrev is_parked : Place → Bool
is_parked Place.parked = true
is_parked Place.working = false
is_parked Place.woken = false

pub record Heard (l : Latch) : Type 0 where
  -- The signal remembers a notice exactly until the coroutine returns from `wait`.
  pub kept : l.signal.pending ≡ l.unheard
  pub waiting : l.signal.waiting ≡ is_parked l.place
  -- The coroutine does not sleep over a notice.
  pub awake : l.place ≡ Place.parked → l.unheard ≡ false

wake_awake : (b : Bool) (p : Place) → b ≡ is_parked p → is_parked (wake b p) ≡ false
wake_awake true p e = refl
wake_awake false p e = sym e

unparked : (p : Place) → is_parked p ≡ false → p ≡ Place.parked → true ≡ false
unparked p e at = cc (e, ap is_parked at)

give_notice-Heard : (l : Latch) → Heard l → Heard (give_notice l)
unfolding give_notice notify
give_notice-Heard l h = record {
  kept = refl;
  waiting = sym (wake_awake l.signal.waiting l.place h.waiting);
  awake = unparked _ (wake_awake l.signal.waiting l.place h.waiting);
}

call_wait-Heard : (l : Latch) → l.place ≡ Place.working → Heard l → Heard (call_wait l)
unfolding call_wait wait
call_wait-Heard l at h = by_pending l.signal.pending refl
  where
    by_pending : (b : Bool) → l.signal.pending ≡ b → Heard (call_wait l)
    by_pending true e =
        rw e (record { kept = refl; waiting = h.waiting ∙ ap is_parked at; awake = λ z. refl })
    by_pending false e =
        rw e (record { kept = sym e ∙ h.kept; waiting = refl; awake = λ z. sym h.kept ∙ e })

return_from_wait-Heard : (l : Latch) → l.place ≡ Place.woken → Heard l → Heard (return_from_wait l)
unfolding return_from_wait resume
return_from_wait-Heard l at h = record {
  kept = refl;
  waiting = h.waiting ∙ ap is_parked at;
  awake = λ z. refl;
}

Step-Heard : (l m : Latch) → Heard l → Step l m → Heard m
Step-Heard l m h (Step.notifies to) = subst Heard (sym to) (give_notice-Heard l h)
Step-Heard l m h (Step.waits at to) = subst Heard (sym to) (call_wait-Heard l at h)
Step-Heard l m h (Step.returns at to) = subst Heard (sym to) (return_from_wait-Heard l at h)

-- However notices and the calls of `wait` interleave, the signal remembers a notice until the coroutine returns
-- from `wait`, and the coroutine is never parked with a notice given since it last returned.
pub Steps-Heard : (l : Latch) → Steps new_latch l → Heard l
Steps-Heard l Steps.none_yet = record { kept = refl; waiting = refl; awake = λ z. refl }
Steps-Heard m (Steps.after {l = l} r x) = Step-Heard l m (Steps-Heard l r) x
