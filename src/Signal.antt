-- ===== src/Signal.antt =====
-- src/coroutine_signal.cpp: a latch over a condition variable. `waiting` stands for a coroutine that
-- is parked in `cond_.Timedwait(0)`; `cond_.Signal()` wakes it.
pub mod Hearing
use redis_proxy.Base.{◌≡◌, Bool, true, false, if◌then◌else◌}

pub record Signal : Type 0 where
  pub pending : Bool
  pub waiting : Bool

abbrev pub new_signal : Signal
new_signal = record { pending = false; waiting = false }

unfoldable pub notify : Signal → Signal
notify s = record { pending = true; waiting = false }

-- `wait` up to the point where it returns (a pending notice is taken) or parks.
unfoldable pub wait : Signal → Signal
wait s = if s.pending then record s { pending = false } else record s { waiting = true }

-- The end of `wait` after `Timedwait` came back.
unfoldable pub resume : Signal → Signal
resume s = record s { pending = false }

-- Where the coroutine that waits is: at work, parked in `Timedwait`, or woken and not yet resumed.
pub data Place : Type 0 where
  working parked woken : Place

-- A signal with its coroutine, and whether a notice was given since the coroutine last returned from `wait`.
pub record Latch : Type 0 where
  pub signal : Signal
  pub place : Place
  pub unheard : Bool

abbrev pub new_latch : Latch
new_latch = record { signal = new_signal; place = Place.working; unheard = false }

abbrev pub wake : Bool → Place → Place
wake true place = Place.woken
wake false place = place

unfoldable pub give_notice : Latch → Latch
unfolding notify
give_notice l = record {
  signal = notify l.signal;
  place = wake l.signal.waiting l.place;
  unheard = true;
}

-- `wait` returns at once if a notice is pending.
abbrev at_wait : Bool → Bool → Place × Bool
at_wait true unheard = (Place.working, false)
at_wait false unheard = (Place.parked, unheard)

unfoldable pub call_wait : Latch → Latch
unfolding wait
call_wait l =
    let (place, unheard) = at_wait l.signal.pending l.unheard in
    record { signal = wait l.signal; place = place; unheard = unheard }

unfoldable pub return_from_wait : Latch → Latch
unfolding resume
return_from_wait l = record { signal = resume l.signal; place = Place.working; unheard = false }

-- Any code of the thread notifies while the coroutine does not run, or the coroutine itself does.
pub data Step (l : Latch) : Latch → Type 0 where
  notifies : {m : Latch} → m ≡ give_notice l → Step l m
  waits : {m : Latch} → l.place ≡ Place.working → m ≡ call_wait l → Step l m
  returns : {m : Latch} → l.place ≡ Place.woken → m ≡ return_from_wait l → Step l m

pub data Steps : Latch → Latch → Type 0 where
  none_yet : {l : Latch} → Steps l l
  after : {k l m : Latch} → Steps k l → Step l m → Steps k m
