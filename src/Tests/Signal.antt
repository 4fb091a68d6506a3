-- ===== src/Tests/Signal.antt =====
-- A run of src/coroutine_signal.cpp: a notice, a wait that takes it, a wait that parks, and a notice.
use redis_proxy.Base.{refl}
use redis_proxy.Signal.{
  Latch, new_latch, notify, wait, give_notice, call_wait, return_from_wait, Step, Steps,
}
use redis_proxy.Signal.Hearing.{Heard, Steps-Heard}

abbrev heard : Latch
heard = return_from_wait (give_notice (call_wait (call_wait (give_notice new_latch))))

hearing : Steps new_latch heard
unfolding give_notice call_wait notify wait
hearing =
    Steps.after
      (Steps.after
        (Steps.after
          (Steps.after (Steps.after Steps.none_yet (Step.notifies refl)) (Step.waits refl refl))
          (Step.waits refl refl))
        (Step.notifies refl))
      (Step.returns refl refl)

Steps-Heard_example : Heard heard
Steps-Heard_example = Steps-Heard heard hearing
