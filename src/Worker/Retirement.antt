-- ===== src/Worker/Retirement.antt =====
-- src/worker.cpp, the callback of a session and `reapSessions`: ended sessions are erased, once.
use redis_proxy.Base.{
  ℕ, ◌<◌, ◌≤◌, ◌≡◌, refl, sym, ap, subst, ◌∙◌, ◌⊎◌, inl, inr, Bool, true, false, List, [], ◌∷◌,
  arith, length, length-append, ◌==◌, Bool-cases,
}
use redis_proxy.Buffer.Health.{count}
use redis_proxy.Buffer.IoBuffer.Valid.{count-append}
use redis_proxy.Worker.{
  Worker, Position, new_worker, push_fd, notify_reaper, load_flag, after_load, swap_fds, start_next,
  drain_notifier, poll_again, finish, erase, erase_all, reap_sessions, Step, Steps,
}

abbrev pub is_polling : Position → Bool
is_polling Position.polling = true
is_polling Position.loading = false
is_polling Position.swapping = false
is_polling Position.starting = false
is_polling Position.reaping = false

pub record Tidy (w : Worker) : Type 0 where
  -- A session is owned once, and is one of those started.
  pub once : (i : ℕ) → count i w.sessions ≤ 1
  pub known : (i : ℕ) → 0 < count i w.sessions → i < length w.started
  -- A session that has ended is reported once, and is still owned.
  pub owned : (i : ℕ) → count i w.finished_sessions ≤ count i w.sessions
  -- The reaper waits for the notifier only if no session has ended, or the notifier is readable.
  pub told : (w.finished_sessions ≡ []) ⊎ (w.readable ≡ true) ⊎ (is_polling w.position ≡ false)

count-erase_le : (i j : ℕ) (js : List ℕ) → count i (erase j js) ≤ count i js
count-erase_le i j [] = omega arith
count-erase_le i j (k ∷ js) = ground (arith, count-erase_le i j js)

pub count-erase_all_le : (i : ℕ) (js ks : List ℕ) → count i (erase_all js ks) ≤ count i ks
count-erase_all_le i [] ks = omega arith
count-erase_all_le i (j ∷ js) ks =
    omega (arith, count-erase_all_le i js (erase j ks), count-erase_le i j ks)

start_next-Tidy :
    (fs : List ℕ) (w : Worker) → Tidy w → w.position ≡ Position.starting → Tidy (start_next fs w)
unfolding start_next
start_next-Tidy [] w t at = record {
  once = t.once;
  known = t.known;
  owned = t.owned;
  told = inr (inr refl);
}
start_next-Tidy (fd ∷ rest) w t at = record {
  once = λ i. ground (arith, t.once i, t.known i);
  known = λ i k. ground (arith, t.known i, k, length-append w.started (fd ∷ []));
  owned = λ i. omega (arith, t.owned i);
  told = inr (inr (ap is_polling at));
}

finish-Tidy :
    (i : ℕ) (w : Worker)
    → 0 < count i w.sessions
    → count i w.finished_sessions ≡ 0
    → Tidy w
    → Tidy (finish i w)
unfolding finish
finish-Tidy i w mine first t = record {
  once = t.once;
  known = t.known;
  owned = λ j. ground (arith, t.owned j, mine, first, count-append j w.finished_sessions (i ∷ []));
  told = inr (inl refl);
}

reap_sessions-Tidy : (w : Worker) → Tidy w → Tidy (reap_sessions w)
unfolding reap_sessions
reap_sessions-Tidy w t = record {
  once = λ i. omega (arith, t.once i, count-erase_all_le i w.finished_sessions w.sessions);
  known = λ i k. t.known i (omega (arith, k, count-erase_all_le i w.finished_sessions w.sessions));
  owned = λ i. omega arith;
  told = inl refl;
}

-- A change that touches neither the sessions nor the descriptors started.
same_Tidy :
    (w v : Worker)
    → v.started ≡ w.started
    → v.sessions ≡ w.sessions
    → v.finished_sessions ≡ w.finished_sessions
    → (v.finished_sessions ≡ []) ⊎ (v.readable ≡ true) ⊎ (is_polling v.position ≡ false)
    → Tidy w
    → Tidy v
same_Tidy w v e f g told t = record {
  once = λ i. omega (arith, t.once i, ap (count i) f);
  known = λ i k. omega (arith, t.known i (omega (arith, k, ap (count i) f)), ap length e);
  owned = λ i. omega (arith, t.owned i, ap (count i) f, ap (count i) g);
  told = told;
}

load_flag_told : (b : Bool) → is_polling (after_load b) ≡ false
load_flag_told true = refl
load_flag_told false = refl

pub Step-Tidy : (more : List ℕ) (w v : Worker) → Tidy w → Step w more v → Tidy v
unfolding push_fd notify_reaper load_flag swap_fds drain_notifier poll_again
Step-Tidy more w v t (Step.dispatches fd to) =
    subst Tidy (sym to) (same_Tidy w _ refl refl refl t.told t)
Step-Tidy more w v t (Step.notifies due to) =
    subst Tidy (sym to) (same_Tidy w _ refl refl refl (inr (inl refl)) t)
Step-Tidy more w v t (Step.loads at to) =
    subst Tidy (sym to)
      (same_Tidy w _ refl refl refl (inr (inr (load_flag_told w.has_pending_fds))) t)
Step-Tidy more w v t (Step.swaps at to) =
    subst Tidy (sym to) (same_Tidy w _ refl refl refl (inr (inr refl)) t)
Step-Tidy more w v t (Step.begins at to) = subst Tidy (sym to) (start_next-Tidy w.fds w t at)
Step-Tidy more w v t (Step.reaps at to) = subst Tidy (sym to) (reap_sessions-Tidy w t)
Step-Tidy more w v t (Step.ends i mine first to) =
    subst Tidy (sym to) (finish-Tidy i w mine first t)
Step-Tidy more w v t (Step.wakes at up to) =
    subst Tidy (sym to) (same_Tidy w _ refl refl refl (inr (inr refl)) t)
Step-Tidy more w v t (Step.interrupted at to) =
    subst Tidy (sym to) (same_Tidy w _ refl refl refl (inr (inr refl)) t)

new_worker-Tidy : Tidy new_worker
unfolding new_worker
new_worker-Tidy = record {
  once = λ i. omega arith;
  known = λ i k. absurd (omega (arith, k));
  owned = λ i. omega arith;
  told = inl refl;
}

pub Steps-Tidy : (all : List ℕ) (w : Worker) → Steps new_worker all w → Tidy w
Steps-Tidy all w Steps.none_yet = new_worker-Tidy
Steps-Tidy all w (Steps.after {v = m} {xs} {ys} r x e) = Step-Tidy ys m w (Steps-Tidy xs m r) x

-- Erasing ended sessions.
erase_ne : (i j : ℕ) (js : List ℕ) → (i == j) ≡ false → count i (erase j js) ≡ count i js
erase_ne i j [] ne = refl
erase_ne i j (k ∷ js) ne = ground (arith, erase_ne i j js ne, ne)

erase_self : (i : ℕ) (js : List ℕ) → count i (erase i js) ≡ 0
erase_self i [] = refl
erase_self i (k ∷ js) = ground (arith, erase_self i js)

pub erase_all_others :
    (i : ℕ) (js ks : List ℕ) → count i js ≡ 0 → count i (erase_all js ks) ≡ count i ks
erase_all_others i [] ks h = refl
erase_all_others i (j ∷ js) ks h =
    erase_all_others i js (erase j ks) (omega (arith, h)) ∙ erase_ne i j ks (ground (arith, h))

pub erase_all_listed : (i : ℕ) (js ks : List ℕ) → 0 < count i js → count i (erase_all js ks) ≡ 0
erase_all_listed i [] ks h = absurd (omega (arith, h))
erase_all_listed i (j ∷ js) ks h = elim (Bool-cases (i == j)) [
  | inl same ↦ omega (
    arith,
    count-erase_all_le i js (erase j ks),
    ap (λ k. count i (erase k ks)) (equal same),
    erase_self i ks,
  )
  | inr other ↦ erase_all_listed i js (erase j ks) (ground (arith, h, other))
]
  where
    equal : (i == j) ≡ true → i ≡ j
    equal same = ground (arith, same)

-- However the steps interleave, a worker owns each session at most once and has started it; every session
-- reported as ended is reported once and still owned; and a worker that waits in its poll while an ended session
-- is to be erased has its notifier readable. `reapSessions` then erases exactly the sessions reported as
-- ended, leaves the others owned, and leaves none reported.
pub Steps-Retires :
    (all : List ℕ) (w : Worker)
    → Steps new_worker all w
    → Tidy w
      × ((i : ℕ)
          → 0 < count i w.finished_sessions
          → (count i w.sessions ≡ 1) × (count i (reap_sessions w).sessions ≡ 0))
      × ((i : ℕ)
          → count i w.finished_sessions ≡ 0
          → count i (reap_sessions w).sessions ≡ count i w.sessions)
      × ((reap_sessions w).finished_sessions ≡ [])
unfolding reap_sessions
Steps-Retires all w r =
    let t = Steps-Tidy all w r in
    (
      t,
      λ i h. (
        omega (arith, h, t.owned i, t.once i),
        erase_all_listed i w.finished_sessions w.sessions h,
      ),
      λ i h. erase_all_others i w.finished_sessions w.sessions h,
      refl,
    )
