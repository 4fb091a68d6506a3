-- ===== src/Worker/Handover.antt =====
-- src/worker.cpp, `dispatchFd` and `reapFds`: no descriptor is lost, and no wake-up.
use redis_proxy.Base.{
  ℕ, ◌<◌, ◌≡◌, refl, sym, ap, subst, ◌∙◌, ◌⊎◌, inl, inr, true, List, [], ◌∷◌, ◌++◌, append_assoc,
  append-nil, arith,
}
use redis_proxy.Worker.{
  Worker, Position, new_worker, push_fd, notify_reaper, load_flag, after_load, swap_fds, start_next,
  drain_notifier, poll_again, finish, reap_sessions, Step, Steps,
}

-- Either nothing is pending, or the reaper is told, or will be, or has not yet looked.
abbrev pub Alive : Worker → Type 0
Alive w =
    (w.pending_fds ≡ [])
    ⊎ (0 < w.due)
    ⊎ (w.readable ≡ true)
    ⊎ (w.position ≡ Position.loading)
    ⊎ (w.position ≡ Position.swapping)

pub record Safe (all : List ℕ) (w : Worker) : Type 0 where
  -- Every descriptor is started, taken or pending, in the order of the calls.
  pub kept : w.started ++ (w.fds ++ w.pending_fds) ≡ all
  pub flagged : (w.has_pending_fds ≡ true) ⊎ (w.pending_fds ≡ [])
  pub alive : Alive w
  -- Outside its loop the reaper holds no descriptor.
  pub held : (w.position ≡ Position.starting) ⊎ (w.fds ≡ [])

quiet : (all : List ℕ) (w : Worker) → Safe all w → Safe (all ++ []) w
quiet all w s = subst (λ xs. Safe xs w) (sym (append-nil all)) s

push_fd-Safe :
    (all : List ℕ) (fd : ℕ) (w : Worker) → Safe all w → Safe (all ++ fd ∷ []) (push_fd fd w)
unfolding push_fd
push_fd-Safe all fd w s = record {
  kept =
      ap (λ t. w.started ++ t) (sym (append_assoc w.fds w.pending_fds (fd ∷ [])))
      ∙ sym (append_assoc w.started (w.fds ++ w.pending_fds) (fd ∷ []))
      ∙ ap (λ t. t ++ fd ∷ []) s.kept;
  flagged = inl refl;
  alive = inr (inl (omega arith));
  held = s.held;
}

notify_reaper-Safe : (all : List ℕ) (w : Worker) → Safe all w → Safe all (notify_reaper w)
unfolding notify_reaper
notify_reaper-Safe all w s = record {
  kept = s.kept;
  flagged = s.flagged;
  alive = inr (inr (inl refl));
  held = s.held;
}

load_flag-Safe :
    (all : List ℕ) (w : Worker)
    → w.position ≡ Position.loading
    → Safe all w
    → Safe all (load_flag w)
unfolding load_flag
load_flag-Safe all w at s = record {
  kept = s.kept;
  flagged = s.flagged;
  alive = elim s.flagged [
    | inl up ↦ inr (inr (inr (inr (ap after_load up))))
    | inr empty ↦ inl empty
  ];
  held = elim s.held [ inl starting ↦ absurd (cc (at, starting)) | inr empty ↦ inr empty ];
}

swap_fds-Safe :
    (all : List ℕ) (w : Worker)
    → w.position ≡ Position.swapping
    → Safe all w
    → Safe all (swap_fds w)
unfolding swap_fds
swap_fds-Safe all w at s = record {
  kept = elim s.held [
    | inl starting ↦ absurd (cc (at, starting))
    | inr empty ↦
        ap (λ t. w.started ++ t)
          (append-nil w.pending_fds ∙ ap (λ t. t ++ w.pending_fds) (sym empty))
        ∙ s.kept
  ];
  flagged = inr refl;
  alive = inl refl;
  held = inl refl;
}

start_next-Safe :
    (all fs : List ℕ) (w : Worker)
    → w.fds ≡ fs
    → w.position ≡ Position.starting
    → Safe all w
    → Safe all (start_next fs w)
unfolding start_next
start_next-Safe all [] w e at s = record {
  kept = ap (λ t. w.started ++ (t ++ w.pending_fds)) (sym e) ∙ s.kept;
  flagged = s.flagged;
  alive = later s.alive;
  held = inr refl;
}
  where
    later : Alive w → Alive (record w { fds = []; position = Position.reaping })
    later (inl h) = inl h
    later (inr (inl h)) = inr (inl h)
    later (inr (inr (inl h))) = inr (inr (inl h))
    later (inr (inr (inr (inl h)))) = absurd (cc (at, h))
    later (inr (inr (inr (inr h)))) = absurd (cc (at, h))
start_next-Safe all (fd ∷ rest) w e at s = record {
  kept =
      append_assoc w.started (fd ∷ []) (rest ++ w.pending_fds)
      ∙ ap (λ t. w.started ++ (t ++ w.pending_fds)) (sym e)
      ∙ s.kept;
  flagged = s.flagged;
  alive = s.alive;
  held = inl at;
}

finish-Safe : (all : List ℕ) (i : ℕ) (w : Worker) → Safe all w → Safe all (finish i w)
unfolding finish
finish-Safe all i w s = record {
  kept = s.kept;
  flagged = s.flagged;
  alive = inr (inr (inl refl));
  held = s.held;
}

reap_sessions-Safe :
    (all : List ℕ) (w : Worker)
    → w.position ≡ Position.reaping
    → Safe all w
    → Safe all (reap_sessions w)
unfolding reap_sessions
reap_sessions-Safe all w at s = record {
  kept = s.kept;
  flagged = s.flagged;
  alive = later s.alive;
  held = elim s.held [ inl starting ↦ absurd (cc (at, starting)) | inr empty ↦ inr empty ];
}
  where
    later : Alive w → Alive (reap_sessions w)
    later (inl h) = inl h
    later (inr (inl h)) = inr (inl h)
    later (inr (inr (inl h))) = inr (inr (inl h))
    later (inr (inr (inr (inl h)))) = absurd (cc (at, h))
    later (inr (inr (inr (inr h)))) = absurd (cc (at, h))

drain_notifier-Safe :
    (all : List ℕ) (w : Worker)
    → w.position ≡ Position.polling
    → Safe all w
    → Safe all (drain_notifier w)
unfolding drain_notifier
drain_notifier-Safe all w at s = record {
  kept = s.kept;
  flagged = s.flagged;
  alive = inr (inr (inr (inl refl)));
  held = elim s.held [ inl starting ↦ absurd (cc (at, starting)) | inr empty ↦ inr empty ];
}

poll_again-Safe :
    (all : List ℕ) (w : Worker)
    → w.position ≡ Position.polling
    → Safe all w
    → Safe all (poll_again w)
unfolding poll_again
poll_again-Safe all w at s = record {
  kept = s.kept;
  flagged = s.flagged;
  alive = inr (inr (inr (inl refl)));
  held = elim s.held [ inl starting ↦ absurd (cc (at, starting)) | inr empty ↦ inr empty ];
}

pub Step-Safe :
    (all more : List ℕ) (w v : Worker) → Safe all w → Step w more v → Safe (all ++ more) v
Step-Safe all more w v s (Step.dispatches fd to) =
    subst (Safe (all ++ fd ∷ [])) (sym to) (push_fd-Safe all fd w s)
Step-Safe all more w v s (Step.notifies due to) =
    quiet all v (subst (Safe all) (sym to) (notify_reaper-Safe all w s))
Step-Safe all more w v s (Step.loads at to) =
    quiet all v (subst (Safe all) (sym to) (load_flag-Safe all w at s))
Step-Safe all more w v s (Step.swaps at to) =
    quiet all v (subst (Safe all) (sym to) (swap_fds-Safe all w at s))
Step-Safe all more w v s (Step.begins at to) =
    quiet all v (subst (Safe all) (sym to) (start_next-Safe all w.fds w refl at s))
Step-Safe all more w v s (Step.wakes at up to) =
    quiet all v (subst (Safe all) (sym to) (drain_notifier-Safe all w at s))
Step-Safe all more w v s (Step.interrupted at to) =
    quiet all v (subst (Safe all) (sym to) (poll_again-Safe all w at s))
Step-Safe all more w v s (Step.reaps at to) =
    quiet all v (subst (Safe all) (sym to) (reap_sessions-Safe all w at s))
Step-Safe all more w v s (Step.ends i mine first to) =
    quiet all v (subst (Safe all) (sym to) (finish-Safe all i w s))

pub new_worker-Safe : Safe [] new_worker
unfolding new_worker
new_worker-Safe = record { kept = refl; flagged = inr refl; alive = inl refl; held = inr refl }

pub from-Safe :
    {u : Worker} (before xs : List ℕ) (v : Worker)
    → Safe before u
    → Steps u xs v
    → Safe (before ++ xs) v
from-Safe before [] v s Steps.none_yet = quiet before v s
from-Safe before zs v s (Steps.after {v = m} {xs} {ys} r x e) =
    subst (λ ts. Safe (before ++ ts) v) (sym e)
      (subst (λ t. Safe t v) (append_assoc before xs ys)
        (Step-Safe (before ++ xs) ys m v (from-Safe before xs m s r) x))

-- However the acceptor and the worker interleave, the descriptors that have got a session, those taken and
-- those pending are the ones dispatched, in order; and a worker that waits in its poll while some
-- are pending is woken, or is about to be notified.
pub Steps-Safe : (all : List ℕ) (w : Worker) → Steps new_worker all w → Safe all w
Steps-Safe all w r = from-Safe [] all w new_worker-Safe r
