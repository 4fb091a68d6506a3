-- ===== src/Session/Replies.antt =====
-- src/client_session.cpp, `onBackendReply`: no reply reaches a session that does not wait for it.
use redis_proxy.Base.{
  ℕ, ◌≡◌, ap, ◌∙◌, ◌≢◌, List, [], ◌∷◌, Option, none, some, arith, get_elem?, ==_refl,
}
use redis_proxy.Status.{Status}
use redis_proxy.Buffer.Chain.{Chain}
use redis_proxy.Channel.{
  Channel, Event, Notice, reply, failures, owned_by, deliver as notices_of, step,
}
use redis_proxy.Channel.Fifo.{step-Serves, view}
use redis_proxy.Session.{State, World}
use redis_proxy.Session.Debt.{debt, Change, Serves-Change, one_if}
use redis_proxy.Session.Claims.{Fair}
use redis_proxy.Session.Fair.{claim-owing}
use redis_proxy.Session.Delivery.{WorldIsValid}

no_failure :
    (p : ℕ) (r : Chain) (ns : List Notice) (status : Status) (os : List ℕ)
    → failures status os ≢ reply p r ∷ ns
unfolding failures
no_failure p r ns status [] e = cc e
no_failure p r ns status (o ∷ os) e = cc e

of_reply :
    (s : Option ℕ) (p : ℕ) (r r' : Chain) (ns : List Notice)
    → notices_of s r' ≡ reply p r ∷ ns
    → s ≡ some p
of_reply none p r r' ns e = absurd (cc e)
of_reply (some q) p r r' ns e = cc e

-- An event that replies to `p` reduces what is owed to `p`.
reply-owed :
    {e : Event} {ms : List Notice} (p : ℕ) (r : Chain) (ns : List Notice) (a b : ℕ)
    → Change p a b e ms
    → ms ≡ reply p r ∷ ns
    → a ≢ 0
reply-owed p r ns a b (Change.same e d) h = absurd (cc h)
reply-owed p r ns a b (Change.more q bytes n d) h = absurd (cc h)
reply-owed p r ns a b (Change.less e s r' d) h = λ z.
    omega (
      arith,
      d,
      z,
      ap (λ x. one_if (owned_by p x)) (of_reply s p r r' ns h) ∙ ap one_if (==_refl p),
    )
reply-owed p r ns a b (Change.dropped q d) h = absurd (cc h)
reply-owed p r ns a b (Change.lost e status os d told) h = absurd (no_failure p r ns status os h)

-- Wherever sessions and channels agree, a channel replies only to a session that has not aborted, that
-- waits for a reply, and whose current channel it is.
pub reply-Expected :
    (w : World) (i : ℕ) (c : Channel) (e : Event) (p : ℕ) (r : Chain) (ns : List Notice)
    → WorldIsValid w
    → get_elem? w.channels i ≡ some c
    → (step c e).1 ≡ reply p r ∷ ns
    → ((w.sessions p).current_backend ≡ some i)
      × ((w.sessions p).pending_replies ≢ 0)
      × ((w.sessions p).state ≢ State.aborted)
reply-Expected w i c e p r ns v at h = (cur, f.busy i cur, λ st. cc (cur, f.gone st))
  where
    f : Fair w.channels p (w.sessions p)
    f = v.agrees p

    owing : debt p c ≢ 0
    owing =
        reply-owed p r ns (debt p c) (debt p (step c e).0)
          (Serves-Change p (view c) (view (step c e).0) (step-Serves c e (v.channels_valid i c at)))
          h

    cur : (w.sessions p).current_backend ≡ some i
    cur =
        claim-owing (w.sessions p).current_backend (w.sessions p).pending_replies i
          (λ z. owing (f.owed i c at ∙ z))
