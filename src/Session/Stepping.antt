-- ===== src/Session/Stepping.antt =====
-- src/client_session.cpp and src/backend_channel.cpp: a step of a channel, with its callbacks, keeps channels and
-- sessions in agreement.
use redis_proxy.Base.{
  ℕ, ◌+◌, ◌≡◌, refl, sym, ap, ◌∙◌, Bool, true, false, List, Option, none, some, arith, ◌==◌,
  get_elem?, set,
}
use redis_proxy.Buffer.Chain.{Chain}
use redis_proxy.Channel.{Channel, Event, submitted, detached, Notice, step}
use redis_proxy.Channel.Invariant.{IsValid, Admissible, step-IsValid}
use redis_proxy.Channel.Fifo.{step-Serves, view}
use redis_proxy.Session.{World, deliver, deliver_all, channel_step, channel_step_at}
use redis_proxy.Session.Debt.{debt, Change, Serves-Change, one_if}
use redis_proxy.Session.Claims.{ChannelsValid, claim}
use redis_proxy.Session.Fair.{Fair-set, set-ChannelsValid, on_backend_reply-Fair}
use redis_proxy.Session.Delivery.{Agrees, WorldIsValid, failures-Agrees, failures-ChannelsValid}

-- An event that a channel's own coroutines or the pool's `stop` bring about.
abbrev pub Internal : Event → Type 0
Internal (submitted o bytes n) = ⊥
Internal (detached o) = ⊥
Internal _ = Unit

Internal-Admissible : (e : Event) → Internal e → Admissible e
Internal-Admissible (submitted o bytes n) h = absurd h
Internal-Admissible (detached o) h = absurd h
Internal-Admissible Event.took h = tt
Internal-Admissible (Event.wrote s) h = tt
Internal-Admissible (Event.read s) h = tt
Internal-Admissible (Event.replied r) h = tt
Internal-Admissible Event.garbled h = tt
Internal-Admissible Event.stopping h = tt

abbrev pub put : ℕ → Channel → World → World
put i c w = record w { channels = set w.channels i c }

-- A reply to `p`, seen from session `o`.
reply-Agrees :
    (b : Bool) (o p i : ℕ) (r : Chain) (c c' : Channel) (w : World)
    → (p == o) ≡ b
    → get_elem? w.channels i ≡ some c
    → debt o c ≡ debt o c' + one_if b
    → Agrees o w
    → Agrees o (deliver (Notice.reply p r) (put i c' w))
unfolding deliver
reply-Agrees true o p i r c c' w e at d f =
    let po : p ≡ o = ground (arith, e) in
    rw e (rw po (on_backend_reply-Fair o i r c c' w.channels (w.sessions o) at d f))
reply-Agrees false o p i r c c' w e at d f =
    rw e (Fair-set o i c c' w.channels (w.sessions o) at (omega (arith, d)) f)

Change-Agrees :
    {e : Event} {ns : List Notice} (o i : ℕ) (c c' : Channel) (w : World)
    → Internal e
    → get_elem? w.channels i ≡ some c
    → Agrees o w
    → Change o (debt o c) (debt o c') e ns
    → Agrees o (deliver_all ns (put i c' w))
unfolding deliver_all
Change-Agrees o i c c' w int at f (Change.same e d) =
    Fair-set o i c c' w.channels (w.sessions o) at d f
Change-Agrees o i c c' w int at f (Change.more p bytes n d) = absurd int
Change-Agrees o i c c' w int at f (Change.less e none r d) =
    Fair-set o i c c' w.channels (w.sessions o) at (omega (arith, d)) f
Change-Agrees o i c c' w int at f (Change.less e (some p) r d) =
    reply-Agrees (p == o) o p i r c c' w refl at d f
Change-Agrees o i c c' w int at f (Change.dropped p d) = absurd int
Change-Agrees o i c c' w int at f (Change.lost e status os d told) =
    failures-Agrees o status os (put i c' w)
      (λ st.
        Fair-set o i c c' w.channels (w.sessions o) at
          (d
            ∙ sym (
                f.owed i c at ∙ ap (λ cur. claim cur (w.sessions o).pending_replies i) (f.gone st)))
          f)
      (λ z. Fair-set o i c c' w.channels (w.sessions o) at (d ∙ sym (told z)) f)

Change-ChannelsValid :
    {e : Event} {ns : List Notice} {a b : ℕ} (o : ℕ) (w : World)
    → ChannelsValid w.channels
    → Change o a b e ns
    → ChannelsValid (deliver_all ns w).channels
unfolding deliver_all deliver
Change-ChannelsValid o w vs (Change.same e d) = vs
Change-ChannelsValid o w vs (Change.more p bytes n d) = vs
Change-ChannelsValid o w vs (Change.less e none r d) = vs
Change-ChannelsValid o w vs (Change.less e (some p) r d) = vs
Change-ChannelsValid o w vs (Change.dropped p d) = vs
Change-ChannelsValid o w vs (Change.lost e status os d told) = failures-ChannelsValid status os w vs

channel_step_at-IsValid :
    (i : ℕ) (e : Event) (m : Option Channel) (w : World)
    → Internal e
    → get_elem? w.channels i ≡ m
    → WorldIsValid w
    → WorldIsValid (channel_step_at i e m w)
unfolding channel_step_at
channel_step_at-IsValid i e none w int at v = v
channel_step_at-IsValid i e (some c) w int at v =
    let valid = v.channels_valid i c at in
    let served = step-Serves c e valid in
    record {
      channels_valid =
          Change-ChannelsValid 0 (put i (step c e).0 w)
            (set-ChannelsValid i _ w.channels (step-IsValid c e (Internal-Admissible e int) valid)
              v.channels_valid)
            (Serves-Change 0 (view c) (view (step c e).0) served);
      agrees = λ o.
          Change-Agrees o i c (step c e).0 w int at (v.agrees o)
            (Serves-Change o (view c) (view (step c e).0) served);
    }

pub channel_step-IsValid :
    (i : ℕ) (e : Event) (w : World)
    → Internal e
    → WorldIsValid w
    → WorldIsValid (channel_step i e w)
unfolding channel_step
channel_step-IsValid i e w int v = channel_step_at-IsValid i e (get_elem? w.channels i) w int refl v

-- A channel is replaced by one that owes the same.
pub put-IsValid :
    (i : ℕ) (c c' : Channel) (w : World)
    → get_elem? w.channels i ≡ some c
    → IsValid c'
    → ((o : ℕ) → debt o c' ≡ debt o c)
    → WorldIsValid w
    → WorldIsValid (put i c' w)
put-IsValid i c c' w at valid d v = record {
  channels_valid = set-ChannelsValid i c' w.channels valid v.channels_valid;
  agrees = λ o. Fair-set o i c c' w.channels (w.sessions o) at (d o) (v.agrees o);
}
