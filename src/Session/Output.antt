-- ===== src/Session/Output.antt =====
-- src/client_session.cpp, `writerLoop`: what a round takes from the output of the session.
use redis_proxy.Base.{
  ℕ, zero, suc, ◌+◌, ◌≤◌, ◌<◌, ◌≡◌, refl, sym, ap, ◌∙◌, ◌≢◌, ◌⊎◌, inl, inr, true, false, List, [],
  ◌∷◌, ◌++◌, append_assoc, append-nil, length, arith, ◌==◌, if◌then◌else◌, Bool-cases,
}
use redis_proxy.Buffer.Chain.{Chain, Slice, append, append_slices, append_chain}
use redis_proxy.Session.{Session, State, is_aborted}
use redis_proxy.Session.Loops.{
  gather_output, Round, ends, waits, writes, take_output, writer_idle, writer_open, writer_round,
  is_draining, is_nil,
}

-- The slices of all the chains that are to be written, in order.
unfoldable pub flat : List Chain → List Slice
flat [] = []
flat (c ∷ cs) = c.slices ++ flat cs

slices-append_slices : (c : Chain) (xs : List Slice) → (append_slices c xs).slices ≡ c.slices ++ xs
unfolding append_slices append
slices-append_slices c [] = sym (append-nil c.slices)
slices-append_slices c (x ∷ xs) =
    slices-append_slices (append c x) xs ∙ append_assoc c.slices (x ∷ []) xs

gather_output-flat :
    (n : ℕ) (reply : Chain) (out : List Chain)
    → (gather_output n reply out).0.slices ++ flat (gather_output n reply out).1
      ≡ reply.slices ++ flat out
unfolding gather_output append_chain flat
gather_output-flat zero reply out = refl
gather_output-flat (suc n) reply [] = refl
gather_output-flat (suc n) reply (c ∷ out) =
    gather_output-flat n (append_slices reply c.slices) out
    ∙ ap (λ xs. xs ++ flat out) (slices-append_slices reply c.slices)
    ∙ append_assoc reply.slices c.slices (flat out)

-- All that there is was taken, or `n` chains were.
gather_output-length :
    (n : ℕ) (reply : Chain) (out : List Chain)
    → ((gather_output n reply out).1 ≡ []) × (length out ≤ n)
      ⊎ (length out ≡ n + length (gather_output n reply out).1)
unfolding gather_output
gather_output-length zero reply out = inr (omega arith)
gather_output-length (suc n) reply [] = inl (refl, omega arith)
gather_output-length (suc n) reply (c ∷ out) =
    elim (gather_output-length n (append_chain reply c).0 out) [
      | inl h ↦ inl (h.0, omega (arith, h.1))
      | inr h ↦ inr (omega (arith, h))
    ]

-- A session with nothing to write and no reply to come, which is draining.
abbrev pub Drained : Session → Type 0
Drained s = (s.client_out ≡ []) × (s.state ≡ State.draining) × (s.pending_replies ≡ 0)

-- How a round begins.
pub data Begins (encoded : Chain) (s : Session) : Round → Type 0 where
  ended_aborted : {r : Round} → s.state ≡ State.aborted → r ≡ ends → Begins encoded s r
  ended_drained : {r : Round} → Drained s → s.final_error ≡ [] → r ≡ ends → Begins encoded s r
  idles :
      {r : Round}
      → s.state ≢ State.aborted
      → s.client_out ≡ []
      → (s.state ≢ State.draining) ⊎ (s.pending_replies ≢ 0)
      → r ≡ waits
      → Begins encoded s r
  says_error :
      {r : Round}
      → Drained s
      → s.final_error ≢ []
      → r ≡ writes encoded (record s { final_error = []; client_out = [] })
      → Begins encoded s r
  flushes :
      {r : Round} (c : Chain) (rest : List Chain)
      → s.state ≢ State.aborted
      → r ≡ writes c (record s { client_out = rest })
      → c.slices ++ flat rest ≡ flat s.client_out
      → 0 < length s.client_out
      → ((rest ≡ []) × (length s.client_out ≤ 64)) ⊎ (length s.client_out ≡ 64 + length rest)
      → Begins encoded s r

is_aborted-cases :
    (st : State) → (st ≡ State.aborted) ⊎ ((is_aborted st ≡ false) × (st ≢ State.aborted))
is_aborted-cases State.opened = inr (refl, λ e. cc e)
is_aborted-cases State.draining = inr (refl, λ e. cc e)
is_aborted-cases State.aborted = inl refl

is_draining-cases :
    (st : State)
    → ((is_draining st ≡ true) × (st ≡ State.draining))
      ⊎ ((is_draining st ≡ false) × (st ≢ State.draining))
is_draining-cases State.opened = inr (refl, λ e. cc e)
is_draining-cases State.draining = inl (refl, refl)
is_draining-cases State.aborted = inr (refl, λ e. cc e)

is_nil-cases : (xs : List ℕ) → ((is_nil xs ≡ true) × (xs ≡ [])) ⊎ ((is_nil xs ≡ false) × (xs ≢ []))
is_nil-cases [] = inl (refl, refl)
is_nil-cases (x ∷ xs) = inr (refl, λ e. cc e)

writer_idle-Begins :
    (encoded : Chain) (s : Session)
    → s.state ≢ State.aborted
    → s.client_out ≡ []
    → Begins encoded s (writer_idle encoded s)
unfolding writer_idle take_output gather_output
writer_idle-Begins encoded s live none_out = elim (is_draining-cases s.state) [
  | inr h ↦ rw h.0 (idles live none_out (inl h.1) refl)
  | inl h ↦ elim (Bool-cases (s.pending_replies == 0)) [
    | inr more ↦ rw (h.0, more) (idles live none_out (inr (λ z. ground (arith, more, z))) refl)
    | inl none_left ↦
        let drained : Drained s = (none_out, h.1, ground (arith, none_left)) in
        elim (is_nil-cases s.final_error) [
          | inl e ↦ rw (h.0, none_left, e.0) (ended_drained drained e.1 refl)
          | inr e ↦ rw (h.0, none_left, e.0) (says_error drained e.1 refl)
        ]
  ]
]

flat_cons : (c : Chain) (out : List Chain) → flat (c ∷ out) ≡ c.slices ++ flat out
unfolding flat
flat_cons c out = refl

writer_open-Begins :
    (encoded : Chain) (out : List Chain) (s : Session)
    → s.client_out ≡ out
    → s.state ≢ State.aborted
    → Begins encoded s (writer_open encoded out s)
unfolding writer_open take_output
writer_open-Begins encoded [] s e live = writer_idle-Begins encoded s live e
writer_open-Begins encoded (c ∷ out) s e live =
    flushes (gather_output 63 c out).0 (gather_output 63 c out).1 live refl
      (gather_output-flat 63 c out ∙ sym (flat_cons c out) ∙ ap flat (sym e))
      (omega (arith, ap length e))
      (elim (gather_output-length 63 c out) [
        | inl h ↦ inl (h.0, omega (arith, h.1, ap length e))
        | inr h ↦ inr (omega (arith, h, ap length e))
      ])

-- A round of the writer of a session that has not aborted takes the chains of the output in order and
-- without loss, 64 of them or all if there are no more. If there are none, it takes the final error,
-- which it clears, only when the session drains and no reply is outstanding; it ends, unless the session
-- has aborted, only in the same case with no final error; else it waits.
pub writer_round-Begins :
    (encoded : Chain) (s : Session) → Begins encoded s (writer_round encoded s)
unfolding writer_round
writer_round-Begins encoded s = elim (is_aborted-cases s.state) [
  | inl e ↦
      ended_aborted e
        (ap (λ st. if is_aborted st then ends else writer_open encoded s.client_out s) e)
  | inr h ↦ rw h.0 (writer_open-Begins encoded s.client_out s refl h.1)
]
