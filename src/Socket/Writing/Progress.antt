-- ===== src/Socket/Writing/Progress.antt =====
-- src/co_socket.cpp, `CoSocket::writeAll`: when the call returns success.
use redis_proxy.Base.{
  ℕ, suc, ◌≤◌, ◌≡◌, refl, sym, ap, ◌∙◌, inl, inr, Bool, true, false, List, [], ◌∷◌, ◌++◌, some,
  append-nil, length, min, arith, All, length-drop,
}
use redis_proxy.Status.{status_ok}
use redis_proxy.Buffer.Store.{Store}
use redis_proxy.Buffer.Chain.{Slice, Chain, slices_string, to_string_for_test}
use redis_proxy.Socket.Writing.{
  Answer, Written, advance, take_bytes, write_round, wait_round, write_loop, write_all,
}
use redis_proxy.Socket.Writing.Pieces.{
  Sized, Within, left, from_start, gather_iov-left, gather_iov-filled, advance-Advanced,
}
use redis_proxy.Socket.Writing.Sending.{
  Sends, Shown, Filled, cons_Filled, length-Shown, write_all-Sends,
}

-- An answer that is neither a failure nor a timeout.
abbrev pub is_working : Answer → Bool
is_working (Answer.takes n) = true
is_working (Answer.again ready) = ready
is_working Answer.takes_none = false
is_working (Answer.fails m) = false

abbrev pub Working : List Answer → Type 0
Working answers = All (λ a. is_working a ≡ true) answers

-- How many of the answers take bytes.
abbrev pub takes_count : List Answer → ℕ
takes_count [] = 0
takes_count (Answer.takes n ∷ answers) = suc (takes_count answers)
takes_count (Answer.again ready ∷ answers) = takes_count answers
takes_count (Answer.takes_none ∷ answers) = takes_count answers
takes_count (Answer.fails m ∷ answers) = takes_count answers

-- With these answers to come the loop ends well wherever it stands.
abbrev Finishes : Store → ℕ → (ℕ → List Slice → Written) → Type 0
Finishes s n rest =
    (o : ℕ) (ys : List Slice)
    → Sized s ys
    → Within o ys
    → length (left s o ys) ≤ n
    → (rest o ys).result ≡ some status_ok

write_round-Finishes :
    (s : Store) (rest : ℕ → List Slice → Written) (a : Answer) (answers : List Answer)
    (iov : List Slice) (offset : ℕ) (xs : List Slice)
    → is_working a ≡ true
    → Sized s xs
    → Within offset xs
    → length (left s offset xs) ≤ takes_count (a ∷ answers)
    → Shown s iov (left s offset xs)
    → Filled s iov (left s offset xs)
    → Finishes s (takes_count answers) rest
    → (write_round s rest a iov offset xs).result ≡ some status_ok
unfolding write_round take_bytes
write_round-Finishes s rest a answers [] offset xs ok sized h enough shown filled later = refl
write_round-Finishes s rest (Answer.takes n) answers (v ∷ vs) offset xs ok sized h enough shown
      filled later =
    let k = min (suc n) (length (slices_string s (v ∷ vs))) in
    let r = advance-Advanced s k offset xs sized h in
    later (advance k offset xs).0 (advance k offset xs).1 r.sized r.within (
      omega (
        arith,
        ap length r.rest,
        length-drop k (left s offset xs),
        cons_Filled s v vs _ filled,
        enough,
      ))
write_round-Finishes s rest (Answer.again true) answers (v ∷ vs) offset xs ok sized h enough shown
      filled later =
    later offset xs sized h enough
write_round-Finishes s rest (Answer.again false) answers (v ∷ vs) offset xs ok sized h enough shown
      filled later =
    absurd (cc ok)
write_round-Finishes s rest Answer.takes_none answers (v ∷ vs) offset xs ok sized h enough shown
      filled later =
    absurd (cc ok)
write_round-Finishes s rest (Answer.fails m) answers (v ∷ vs) offset xs ok sized h enough shown
      filled later =
    absurd (cc ok)

wait_round-Finishes :
    (s : Store) (iov : List Slice) (text : List ℕ)
    → length text ≤ 0
    → Shown s iov text
    → Filled s iov text
    → (wait_round iov).result ≡ some status_ok
unfolding wait_round
wait_round-Finishes s [] text enough shown filled = refl
wait_round-Finishes s (v ∷ vs) text enough shown filled =
    absurd
      (omega (arith, enough, length-Shown s (v ∷ vs) text shown, cons_Filled s v vs text filled))

write_loop-Finishes :
    (s : Store) (answers : List Answer)
    → Working answers
    → Finishes s (takes_count answers) (write_loop s answers)
unfolding write_loop
write_loop-Finishes s answers working offset [] sized h enough = refl
write_loop-Finishes s [] working offset (x ∷ xs) sized h enough =
    wait_round-Finishes s _ _ enough (gather_iov-left s 64 offset (x ∷ xs) sized h)
      (gather_iov-filled s 63 offset (x ∷ xs) sized h)
write_loop-Finishes s (a ∷ answers) working offset (x ∷ xs) sized h enough =
    write_round-Finishes s (write_loop s answers) a answers _ offset (x ∷ xs) working.0 sized h
      enough (gather_iov-left s 64 offset (x ∷ xs) sized h)
      (gather_iov-filled s 63 offset (x ∷ xs) sized h) (write_loop-Finishes s answers working.1)

abbrev Sent : Store → Chain → Written → Type 0
Sent s c w = (w.result ≡ some status_ok) × (w.sent ≡ to_string_for_test s c)

Sends-Sent :
    (s : Store) (c : Chain) (w : Written)
    → Sends (to_string_for_test s c) w
    → w.result ≡ some status_ok
    → Sent s c w
Sends-Sent s c w t e = (
  e,
  elim t.end [
    | inl h ↦ sym (append-nil w.sent) ∙ ap (λ ys. w.sent ++ ys) (sym h.1) ∙ t.split
    | inr h ↦ elim (h.1) [ inl i ↦ absurd (cc (i, e)) | inr (m, i) ↦ absurd (cc (i, e)) ]
  ],
)

-- If no poll times out and no `writev` fails, `writeAll` of slices that show as many bytes as they say
-- returns success with the whole chain sent once the kernel has taken bytes as often as there are bytes,
-- however few it takes at a time and however often the descriptor is not ready.
pub write_all-Finishes :
    (s : Store) (answers : List Answer) (c : Chain)
    → Sized s c.slices
    → Working answers
    → length (to_string_for_test s c) ≤ takes_count answers
    → ((write_all s answers c).result ≡ some status_ok)
      × ((write_all s answers c).sent ≡ to_string_for_test s c)
unfolding write_all to_string_for_test
write_all-Finishes s answers c sized working enough =
    Sends-Sent s c (write_loop s answers 0 c.slices) (write_all-Sends s answers c sized)
      (write_loop-Finishes s answers working 0 c.slices sized (from_start c.slices) enough)
