-- ===== src/Socket/Writing/Sending.antt =====
-- src/co_socket.cpp, `CoSocket::writeAll`: what has been sent, whatever the kernel answers.
use redis_proxy.Base.{
  ℕ, suc, ◌≤◌, ◌<◌, ◌≡◌, refl, sym, ap, ◌∙◌, ◌⊎◌, inl, inr, true, false, List, [], ◌∷◌, ◌++◌,
  Option, none, some, append_assoc, length, take, drop, min, arith, take-append-drop,
  take-append_le, take-min_length, length-append,
}
use redis_proxy.Status.{Status, status_ok, io_error}
use redis_proxy.Buffer.Store.{Store}
use redis_proxy.Buffer.Chain.{Slice, Chain, slices_string, to_string_for_test}
use redis_proxy.Socket.Writing.{
  Answer, Written, nothing_sent, advance, take_bytes, write_round, wait_round, write_loop,
  write_all,
}
use redis_proxy.Socket.Writing.Pieces.{
  Sized, Within, left, left-nil, from_start, gather_iov-left, gather_iov-filled, Advanced,
  advance-Advanced,
}

-- How the call stands: it has returned success and all is sent; or some bytes are not sent, and it waits
-- or has returned an I/O error.
pub record Sends (text : List ℕ) (w : Written) : Type 0 where
  pub rest : List ℕ
  pub split : w.sent ++ rest ≡ text
  pub end :
      (w.result ≡ some status_ok) × (rest ≡ [])
      ⊎ ((0 < length rest) × ((w.result ≡ none) ⊎ ((m : List ℕ) × (w.result ≡ some (io_error m)))))

done_Sends : (text : List ℕ) → text ≡ [] → Sends text (nothing_sent (some status_ok))
done_Sends text e = record { rest = []; split = sym e; end = inl (refl, refl) }

-- The entries of a round, which show the first of the bytes left.
abbrev pub Shown : Store → List Slice → List ℕ → Type 0
Shown s iov text = (rest : List ℕ) × (slices_string s iov ++ rest ≡ text)

-- There is an entry unless all is sent.
abbrev pub Filled : Store → List Slice → List ℕ → Type 0
Filled s iov text = (iov ≡ []) × (text ≡ []) ⊎ (0 < length (slices_string s iov))

nil_Filled : (s : Store) (text : List ℕ) → Filled s [] text → text ≡ []
unfolding slices_string
nil_Filled s text (inl e) = e.1
nil_Filled s text (inr h) = absurd (omega (arith, h))

pub cons_Filled :
    (s : Store) (v : Slice) (vs : List Slice) (text : List ℕ)
    → Filled s (v ∷ vs) text
    → 0 < length (slices_string s (v ∷ vs))
cons_Filled s v vs text (inl e) = absurd (cc e.0)
cons_Filled s v vs text (inr h) = h

pub length-Shown :
    (s : Store) (iov : List Slice) (text : List ℕ)
    → Shown s iov text
    → length (slices_string s iov) ≤ length text
length-Shown s iov text (rest, e) =
    omega (arith, ap length e, length-append (slices_string s iov) rest)

stopped_Sends :
    (s : Store) (v : Slice) (vs : List Slice) (text : List ℕ) (o : Option Status)
    → Shown s (v ∷ vs) text
    → Filled s (v ∷ vs) text
    → (o ≡ none) ⊎ ((m : List ℕ) × (o ≡ some (io_error m)))
    → Sends text (nothing_sent o)
stopped_Sends s v vs text o shown filled why = record {
  rest = text;
  split = refl;
  end =
      inr (omega (arith, length-Shown s (v ∷ vs) text shown, cons_Filled s v vs text filled), why);
}

-- A round, given what the rest of the loop does from any place.
module _ (s : Store) (rest : ℕ → List Slice → Written) (offset : ℕ) (xs : List Slice)
    (sized : Sized s xs) (within : Within offset xs)
    (later : (o : ℕ) (ys : List Slice)
      → Sized s ys
      → Within o ys
      → Sends (left s o ys) (rest o ys)) where
  take_bytes-Sends :
      (n : ℕ) (iov : List Slice)
      → Shown s iov (left s offset xs)
      → Sends (left s offset xs) (take_bytes rest n (slices_string s iov) offset xs)
  unfolding take_bytes
  take_bytes-Sends n iov (beyond, e) = record {
    rest = w.rest;
    split =
        append_assoc (take (suc n) bytes) _ w.rest
        ∙ ap (λ t. take (suc n) bytes ++ t) (w.split ∙ a.rest)
        ∙ ap (λ t. t ++ drop k (left s offset xs)) first
        ∙ take-append-drop k (left s offset xs);
    end = w.end;
  }
    where
      bytes : List ℕ
      bytes = slices_string s iov

      k : ℕ
      k = min (suc n) (length bytes)

      a : Advanced s k offset xs (advance k offset xs)
      a = advance-Advanced s k offset xs sized within

      w :
          Sends
            (left s (advance k offset xs).0 (advance k offset xs).1)
            (rest (advance k offset xs).0 (advance k offset xs).1)
      w = later (advance k offset xs).0 (advance k offset xs).1 a.sized a.within

      first : take (suc n) bytes ≡ take k (left s offset xs)
      first =
          sym (take-min_length (suc n) bytes)
          ∙ sym (take-append_le k bytes beyond (omega arith))
          ∙ ap (take k) e

  write_round-Sends :
      (a : Answer) (iov : List Slice)
      → Shown s iov (left s offset xs)
      → Filled s iov (left s offset xs)
      → Sends (left s offset xs) (write_round s rest a iov offset xs)
  unfolding write_round
  write_round-Sends a [] shown filled = done_Sends (left s offset xs) (nil_Filled s _ filled)
  write_round-Sends (Answer.takes n) (v ∷ vs) shown filled = take_bytes-Sends n (v ∷ vs) shown
  write_round-Sends (Answer.again true) (v ∷ vs) shown filled = later offset xs sized within
  write_round-Sends (Answer.again false) (v ∷ vs) shown filled =
      stopped_Sends s v vs _ _ shown filled (inr (_, refl))
  write_round-Sends Answer.takes_none (v ∷ vs) shown filled =
      stopped_Sends s v vs _ _ shown filled (inr (_, refl))
  write_round-Sends (Answer.fails m) (v ∷ vs) shown filled =
      stopped_Sends s v vs _ _ shown filled (inr (m, refl))

wait_round-Sends :
    (s : Store) (iov : List Slice) (text : List ℕ)
    → Shown s iov text
    → Filled s iov text
    → Sends text (wait_round iov)
unfolding wait_round
wait_round-Sends s [] text shown filled = done_Sends text (nil_Filled s text filled)
wait_round-Sends s (v ∷ vs) text shown filled =
    stopped_Sends s v vs text none shown filled (inl refl)

write_loop-Sends :
    (s : Store) (answers : List Answer) (offset : ℕ) (xs : List Slice)
    → Sized s xs
    → Within offset xs
    → Sends (left s offset xs) (write_loop s answers offset xs)
unfolding write_loop
write_loop-Sends s answers offset [] sized h = done_Sends (left s offset []) (left-nil s offset)
write_loop-Sends s [] offset (x ∷ xs) sized h =
    wait_round-Sends s _ _ (gather_iov-left s 64 offset (x ∷ xs) sized h)
      (gather_iov-filled s 63 offset (x ∷ xs) sized h)
write_loop-Sends s (a ∷ answers) offset (x ∷ xs) sized h =
    write_round-Sends s (write_loop s answers) offset (x ∷ xs) sized h
      (λ o ys. write_loop-Sends s answers o ys) a _ (gather_iov-left s 64 offset (x ∷ xs) sized h)
      (gather_iov-filled s 63 offset (x ∷ xs) sized h)

-- Whatever the kernel answers, `writeAll` of slices that show as many bytes as they say has sent the first
-- bytes of the chain, each once and in order. It has returned success exactly when all are sent, an
-- I/O error only when some are not, and else it waits with some left.
pub write_all-Sends :
    (s : Store) (answers : List Answer) (c : Chain)
    → Sized s c.slices
    → Sends (to_string_for_test s c) (write_all s answers c)
unfolding write_all to_string_for_test
write_all-Sends s answers c sized =
    write_loop-Sends s answers 0 c.slices sized (from_start c.slices)
