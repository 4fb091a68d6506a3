-- ===== src/Socket/Reading/Receiving.antt =====
-- src/co_socket.cpp, `CoSocket::readSome`: what the buffer holds afterwards.
use redis_proxy.Base.{
  ℕ, ◌<◌, ◌≡◌, refl, ◌⊎◌, inl, inr, true, false, List, [], ◌∷◌, Option, none, some, arith, length,
  take, length-take,
}
use redis_proxy.Status.{Status, status_ok, io_error, closed}
use redis_proxy.Buffer.Store.{Store}
use redis_proxy.Buffer.IoBuffer.{IoBuffer, reserve_writable, append_round, fill}
use redis_proxy.Buffer.IoBuffer.Valid.{Valid}
use redis_proxy.Buffer.IoBuffer.Writing.{
  Appends, Appends-trans, reserve_writable-Appends, append_round-Round,
}
use redis_proxy.Socket.{peer_closed}
use redis_proxy.Socket.Reading.{Answer, Received, receive, returned, read_round, read_some}

-- The bytes that the first `read` that does not fail with `EAGAIN` has to give.
abbrev offered : List Answer → List ℕ
offered [] = []
offered (Answer.gives c cs ∷ answers) = c ∷ cs
offered (Answer.again true ∷ answers) = offered answers
offered (Answer.again false ∷ answers) = []
offered (Answer.ends ∷ answers) = []
offered (Answer.fails m ∷ answers) = []

-- Success and some of the bytes offered, or no byte.
pub record Reads (answers : List Answer) (b : IoBuffer) (other : ℕ → ℕ) (s : Store) (r : Received)
    : Type 0 where
  pub count : ℕ
  pub appends : Appends (take count (offered answers)) b other s (r.store, r.buffer)
  pub end :
      (r.result ≡ some status_ok) × (0 < length (take count (offered answers)))
      ⊎ (take count (offered answers) ≡ [])
        × ((r.result ≡ none)
            ⊎ (r.result ≡ some (closed peer_closed))
            ⊎ ((m : List ℕ) × (r.result ≡ some (io_error m))))

receive-Appends :
    {other : ℕ → ℕ} (c : ℕ) (cs : List ℕ) (b : IoBuffer) (s : Store)
    → Valid s other b
    → (n : ℕ) × (0 < length (take n (c ∷ cs)))
      × Appends
          (take n (c ∷ cs))
          b
          other
          s
          (receive (c ∷ cs) (reserve_writable b s).1 (reserve_writable b s).0)
unfolding receive fill append_round
receive-Appends c cs b s v =
    let r = append_round-Round (c ∷ cs) b s v (omega arith) in
    (r.taken, omega (arith, length-take r.taken (c ∷ cs), r.progress), r.appends)

unread_Reads :
    {other : ℕ → ℕ} (answers : List Answer) (b : IoBuffer) (s : Store) (o : Option Status)
    → Valid s other b
    → (o ≡ none) ⊎ (o ≡ some (closed peer_closed)) ⊎ ((m : List ℕ) × (o ≡ some (io_error m)))
    → Reads answers b other s (returned o (reserve_writable b s))
unread_Reads answers b s o v why = record {
  count = 0;
  appends = reserve_writable-Appends b s v;
  end = inr (refl, why);
}

-- A buffer that is valid stays so, with room in its last block before each `read`. On success some of the
-- bytes that the kernel has to give stand behind those that the buffer had, at least one; on the end of the
-- stream, a timeout or an error, and while the call waits, the readable bytes are as before. Every other
-- holder of a block keeps the bytes that he reads there.
pub read_some-Reads :
    {other : ℕ → ℕ} (answers : List Answer) (b : IoBuffer) (s : Store)
    → Valid s other b
    → Reads answers b other s (read_some answers b s)
unfolding read_some read_round
read_some-Reads [] b s v = unread_Reads [] b s none v (inl refl)
read_some-Reads (Answer.gives c cs ∷ answers) b s v =
    let (n, more, a) = receive-Appends c cs b s v in
    record { count = n; appends = a; end = inl (refl, more) }
read_some-Reads (Answer.ends ∷ answers) b s v = unread_Reads _ b s _ v (inr (inl refl))
read_some-Reads (Answer.fails m ∷ answers) b s v = unread_Reads _ b s _ v (inr (inr (m, refl)))
read_some-Reads (Answer.again false ∷ answers) b s v = unread_Reads _ b s _ v (inr (inr (_, refl)))
read_some-Reads (Answer.again true ∷ answers) b s v =
    let a = reserve_writable-Appends b s v in
    let r = read_some-Reads answers (reserve_writable b s).1 (reserve_writable b s).0 a.valid in
    record {
      count = r.count;
      appends =
          Appends-trans [] (take r.count (offered answers)) b s (reserve_writable b s) _ a
            r.appends;
      end = r.end;
    }
