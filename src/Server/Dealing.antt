-- ===== src/Server/Dealing.antt =====
-- src/proxy_server.cpp, `acceptLoop`: every connection goes to one worker, and the workers get equal shares.
use native.Mathlib.Nat.{mod-eq_of_lt, mod_self}
use native.Mathlib.Decide.{dec_lt, ℕ_discrete}
use redis_proxy.Base.{
  ℕ, zero, suc, ◌+◌, ◌<◌, ◌%◌, ◌≡◌, ◌≢◌, refl, sym, ap, subst, ◌∙◌, inl, inr, true, List, [], ◌∷◌,
  ◌++◌, some, arith, append-nil, length, length-append, length-set, length-replicate, get_elem?,
  get_elem?-lt, get_elem?-set_self, get_elem?-set_ne, get_elem?-replicate, set, Bool-cases, ◌==◌,
  ==_refl, if◌then◌else◌,
}
use redis_proxy.Buffer.Health.{count}
use redis_proxy.Buffer.IoBuffer.Valid.{count-append}
use redis_proxy.Worker.{Worker, new_worker, push_fd, Step, Steps}
use redis_proxy.Server.{Server, start, accept, dispatch_to, Move, Moves}
use redis_proxy.Server.Shares.{total, total-one, Even, Next, next-Even}

-- What the acceptor has dealt to each of `n` workers of the descriptors accepted.
pub record Serves (n : ℕ) (all : List ℕ) (v : Server) : Type 0 where
  pub dealt : ℕ → List ℕ
  pub size : length v.workers ≡ n
  pub next : v.next_worker < n
  -- Each worker runs with its share.
  pub runs : (i : ℕ) (w : Worker) → get_elem? v.workers i ≡ some w → Steps new_worker (dealt i) w
  -- Each connection is in one share, once.
  pub parted : (fd : ℕ) → total (λ i. count fd (dealt i)) n ≡ count fd all
  pub even : Even n v.next_worker (λ i. length (dealt i))

next-mod : (k n : ℕ) → k < n → Next n k (suc k % n)
next-mod k n h = elim (dec_lt (suc k) n) [
  | yes below ↦ inl (mod-eq_of_lt below, omega (arith, mod-eq_of_lt below, below))
  | no last ↦ let e : suc k ≡ n = omega (arith, last, h) in inr (ap (λ m. m % n) e ∙ mod_self n, e)
]

-- The shares after a connection has gone to worker `k`.
abbrev more_dealt : (ℕ → List ℕ) → ℕ → ℕ → ℕ → List ℕ
more_dealt dealt k fd i = if k == i then dealt i ++ fd ∷ [] else dealt i

module _ (dealt : ℕ → List ℕ) (k fd : ℕ) where
  dealt_self : more_dealt dealt k fd k ≡ dealt k ++ fd ∷ []
  dealt_self = ap (λ b. if b then dealt k ++ fd ∷ [] else dealt k) (==_refl k)

  dealt-ne : (i : ℕ) → k ≢ i → more_dealt dealt k fd i ≡ dealt i
  dealt-ne i ne = elim (Bool-cases (k == i)) [
    | inl e ↦ absurd (ne (ground (arith, e)))
    | inr e ↦ ap (λ b. if b then dealt i ++ fd ∷ [] else dealt i) e
  ]

  dealt-parted :
      (q n : ℕ)
      → k < n
      → total (λ i. count q (more_dealt dealt k fd i)) n
        ≡ total (λ i. count q (dealt i)) n + count q (fd ∷ [])
  dealt-parted q n h = omega (
    arith,
    total-one (λ i. count q (more_dealt dealt k fd i)) (λ i. count q (dealt i)) n k h
        (λ i ne. ap (count q) (dealt-ne i ne)),
    ap (count q) dealt_self,
    count-append q (dealt k) (fd ∷ []),
  )

  dealt-longer : length (more_dealt dealt k fd k) ≡ suc (length (dealt k))
  dealt-longer = ap length dealt_self ∙ omega (arith, length-append (dealt k) (fd ∷ []))

  dealt-length : (i : ℕ) → k ≢ i → length (more_dealt dealt k fd i) ≡ length (dealt i)
  dealt-length i ne = ap length (dealt-ne i ne)

  dealt-runs :
      (ws : List Worker) (w : Worker)
      → get_elem? ws k ≡ some w
      → ((i : ℕ) (u : Worker) → get_elem? ws i ≡ some u → Steps new_worker (dealt i) u)
      → (i : ℕ) (u : Worker) → get_elem? (set ws k (push_fd fd w)) i ≡ some u
      → Steps new_worker (more_dealt dealt k fd i) u
  dealt-runs ws w at runs i u e = elim (ℕ_discrete k i) [
    | yes same ↦
        subst (λ j. Steps new_worker (more_dealt dealt k fd j) u) same
          (Steps.after (runs k w at)
            (Step.dispatches fd (
              sym (
                get_elem?-set_self ws k (push_fd fd w) u
                  (ap (λ j. get_elem? (set ws k (push_fd fd w)) j) same ∙ e))))
            dealt_self)
    | no ne ↦
        subst (λ xs. Steps new_worker xs u) (sym (dealt-ne i ne))
          (runs i u (sym (get_elem?-set_ne k i ws (push_fd fd w) ne) ∙ e))
  ]

-- The server after a connection has gone to the next worker.
dealt-Serves :
    (n : ℕ) (all : List ℕ) (fd : ℕ) (v : Server) (w : Worker) (m : ℕ)
    → (s : Serves n all v) → get_elem? v.workers v.next_worker ≡ some w
    → Next n v.next_worker m
    → Serves n
        (all ++ fd ∷ [])
        (record { workers = set v.workers v.next_worker (push_fd fd w); next_worker = m })
dealt-Serves n all fd v w m s at to = record {
  dealt = more_dealt s.dealt k fd;
  size = length-set v.workers k (push_fd fd w) ∙ s.size;
  next = elim to [ inl h ↦ h.1 | inr h ↦ omega (arith, h.0, s.next) ];
  runs = dealt-runs s.dealt k fd v.workers w at s.runs;
  parted = λ q.
      omega (arith, dealt-parted s.dealt k fd q n s.next, s.parted q, count-append q all (fd ∷ []));
  even =
      next-Even n k m (λ i. length (s.dealt i)) (λ i. length (more_dealt s.dealt k fd i)) s.next to
        (dealt-longer s.dealt k fd) (dealt-length s.dealt k fd) s.even;
}
  where
    k : ℕ
    k = v.next_worker

accept-Serves :
    (n : ℕ) (all : List ℕ) (fd : ℕ) (v : Server)
    → Serves n all v
    → Serves n (all ++ fd ∷ []) (accept fd v)
unfolding accept
accept-Serves n all fd v s =
    let (w, e) = get_elem?-lt v.workers v.next_worker (omega (arith, s.size, s.next)) in
    subst
      (λ o.
        Serves n (all ++ fd ∷ [])
          (record (dispatch_to o fd v) { next_worker = suc v.next_worker % length v.workers }))
      (sym e)
      (dealt-Serves n all fd v w (suc v.next_worker % length v.workers) s e (
        subst (λ k. Next n v.next_worker (suc v.next_worker % k)) (sym s.size)
          (next-mod v.next_worker n s.next)))

-- A step of a worker's own.
works-Serves :
    (n : ℕ) (all : List ℕ) (v : Server) (i : ℕ) (w w' : Worker)
    → get_elem? v.workers i ≡ some w
    → Step w [] w'
    → Serves n all v
    → Serves n all (record v { workers = set v.workers i w' })
works-Serves n all v i w w' at x s = record {
  dealt = s.dealt;
  size = length-set v.workers i w' ∙ s.size;
  next = s.next;
  runs = λ j u e. elim (ℕ_discrete i j) [
    | yes same ↦
        subst (λ k. Steps new_worker (s.dealt k) u) same
          (subst (Steps new_worker (s.dealt i))
            (get_elem?-set_self v.workers i w' u
              (ap (λ k. get_elem? (set v.workers i w') k) same ∙ e))
            (Steps.after (s.runs i w at) x (sym (append-nil (s.dealt i)))))
    | no ne ↦ s.runs j u (sym (get_elem?-set_ne i j v.workers w' ne) ∙ e)
  ];
  parted = s.parted;
  even = s.even;
}

Move-Serves :
    (n : ℕ) (all more : List ℕ) (v u : Server)
    → Serves n all v
    → Move v more u
    → Serves n (all ++ more) u
Move-Serves n all more v u s (Move.accepts fd to) =
    subst (Serves n (all ++ fd ∷ [])) (sym to) (accept-Serves n all fd v s)
Move-Serves n all more v u s (Move.polls to) =
    subst (λ xs. Serves n xs u) (sym (append-nil all)) (subst (Serves n all) (sym to) s)
Move-Serves n all more v u s (Move.works i w w' at x to) =
    subst (λ xs. Serves n xs u) (sym (append-nil all))
      (subst (Serves n all) (sym to) (works-Serves n all v i w w' at x s))

total-zero : (n : ℕ) → total (λ i. 0) n ≡ 0
total-zero zero = refl
total-zero (suc n) = omega (arith, total-zero n)

start-Serves : (n : ℕ) (v : Server) → 0 < n → start true n ≡ some v → Serves n [] v
unfolding start
start-Serves n v h e = subst (Serves n []) (unwrap _ v e) (record {
  dealt = λ i. [];
  size = length-replicate n new_worker;
  next = h;
  runs = λ i w at.
      subst (Steps new_worker []) (get_elem?-replicate n i new_worker w at) Steps.none_yet;
  parted = λ q. total-zero n;
  even = record { rounds = 0; ahead = λ i b. absurd (omega (arith, b)); behind = λ i b l. refl };
})
  where
    unwrap : (x y : Server) → some x ≡ some y → x ≡ y
    unwrap x y p = cc p

-- A server that has started with some workers, after any interleaving of the acceptor and the workers: each
-- worker is in a state that it can come to with its share of the connections, every connection accepted is
-- in exactly one share, and the workers before the next one have one connection more than the others,
-- which all have the same number.
pub Moves-Serves :
    (n : ℕ) (v : Server) (all : List ℕ) (u : Server)
    → 0 < n
    → start true n ≡ some v
    → Moves v all u
    → Serves n all u
Moves-Serves n v all u h e Moves.none_yet = start-Serves n v h e
Moves-Serves n v all u h e (Moves.after {u = m} {xs} {ys} r x to) =
    subst (λ zs. Serves n zs u) (sym to) (Move-Serves n xs ys m u (Moves-Serves n v xs m h e r) x)
