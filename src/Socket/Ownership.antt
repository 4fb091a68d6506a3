-- ===== src/Socket/Ownership.antt =====
-- src/co_socket.cpp: who owns a descriptor, over any sequence of operations on sockets.
use redis_proxy.Base.{
  ℕ, zero, suc, ◌+◌, ◌≡◌, ◌≢◌, refl, ap, ◌∙◌, inl, inr, false, List, [], ◌∷◌, ◌++◌, Option, none,
  some, arith, ◌==◌, if◌then◌else◌, get_elem?, get_elem?-set_ne, set, Bool-cases, Option-cases,
}
use redis_proxy.Buffer.Health.{count}
use redis_proxy.Buffer.IoBuffer.Valid.{count-append}
use redis_proxy.Socket.{
  CoSocket, Call, new_socket, release, close, reset, move, move_assign, call_with,
}

-- The sockets of a program, the descriptors that they have closed, and those given to its other parts.
pub record World : Type 0 where
  pub sockets : List CoSocket
  pub closed : List ℕ
  pub given : List ℕ

abbrev pub empty_world : World
empty_world = record { sockets = []; closed = []; given = [] }

-- An operation: a socket is made for a descriptor, or from another by a move; the socket at an index is
-- closed (also by its destructor), takes a new descriptor, releases its own, or is assigned another.
pub data Operation : Type 0 where
  makes : ℕ → Operation
  moves : ℕ → Operation
  closes : ℕ → Operation
  resets : ℕ → ℕ → Operation
  releases : ℕ → Operation
  assigns : ℕ → ℕ → Operation

abbrev fds_of : Option ℕ → List ℕ
fds_of none = []
fds_of (some fd) = fd ∷ []

abbrev closings : List Call → List ℕ
closings [] = []
closings (Call.closes fd ∷ calls) = fd ∷ closings calls
closings (Call.shuts fd ∷ calls) = closings calls
closings (Call.shuts_read fd ∷ calls) = closings calls

abbrev pub put : ℕ → CoSocket → List Call → World → World
put i c calls w = record w { sockets = set w.sockets i c; closed = w.closed ++ closings calls }

-- There is no socket at an index out of range.
abbrev pub at : World → Option CoSocket → (CoSocket → World) → World
at w none f = w
at w (some c) f = f c

-- `if (this != &other)`, and the move.
unfoldable pub assign : ℕ → ℕ → World → World
unfolding move_assign
assign i j w =
    if i == j
    then w
    else at w (get_elem? w.sockets i) (λ c.
      at w (get_elem? w.sockets j)
        (λ d. let (c', d', calls) = move_assign c d in put j d' [] (put i c' calls w)))

unfoldable pub step : Operation → World → World
unfolding new_socket move close reset release assign
step (Operation.makes fd) w = record w { sockets = new_socket (some fd) ∷ w.sockets }
step (Operation.moves i) w =
    at w (get_elem? w.sockets i) (λ c.
      let (c', d) = move c in let w' = put i d [] w in record w' { sockets = c' ∷ w'.sockets })
step (Operation.closes i) w =
    at w (get_elem? w.sockets i) (λ c. let (c', calls) = close c in put i c' calls w)
step (Operation.resets i fd) w =
    at w (get_elem? w.sockets i) (λ c. let (c', calls) = reset (some fd) c in put i c' calls w)
step (Operation.releases i) w = at w (get_elem? w.sockets i) (λ c.
    let (c', fd) = release c in
    let w' = put i c' [] w in record w' { given = w'.given ++ fds_of fd })
step (Operation.assigns i j) w = assign i j w

abbrev if_found : Option CoSocket → ℕ → List ℕ
if_found none fd = []
if_found (some c) fd = fd ∷ []

-- The descriptor that an operation hands to a socket.
unfoldable adopted : Operation → World → List ℕ
adopted (Operation.makes fd) w = fd ∷ []
adopted (Operation.resets i fd) w = if_found (get_elem? w.sockets i) fd
adopted (Operation.moves i) w = []
adopted (Operation.closes i) w = []
adopted (Operation.releases i) w = []
adopted (Operation.assigns i j) w = []

unfoldable pub run : List Operation → World → World
unfolding step
run [] w = w
run (o ∷ os) w = run os (step o w)

unfoldable pub all_adopted : List Operation → World → List ℕ
unfolding adopted step
all_adopted [] w = []
all_adopted (o ∷ os) w = adopted o w ++ all_adopted os (step o w)

-- The descriptors that the sockets own.
unfoldable pub held : List CoSocket → List ℕ
held [] = []
held (c ∷ cs) = fds_of c.fd ++ held cs

-- How often a descriptor is owned, has been closed or has been given away.
abbrev accounted : ℕ → World → ℕ
accounted q w = count q (held w.sockets) + count q w.closed + count q w.given

-- A socket put in the place of another.
held-set :
    (q i : ℕ) (cs : List CoSocket) (c d : CoSocket)
    → get_elem? cs i ≡ some c
    → count q (held (set cs i d)) + count q (fds_of c.fd)
      ≡ count q (held cs) + count q (fds_of d.fd)
unfolding held
held-set q i [] c d e = absurd (cc e)
held-set q zero (b ∷ cs) c d e = omega (
  arith,
  ap (λ x. count q (fds_of x.fd)) (same b c e),
  count-append q (fds_of d.fd) (held cs),
  count-append q (fds_of b.fd) (held cs),
)
  where
    same : (x y : CoSocket) → some x ≡ some y → x ≡ y
    same x y h = cc h
held-set q (suc i) (b ∷ cs) c d e = omega (
  arith,
  held-set q i cs c d e,
  count-append q (fds_of b.fd) (held (set cs i d)),
  count-append q (fds_of b.fd) (held cs),
)

accounted-put :
    (q i : ℕ) (c d : CoSocket) (calls : List Call) (w : World)
    → get_elem? w.sockets i ≡ some c
    → accounted q (put i d calls w) + count q (fds_of c.fd)
      ≡ accounted q w + count q (fds_of d.fd) + count q (closings calls)
accounted-put q i c d calls w e =
    omega (arith, held-set q i w.sockets c d e, count-append q w.closed (closings calls))

closings-close :
    (q : ℕ) (fd : Option ℕ) → count q (closings (call_with Call.closes fd)) ≡ count q (fds_of fd)
closings-close q none = refl
closings-close q (some fd) = refl

-- What an operation does to a descriptor.
abbrev Accounts : ℕ → ℕ → World → World → Type 0
Accounts q new w v = accounted q v ≡ accounted q w + new

-- An operation on the socket at an index.
at-Accounts :
    (q i n : ℕ) (w : World) (f : CoSocket → World)
    → ((c : CoSocket) → get_elem? w.sockets i ≡ some c → Accounts q n w (f c))
    → (get_elem? w.sockets i ≡ none → n ≡ 0)
    → Accounts q n w (at w (get_elem? w.sockets i) f)
at-Accounts q i n w f h k = elim (Option-cases (get_elem? w.sockets i)) [
  | inl e ↦ ap (λ o. accounted q (at w o f)) e ∙ omega (arith, k e)
  | inr (c, e) ↦ ap (λ o. accounted q (at w o f)) e ∙ h c e
]

held_cons :
    (q : ℕ) (c : CoSocket) (cs : List CoSocket)
    → count q (held (c ∷ cs)) ≡ count q (fds_of c.fd) + count q (held cs)
unfolding held
held_cons q c cs = count-append q (fds_of c.fd) (held cs)

-- The calls of `close` on the old descriptor, with another one put in its place.
closing-Accounts :
    (q i : ℕ) (fd : Option ℕ) (c : CoSocket) (w : World)
    → get_elem? w.sockets i ≡ some c
    → Accounts q (count q (fds_of fd)) w (put i (record { fd = fd }) (call_with Call.closes c.fd) w)
closing-Accounts q i fd c w e = omega (
  arith,
  accounted-put q i c (record { fd = fd }) (call_with Call.closes c.fd) w e,
  closings-close q c.fd,
)

assign-Accounts : (q i j : ℕ) (w : World) → Accounts q 0 w (assign i j w)
unfolding assign
assign-Accounts q i j w = elim (Bool-cases (i == j)) [
  | inl same ↦ rw (same, assign) (omega arith)
  | inr other ↦
      rw (other, assign)
        (at-Accounts q i 0 w _
          (λ c e.
            at-Accounts q j 0 w _
              (λ d k. omega (
                arith,
                closing-Accounts q i d.fd c w e,
                accounted-put q j d (record { fd = none }) []
                    (put i (record { fd = d.fd }) (call_with Call.closes c.fd) w)
                    (get_elem?-set_ne i j w.sockets (record { fd = d.fd }) (apart other) ∙ k),
              ))
              (λ _. refl))
          (λ _. refl))
]
  where
    apart : (i == j) ≡ false → i ≢ j
    apart other same = ground (arith, other)

step-Accounts :
    (q : ℕ) (o : Operation) (w : World) → Accounts q (count q (adopted o w)) w (step o w)
unfolding step adopted
step-Accounts q (Operation.makes fd) w =
    omega (arith, held_cons q (record { fd = some fd }) w.sockets)
step-Accounts q (Operation.moves i) w =
    at-Accounts q i 0 w _
      (λ c e. omega (
        arith,
        accounted-put q i c (record { fd = none }) [] w e,
        held_cons q c (set w.sockets i (record { fd = none })),
      ))
      (λ _. refl)
step-Accounts q (Operation.closes i) w =
    at-Accounts q i 0 w _ (λ c e. closing-Accounts q i none c w e) (λ _. refl)
step-Accounts q (Operation.resets i fd) w =
    at-Accounts q i _ w _
      (λ c e.
        closing-Accounts q i (some fd) c w e ∙ omega (arith, ap (λ o. count q (if_found o fd)) e))
      (λ e. ap (λ o. count q (if_found o fd)) e)
step-Accounts q (Operation.releases i) w =
    at-Accounts q i 0 w _
      (λ c e. omega (
        arith,
        accounted-put q i c (record { fd = none }) [] w e,
        count-append q w.given (fds_of c.fd),
      ))
      (λ _. refl)
step-Accounts q (Operation.assigns i j) w = assign-Accounts q i j w

run-Accounts :
    (q : ℕ) (os : List Operation) (w : World) → Accounts q (count q (all_adopted os w)) w (run os w)
unfolding run all_adopted
run-Accounts q [] w = omega arith
run-Accounts q (o ∷ os) w = omega (
  arith,
  run-Accounts q os (step o w),
  step-Accounts q o w,
  count-append q (adopted o w) (all_adopted os (step o w)),
)

empty_accounted : (q : ℕ) → accounted q empty_world ≡ 0
unfolding held
empty_accounted q = refl

-- Over any sequence of operations on sockets, self-assignment and moves from empty sockets included, a
-- descriptor is owned by a socket, has been closed, or has been released as often, all told, as it was
-- handed to a socket: none is lost, and one that was handed over once is not closed twice, nor closed while
-- a socket owns it.
pub run_accounted :
    (os : List Operation) (q : ℕ)
    → count q (held (run os empty_world).sockets)
        + count q (run os empty_world).closed
        + count q (run os empty_world).given
      ≡ count q (all_adopted os empty_world)
run_accounted os q = omega (arith, run-Accounts q os empty_world, empty_accounted q)
