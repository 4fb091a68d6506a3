-- ===== src/Session/Parsing/Prefix.antt =====
-- src/client_session.cpp, `readerLoop`: a round forwards the longest prefix of valid commands.
use redis_proxy.Base.{
  ℕ, zero, suc, ◌+◌, ◌≤◌, ◌≡◌, refl, subst, inl, inr, true, false, [], arith, Bool-cases,
}
use redis_proxy.Status.{is_ok}
use redis_proxy.Rules.{CommandRules, validate}
use redis_proxy.Session.Parsing.{
  ParseStatus, RespFrameInfo, Peek, Scan, scan, scan_frame, first_scan, out_of_memory, bad_input,
}

-- `k` frames that parse and that the rules accept, one after the other, from offset `a` to offset `b`.
pub data Accepted (rules : CommandRules) (peek : Peek) : ℕ → ℕ → ℕ → Type 0 where
  nothing : {a b : ℕ} → a ≡ b → Accepted rules peek a 0 b
  frame :
      {a b k n : ℕ} (info : RespFrameInfo)
      → peek a ≡ (ParseStatus.k_ok, info)
      → is_ok (validate rules info.command_name info.argc) ≡ true
      → Accepted rules peek (a + info.consumed) k b
      → n ≡ suc k
      → Accepted rules peek a n b

-- Why a round stops at an offset, and what it leaves in its variables.
pub data Stops (rules : CommandRules) (peek : Peek) (budget at : ℕ) (s : Scan) : Type 0 where
  full : s.parsed ≡ budget → s.error ≡ [] → s.rejected_bytes ≡ 0 → Stops rules peek budget at s
  starved :
      (info : RespFrameInfo)
      → peek at ≡ (ParseStatus.k_need_more, info)
      → s.ps ≡ ParseStatus.k_need_more
      → s.error ≡ []
      → s.rejected_bytes ≡ 0
      → Stops rules peek budget at s
  no_memory :
      (info : RespFrameInfo)
      → peek at ≡ (ParseStatus.k_no_memory, info)
      → s.error ≡ out_of_memory
      → s.rejected_bytes ≡ 0
      → Stops rules peek budget at s
  broken :
      (info : RespFrameInfo)
      → peek at ≡ (ParseStatus.k_error, info)
      → s.error ≡ bad_input
      → s.rejected_bytes ≡ 0
      → Stops rules peek budget at s
  denied :
      (info : RespFrameInfo)
      → peek at ≡ (ParseStatus.k_ok, info)
      → is_ok (validate rules info.command_name info.argc) ≡ false
      → s.error ≡ (validate rules info.command_name info.argc).message
      → s.rejected_bytes ≡ info.consumed
      → Stops rules peek budget at s

-- A round from given variables.
abbrev Scans : CommandRules → Peek → ℕ → Scan → Scan → Type 0
Scans rules peek budget here s =
    (k : ℕ) × Accepted rules peek here.consumed k s.consumed
    × (s.parsed ≡ here.parsed + k)
    × (k ≤ budget)
    × Stops rules peek (here.parsed + budget) s.consumed s

-- The variables of a round that has not stopped.
abbrev Running : Scan → Type 0
Running s = (s.error ≡ []) × (s.rejected_bytes ≡ 0)

shift : (a b : ℕ) → suc a + b ≡ a + suc b
shift a b = omega arith

frame-Scans :
    (rules : CommandRules) (peek : Peek) (budget : ℕ) (here rest : Scan) (status : ParseStatus)
    (info : RespFrameInfo)
    → Running here
    → peek here.consumed ≡ (status, info)
    → Scans rules peek budget
        (record here {
          parsed = suc here.parsed;
          consumed = here.consumed + info.consumed;
          ps = ParseStatus.k_ok;
        })
        rest
    → Scans rules peek
        (suc budget)
        here
        (scan_frame status info (validate rules info.command_name info.argc) here rest)
unfolding scan_frame
frame-Scans rules peek budget here rest ParseStatus.k_need_more info (e, z) at ih =
    (0, nothing refl, omega arith, omega arith, starved info at refl e z)
frame-Scans rules peek budget here rest ParseStatus.k_no_memory info (e, z) at ih =
    (0, nothing refl, omega arith, omega arith, no_memory info at refl z)
frame-Scans rules peek budget here rest ParseStatus.k_error info (e, z) at ih =
    (0, nothing refl, omega arith, omega arith, broken info at refl z)
frame-Scans rules peek budget here rest ParseStatus.k_ok info (e, z) at (k, acc, n, le, st) =
    elim (Bool-cases (is_ok (validate rules info.command_name info.argc))) [
      | inl h ↦ rw h (
        suc k,
        frame info at h acc refl,
        omega (arith, n),
        omega (arith, le),
        subst (λ n. Stops rules peek n rest.consumed rest) (shift here.parsed budget) st,
      )
      | inr h ↦ rw h (0, nothing refl, omega arith, omega arith, denied info at h refl refl)
    ]

scan-Scans :
    (rules : CommandRules) (peek : Peek) (budget : ℕ) (here : Scan)
    → Running here
    → Scans rules peek budget here (scan rules peek budget here)
unfolding scan
scan-Scans rules peek zero here (e, z) =
    (0, nothing refl, omega arith, omega arith, full (omega arith) e z)
scan-Scans rules peek (suc budget) here (e, z) =
    frame-Scans rules peek budget here _ (peek here.consumed).0 (peek here.consumed).1 (e, z) refl
      (scan-Scans rules peek budget _ (e, z))

-- The commands up to the offset where the round stopped, and the reason.
abbrev pub Forwards : CommandRules → Peek → ℕ → Scan → Type 0
Forwards rules peek budget s =
    Accepted rules peek 0 s.parsed s.consumed
    × (s.parsed ≤ budget)
    × Stops rules peek budget s.consumed s

forwards :
    (rules : CommandRules) (peek : Peek) (budget : ℕ) (s : Scan)
    → Scans rules peek budget first_scan s
    → Forwards rules peek budget s
unfolding first_scan
forwards rules peek budget s (k, acc, n, le, st) = (
  subst (λ m. Accepted rules peek 0 m s.consumed) (omega (arith, n)) acc,
  omega (arith, n, le),
  subst (λ m. Stops rules peek m s.consumed s) (zero_plus budget) st,
)
  where
    zero_plus : (n : ℕ) → 0 + n ≡ n
    zero_plus n = omega arith

fresh : Running first_scan
unfolding first_scan
fresh = (refl, refl)

-- A round from the start of the input stops after some number of commands, at most the budget. Up to the
-- offset that it has consumed, every frame parses and the rules accept it. It stops for one of five
-- reasons, which its variables name: the budget is used up, or the next frame is incomplete, there is no
-- memory for it, it is broken, or the rules reject it.
pub scan-Forwards :
    (rules : CommandRules) (peek : Peek) (budget : ℕ)
    → Forwards rules peek budget (scan rules peek budget first_scan)
scan-Forwards rules peek budget =
    forwards rules peek budget _ (scan-Scans rules peek budget first_scan fresh)
