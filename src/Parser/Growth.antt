-- ===== src/Parser/Growth.antt =====
-- src/resp_parser.cpp, `unpack`: the rounds that make the arena larger.
use redis_proxy.Base.{
  ℕ, zero, suc, ◌+◌, ◌-◌, ◌≤◌, ◌<◌, ◌≡◌, ◌⊎◌, inl, inr, refl, Bool, false, List, Option, some,
  arith, min, ◌==◌, ltb, Bool-cases,
}
use redis_proxy.Parser.{
  Resp, RespResult, RespParser, RespLimits, max_slots, settle, unpack_loop, unpack_cut,
  no_memory_result, is_no_memory,
}

module _ {Value : Type 0} (resp : Resp Value) (alloc : ℕ → Bool) where
  -- How the loop ends with an arena of `scratch` slots: the allocation of a larger one fails, or the answer of
  -- the library is settled. It was asked with this arena, cut to what the input can fill, and that was
  -- enough or as much as the input can fill.
  pub data Answer (limits : RespLimits) (max_frame_bytes scratch : ℕ) (input : List ℕ)
      : RespResult Value → Type 0 where
    starved :
        {r : RespResult Value} (n : ℕ)
        → alloc n ≡ false
        → scratch < n
        → n ≤ max_slots input
        → r ≡ no_memory_result resp alloc
        → Answer limits max_frame_bytes scratch input r
    answered :
        {r : RespResult Value} (slots : ℕ)
        → 0 < slots
        → slots ≡ min scratch (max_slots input)
        → (is_no_memory (resp.unpack_one input slots limits).status ≡ false)
          ⊎ (slots ≡ max_slots input)
        → r ≡ settle resp alloc max_frame_bytes input (resp.unpack_one input slots limits)
        → Answer limits max_frame_bytes scratch input r

  -- An answer, and the parser afterwards: only the arena has changed; it has not shrunk, and if it has grown,
  -- then to no more than the input can fill.
  pub record Unpacked (p : RespParser) (input : List ℕ) (r : RespResult Value × RespParser)
      : Type 0 where
    pub answer : Answer p.limits p.max_frame_bytes r.1.scratch input r.0
    pub limits : r.1.limits ≡ p.limits
    pub max_frame_bytes : r.1.max_frame_bytes ≡ p.max_frame_bytes
    pub kept : p.scratch ≤ r.1.scratch
    pub arena : (r.1.scratch ≡ p.scratch) ⊎ (r.1.scratch ≤ max_slots input)

  abbrev pub Ends : RespParser → List ℕ → Option (RespResult Value × RespParser) → Type 0
  Ends p input o = (r : RespResult Value × RespParser) × (o ≡ some r) × Unpacked p input r

  -- The arena that the loop started from does not matter for the rest.
  regrown :
      (p : RespParser) (input : List ℕ) (n : ℕ) (o : Option (RespResult Value × RespParser))
      → p.scratch ≤ n
      → n ≤ max_slots input
      → Ends (record p { scratch = n }) input o
      → Ends p input o
  regrown p input n o grows small (r, e, u) = (
    r,
    e,
    record {
      answer = u.answer;
      limits = u.limits;
      max_frame_bytes = u.max_frame_bytes;
      kept = omega (arith, grows, u.kept);
      arena = elim u.arena [ inl h ↦ inr (omega (arith, h)) | inr h ↦ inr h ];
    },
  )

  unpack_loop-Ends :
      (fuel : ℕ) (p : RespParser) (input : List ℕ)
      → 0 < p.scratch
      → max_slots input < min p.scratch (max_slots input) + fuel
      → Ends p input (unpack_loop resp alloc fuel p input)
  unfolding unpack_loop
  unpack_loop-Ends zero p input pos enough = absurd (omega arith)
  unpack_loop-Ends (suc fuel) p input pos enough = elim (Bool-cases (is_no_memory answer.status)) [
    | inr fits ↦ rw fits (ended (inl fits))
    | inl short ↦ elim (Bool-cases (ltb slots (max_slots input))) [
      | inr full ↦ rw (short, full) (ended (inr (ground (arith, full))))
      | inl room ↦ elim (Bool-cases (alloc more)) [
        | inl taken ↦
            rw (short, room, taken)
              (regrown p input more _ (ground (arith, room)) (omega arith) (
                unpack_loop-Ends fuel (record p { scratch = more }) input (ground (arith, room))
                  (ground (arith, room))))
        | inr refused ↦
            rw (short, room, refused)
              (
                (no_memory_result resp alloc, p),
                refl,
                record {
                  answer = starved more refused (ground (arith, room)) (omega arith) refl;
                  limits = refl;
                  max_frame_bytes = refl;
                  kept = omega arith;
                  arena = inl refl;
                },
              )
      ]
    ]
  ]
    where
      slots : ℕ
      slots = min p.scratch (max_slots input)

      more : ℕ
      more = slots + min slots (max_slots input - slots)

      answer : RespResult Value
      answer = resp.unpack_one input slots p.limits

      ended :
          (is_no_memory answer.status ≡ false) ⊎ (slots ≡ max_slots input)
          → Ends p input (some (settle resp alloc p.max_frame_bytes input answer, p))
      ended why = (
        (settle resp alloc p.max_frame_bytes input answer, p),
        refl,
        record {
          answer = answered slots (omega arith) refl why refl;
          limits = refl;
          max_frame_bytes = refl;
          kept = omega arith;
          arena = inl refl;
        },
      )

  max_slots_pos : (input : List ℕ) → 0 < max_slots input
  unfolding max_slots
  max_slots_pos input = omega arith

  pub unpack_cut-Ends :
      (p : RespParser) (input : List ℕ) → Ends p input (unpack_cut resp alloc p input)
  unfolding unpack_cut
  unpack_cut-Ends p input = elim (Bool-cases (p.scratch == 0)) [
    | inr kept ↦ rw kept (
        unpack_loop-Ends (max_slots input) p input (ground arith)
          (ground (arith, max_slots_pos input)))
    | inl fresh ↦ elim (Bool-cases (alloc first)) [
      | inl taken ↦
          rw (fresh, taken)
            (regrown p input first _ (ground (arith, fresh)) (omega arith) (
              unpack_loop-Ends (max_slots input) (record p { scratch = first }) input
                (omega (arith, max_slots_pos input)) (omega (arith, max_slots_pos input))))
      | inr refused ↦
          rw (fresh, refused)
            (
              (no_memory_result resp alloc, p),
              refl,
              record {
                answer =
                    starved first refused (ground (arith, fresh, max_slots_pos input)) (omega arith)
                      refl;
                limits = refl;
                max_frame_bytes = refl;
                kept = omega arith;
                arena = inl refl;
              },
            )
    ]
  ]
    where
      first : ℕ
      first = min 16 (max_slots input)
