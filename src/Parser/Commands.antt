-- ===== src/Parser/Commands.antt =====
-- src/resp_parser.cpp, `extractCommandInfo` and the end of `peekFrame`: which results are commands.
use redis_proxy.Base.{
  ℕ, suc, ◌≡◌, refl, ap, Bool, true, false, List, [], ◌∷◌, All, Option, none, some, length,
  Bool-cases, inl, inr,
}
use redis_proxy.Parser.{
  Resp, RespResult, RespStatus, ParseStatus, RespFrameInfo, all_bulk_strings, command_of, is_ok,
  extract_command_info, extract_from, framed, convert, frame_of,
}

pub is_ok-eq : (st : RespStatus) → is_ok st ≡ true → st ≡ RespStatus.k_ok
is_ok-eq RespStatus.k_ok h = refl
is_ok-eq RespStatus.k_need_more h = absurd (cc h)
is_ok-eq RespStatus.k_no_memory h = absurd (cc h)
is_ok-eq RespStatus.k_error h = absurd (cc h)

module _ {Value : Type 0} (resp : Resp Value) (alloc : ℕ → Bool) where
  -- A value is an array of a first bulk string and others.
  abbrev IsCommand : Option Value → Value → List Value → Type 0
  IsCommand value first rest =
      (v : Value) × (value ≡ some v)
      × (resp.is_array v ≡ true)
      × (resp.elements v ≡ some (first ∷ rest))
      × All (λ e. resp.is_bulk_string e ≡ true) (first ∷ rest)

  -- What is to be seen in a result of the library.
  pub data Sees (r : RespResult Value) (a : ParseStatus × Option RespFrameInfo) : Type 0 where
    command :
        (first : Value) (rest : List Value)
        → r.status ≡ RespStatus.k_ok
        → IsCommand r.value first rest
        → a ≡ (
          ParseStatus.k_ok,
          some (record {
            consumed = r.consumed;
            command_name = resp.text first;
            argc = suc (length rest);
          }),
        )
        → Sees r a
    no_command :
        r.status ≡ RespStatus.k_ok
        → ((first : Value) (rest : List Value) → ¬ IsCommand r.value first rest)
        → a ≡ (ParseStatus.k_error, none)
        → Sees r a
    short : r.status ≡ RespStatus.k_need_more → a ≡ (ParseStatus.k_need_more, none) → Sees r a
    starved : r.status ≡ RespStatus.k_no_memory → a ≡ (ParseStatus.k_no_memory, none) → Sees r a
    malformed : r.status ≡ RespStatus.k_error → a ≡ (ParseStatus.k_error, none) → Sees r a

  all_bulk_strings-All :
      (vs : List Value)
      → all_bulk_strings resp alloc vs ≡ true
      → All (λ e. resp.is_bulk_string e ≡ true) vs
  unfolding all_bulk_strings
  all_bulk_strings-All [] h = tt
  all_bulk_strings-All (v ∷ vs) h = elim (Bool-cases (resp.is_bulk_string v)) [
    | inl e ↦ (e, all_bulk_strings-All vs (rw e at h))
    | inr e ↦ absurd (cc (rw e at h))
  ]

  All-all_bulk_strings :
      (vs : List Value)
      → All (λ e. resp.is_bulk_string e ≡ true) vs
      → all_bulk_strings resp alloc vs ≡ true
  unfolding all_bulk_strings
  All-all_bulk_strings [] h = refl
  All-all_bulk_strings (v ∷ vs) h = rw h.0 (All-all_bulk_strings vs h.1)

  -- The outcome of the loop over the elements, and the one with no elements.
  Commands : Option Value → Option RespFrameInfo → Type 0
  Commands value none = (first : Value) (rest : List Value) → ¬ IsCommand value first rest
  Commands value (some info) =
      (first : Value) × (rest : List Value) × IsCommand value first rest
      × (info ≡ record { consumed = 0; command_name = resp.text first; argc = suc (length rest) })

  command_of-Commands :
      (v : Value) (es : Option (List Value))
      → resp.is_array v ≡ true
      → resp.elements v ≡ es
      → Commands (some v) (command_of resp alloc es)
  unfolding command_of Commands
  command_of-Commands v none a e = λ first rest (w, p, q, f, h). cc (p, e, f)
  command_of-Commands v (some []) a e = λ first rest (w, p, q, f, h). cc (p, e, f)
  command_of-Commands v (some (x ∷ xs)) a e =
      elim (Bool-cases (all_bulk_strings resp alloc (x ∷ xs))) [
        | inl ok ↦ rw ok (x, xs, (v, refl, a, e, all_bulk_strings-All (x ∷ xs) ok), refl)
        | inr bad ↦
            rw bad (λ first rest (w, p, q, f, h).
              cc (p, e, f, bad, All-all_bulk_strings (first ∷ rest) h))
      ]

  extract_from-Commands : (value : Option Value) → Commands value (extract_from resp alloc value)
  unfolding extract_from extract_command_info Commands
  extract_from-Commands none = λ first rest (w, p, q, f, h). cc p
  extract_from-Commands (some v) = elim (Bool-cases (resp.is_array v)) [
    | inl a ↦ rw a (command_of-Commands v (resp.elements v) a refl)
    | inr a ↦ rw a (λ first rest (w, p, q, f, h). cc (p, q, a))
  ]

  framed-Sees :
      (r : RespResult Value) (o : Option RespFrameInfo)
      → r.status ≡ RespStatus.k_ok
      → Commands r.value o
      → Sees r (framed resp alloc r.consumed o)
  unfolding framed Commands
  framed-Sees r none ok c = Sees.no_command ok c refl
  framed-Sees r (some info) ok (first, rest, h, e) =
      Sees.command first rest ok h
        (ap (λ i. (ParseStatus.k_ok, some (record i { consumed = r.consumed }))) e)

  waiting-Sees :
      (r : RespResult Value) (st : RespStatus)
      → r.status ≡ st
      → is_ok st ≡ false
      → Sees r (convert st, none)
  unfolding convert
  waiting-Sees r RespStatus.k_ok e h = absurd (cc h)
  waiting-Sees r RespStatus.k_need_more e h = Sees.short e refl
  waiting-Sees r RespStatus.k_no_memory e h = Sees.starved e refl
  waiting-Sees r RespStatus.k_error e h = Sees.malformed e refl

  pub frame_of-Sees : (r : RespResult Value) → Sees r (frame_of resp alloc r)
  unfolding frame_of
  frame_of-Sees r = elim (Bool-cases (is_ok r.status)) [
    | inl ok ↦ rw ok (framed-Sees r _ (is_ok-eq r.status ok) (extract_from-Commands r.value))
    | inr not_ok ↦ rw not_ok (waiting-Sees r r.status refl not_ok)
  ]
