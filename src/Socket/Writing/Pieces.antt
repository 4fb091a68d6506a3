-- ===== src/Socket/Writing/Pieces.antt =====
-- src/co_socket.cpp, `CoSocket::writeAll`: the entries of `iov`, and the step over the bytes written.
use redis_proxy.Base.{
  ℕ, zero, suc, ◌+◌, ◌-◌, ◌≤◌, ◌<◌, ◌≡◌, refl, sym, ap, ◌∙◌, ◌⊎◌, inl, inr, false, List, [], ◌∷◌,
  ◌++◌, Option, none, some, append_assoc, length, take, drop, All, arith, ltb, leb, Bool-cases,
  drop-nil, drop-take, drop-drop, drop-append_le, drop-append_ge, length-drop, length-append,
}
use redis_proxy.Buffer.Store.{Store}
use redis_proxy.Buffer.Chain.{Slice, slice_bytes, slices_string}
use redis_proxy.Socket.Writing.{gather_iov, rest_of, advance}

-- Every slice shows as many bytes as it says.
abbrev pub Sized : Store → List Slice → Type 0
Sized s xs = All (λ x. length (slice_bytes s x) ≡ x.length) xs

-- The offset is in the first slice.
abbrev pub Within : ℕ → List Slice → Type 0
Within offset [] = Unit
Within offset (x ∷ xs) = offset ≤ x.length

-- The bytes that are left to write.
abbrev pub left : Store → ℕ → List Slice → List ℕ
left s offset xs = drop offset (slices_string s xs)

pub left-nil : (s : Store) (offset : ℕ) → left s offset [] ≡ []
unfolding slices_string
left-nil s offset = drop-nil offset

left-over :
    (s : Store) (offset : ℕ) (x : Slice) (xs : List Slice)
    → length (slice_bytes s x) ≡ x.length
    → offset ≡ x.length
    → left s offset (x ∷ xs) ≡ left s 0 xs
unfolding slices_string
left-over s offset x xs sized e =
    drop-append_ge offset (slice_bytes s x) (slices_string s xs) (omega (arith, sized, e))
    ∙ ap (λ k. drop k (slices_string s xs)) {y = 0} (omega (arith, sized, e))

left-inside :
    (s : Store) (offset : ℕ) (x : Slice) (xs : List Slice)
    → length (slice_bytes s x) ≡ x.length
    → offset ≤ x.length
    → left s offset (x ∷ xs) ≡ drop offset (slice_bytes s x) ++ slices_string s xs
unfolding slices_string
left-inside s offset x xs sized h =
    drop-append_le offset (slice_bytes s x) (slices_string s xs) (omega (arith, sized))

slice_bytes-rest_of :
    (s : Store) (offset : ℕ) (x : Slice)
    → slice_bytes s (rest_of offset x) ≡ drop offset (slice_bytes s x)
unfolding slice_bytes
slice_bytes-rest_of s offset x = of (x.block)
  where
    of :
        (o : Option ℕ)
        → slice_bytes s
            (record { block = o; offset = x.offset + offset; length = x.length - offset })
          ≡ drop offset (slice_bytes s (record x { block = o }))
    of none = sym (drop-nil offset)
    of (some p) = sym (
        drop-take offset x.length (drop x.offset (s.block p).bytes)
        ∙ ap (take (x.length - offset)) (drop-drop offset x.offset (s.block p).bytes))

slices_string-cons :
    (s : Store) (x : Slice) (xs : List Slice)
    → slices_string s (x ∷ xs) ≡ slice_bytes s x ++ slices_string s xs
unfolding slices_string
slices_string-cons s x xs = refl

slices_string-nil : (s : Store) (ys : List ℕ) → slices_string s [] ++ ys ≡ ys
unfolding slices_string
slices_string-nil s ys = refl

shorter : (x : Slice) (offset : ℕ) → leb x.length offset ≡ false → 0 < x.length - offset
shorter x offset inside = ground (arith, inside)

longer : (n m : ℕ) → ltb n m ≡ false → m ≤ n
longer n m long = ground (arith, long)

-- An entry, and the bytes behind it.
entry :
    (s : Store) (offset : ℕ) (x : Slice) (xs iov : List Slice) (rest : List ℕ)
    → length (slice_bytes s x) ≡ x.length
    → offset ≤ x.length
    → slices_string s iov ++ rest ≡ slices_string s xs
    → slices_string s (rest_of offset x ∷ iov) ++ rest ≡ left s offset (x ∷ xs)
entry s offset x xs iov rest sized h e =
    ap (λ t. t ++ rest) (slices_string-cons s (rest_of offset x) iov)
    ∙ append_assoc (slice_bytes s (rest_of offset x)) (slices_string s iov) rest
    ∙ ap (λ t. slice_bytes s (rest_of offset x) ++ t) e
    ∙ ap (λ t. t ++ slices_string s xs) (slice_bytes-rest_of s offset x)
    ∙ sym (left-inside s offset x xs sized h)

-- Bytes written past the end of the first slice.
left-long :
    (s : Store) (n offset : ℕ) (x : Slice) (xs : List Slice)
    → length (slice_bytes s x) ≡ x.length
    → offset ≤ x.length
    → x.length - offset ≤ n
    → drop n (left s offset (x ∷ xs)) ≡ drop (n - (x.length - offset)) (slices_string s xs)
left-long s n offset x xs sized h k =
    ap (drop n) (left-inside s offset x xs sized h)
    ∙ drop-append_ge n (drop offset (slice_bytes s x)) (slices_string s xs) (omega (arith, seen))
    ∙ ap (λ m. drop (n - m) (slices_string s xs)) seen
  where
    seen : length (drop offset (slice_bytes s x)) ≡ x.length - offset
    seen = omega (arith, length-drop offset (slice_bytes s x), sized)

pub from_start : (xs : List Slice) → Within 0 xs
from_start [] = tt
from_start (x ∷ xs) = omega arith

length-rest_of :
    (s : Store) (offset : ℕ) (x : Slice)
    → length (slice_bytes s x) ≡ x.length
    → length (slice_bytes s (rest_of offset x)) ≡ x.length - offset
length-rest_of s offset x sized =
    omega (
      arith,
      ap length (slice_bytes-rest_of s offset x),
      length-drop offset (slice_bytes s x),
      sized,
    )

-- The entries show the first of the bytes that are left.
pub gather_iov-left :
    (s : Store) (room offset : ℕ) (xs : List Slice)
    → Sized s xs
    → Within offset xs
    → (rest : List ℕ) × (slices_string s (gather_iov room offset xs) ++ rest ≡ left s offset xs)
unfolding gather_iov
gather_iov-left s zero offset xs sized h =
    (left s offset xs, slices_string-nil s (left s offset xs))
gather_iov-left s (suc room) offset [] sized h =
    ([], slices_string-nil s [] ∙ sym (left-nil s offset))
gather_iov-left s (suc room) offset (x ∷ xs) sized h = elim (Bool-cases (leb x.length offset)) [
  | inl over ↦
      rw (over, gather_iov)
        (let (rest, e) = gather_iov-left s (suc room) 0 xs sized.1 (from_start xs) in
          (rest, e ∙ sym (left-over s offset x xs sized.0 (ground (arith, over)))))
  | inr inside ↦
      rw (inside, gather_iov)
        (let (rest, e) = gather_iov-left s room 0 xs sized.1 (from_start xs) in
          (rest, entry s offset x xs (gather_iov room 0 xs) rest sized.0 h e))
]

-- There are none only if no byte is left.
pub gather_iov-filled :
    (s : Store) (room offset : ℕ) (xs : List Slice)
    → Sized s xs
    → Within offset xs
    → (gather_iov (suc room) offset xs ≡ []) × (left s offset xs ≡ [])
      ⊎ (0 < length (slices_string s (gather_iov (suc room) offset xs)))
unfolding gather_iov
gather_iov-filled s room offset [] sized h = inl (refl, left-nil s offset)
gather_iov-filled s room offset (x ∷ xs) sized h = elim (Bool-cases (leb x.length offset)) [
  | inl over ↦
      rw (over, gather_iov)
        (elim (gather_iov-filled s room 0 xs sized.1 (from_start xs)) [
          | inl e ↦ inl (e.0, left-over s offset x xs sized.0 (ground (arith, over)) ∙ e.1)
          | inr more ↦ inr more
        ])
  | inr inside ↦
      rw (inside, gather_iov)
        (inr (
          omega (
            arith,
            ap length (slices_string-cons s (rest_of offset x) (gather_iov room 0 xs)),
            length-append (slice_bytes s (rest_of offset x))
                (slices_string s (gather_iov room 0 xs)),
            length-rest_of s offset x sized.0,
            shorter x offset inside,
          )))
]

-- The step over the bytes written keeps the offset in the first slice, and leaves the other bytes.
pub record Advanced (s : Store) (n offset : ℕ) (xs : List Slice) (r : ℕ × List Slice) : Type 0 where
  pub sized : Sized s r.1
  pub within : Within r.0 r.1
  pub rest : left s r.0 r.1 ≡ drop n (left s offset xs)

pub advance-Advanced :
    (s : Store) (n offset : ℕ) (xs : List Slice)
    → Sized s xs
    → Within offset xs
    → Advanced s n offset xs (advance n offset xs)
unfolding advance
advance-Advanced s zero offset xs sized h = record { sized = sized; within = h; rest = refl }
advance-Advanced s (suc n) offset [] sized h = record {
  sized = sized;
  within = h;
  rest = left-nil s offset ∙ sym (ap (drop (suc n)) (left-nil s offset));
}
advance-Advanced s (suc n) offset (x ∷ xs) sized h =
    elim (Bool-cases (ltb (suc n) (x.length - offset))) [
      | inl short ↦
          rw (short, advance)
            (record {
              sized = sized;
              within = ground (arith, short);
              rest = sym (drop-drop (suc n) offset (slices_string s (x ∷ xs)));
            })
      | inr long ↦
          rw (long, advance)
            (let r =
                advance-Advanced s (suc n - (x.length - offset)) 0 xs sized.1 (from_start xs) in
              record {
                sized = r.sized;
                within = r.within;
                rest =
                    r.rest
                    ∙ sym (
                        left-long s (suc n) offset x xs sized.0 h
                          (longer (suc n) (x.length - offset) long));
              })
    ]
