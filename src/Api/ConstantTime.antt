-- ===== src/Api/ConstantTime.antt =====
-- The comparison of secrets is equality.
use native.Mathlib.Nat.{two-pow-succ}
use ratatoskr_channel_digest.Prelude.{
  ℕ, zero, suc, ◌+◌, ◌/◌, ◌^◌, ◌<◌, max, true, [], ◌∷◌, length, ==_iff, ◌≡◌, ◌↔◌, refl, ap, sym,
  ◌∙◌, subst, arith, All,
}
use ratatoskr_channel_digest.Contracts.{Bytes}
use ratatoskr_channel_digest.Api.{xor, or, byte_at, differences, constant_time_equal}

xor-same : (w a : ℕ) → xor w a a ≡ 0
unfolding xor
xor-same zero a = refl
xor-same (suc w) a = omega (arith, xor-same w (a / 2))

or_zero : (w : ℕ) → or w 0 0 ≡ 0
unfolding or
or_zero zero = refl
or_zero (suc w) = omega (arith, or_zero w)

xor-lt : (w a b : ℕ) → xor w a b < 2 ^ w
unfolding xor
xor-lt zero a b = omega arith
xor-lt (suc w) a b = omega (arith, xor-lt w (a / 2) (b / 2), two-pow-succ w)

or-lt : (w a b : ℕ) → or w a b < 2 ^ w
unfolding or
or-lt zero a b = omega arith
or-lt (suc w) a b = omega (arith, or-lt w (a / 2) (b / 2), two-pow-succ w)

halved : (w a : ℕ) → a < 2 ^ suc w → a / 2 < 2 ^ w
halved w a h = omega (arith, h, two-pow-succ w)

xor-eq : (w a b : ℕ) → a < 2 ^ w → b < 2 ^ w → xor w a b ≡ 0 → a ≡ b
unfolding xor
xor-eq zero a b h k e = omega (arith, h, k)
xor-eq (suc w) a b h k e =
    let same : a / 2 ≡ b / 2 =
      xor-eq w (a / 2) (b / 2) (halved w a h) (halved w b k) (omega (arith, e)) in
    omega (arith, e, same)

or-zero : (w a b : ℕ) → a < 2 ^ w → b < 2 ^ w → or w a b ≡ 0 → (a ≡ 0) × (b ≡ 0)
unfolding or
or-zero zero a b h k e = (omega (arith, h), omega (arith, k))
or-zero (suc w) a b h k e =
    let both = or-zero w (a / 2) (b / 2) (halved w a h) (halved w b k) (omega (arith, e)) in
    (omega (arith, e, both.0), omega (arith, e, both.1))

-- A value of type `u8`.
abbrev pub IsByte : ℕ → Type 0
IsByte b = b < 256

byte_at-IsByte : (bs : Bytes) (i : ℕ) → All IsByte bs → byte_at bs i < 256
unfolding byte_at
byte_at-IsByte [] i h = omega arith
byte_at-IsByte (b ∷ bs) zero h = h.0
byte_at-IsByte (b ∷ bs) (suc i) h = byte_at-IsByte bs i h.1

module _ (left right : Bytes) where
  Agree : ℕ → ℕ → Type 0
  Agree i n = (j : ℕ) → j < n → byte_at left (i + j) ≡ byte_at right (i + j)

  Agree-suc : (i n : ℕ) → byte_at left i ≡ byte_at right i → Agree (suc i) n → Agree i (suc n)
  unfolding Agree
  Agree-suc i n here later zero k =
      let e : i ≡ i + 0 = omega arith in subst (λ m. byte_at left m ≡ byte_at right m) e here
  Agree-suc i n here later (suc j) k =
      let e : suc i + j ≡ i + suc j = omega arith in
      subst (λ m. byte_at left m ≡ byte_at right m) e (later j (omega (arith, k)))

  differences-same :
      (n i : ℕ) → ((j : ℕ) → byte_at left j ≡ byte_at right j) → differences left right n i 0 ≡ 0
  unfolding differences
  differences-same zero i h = refl
  differences-same (suc n) i h =
      let none_here : or 64 0 (xor 8 (byte_at left i) (byte_at right i)) ≡ 0 =
        ap (λ b. or 64 0 (xor 8 b (byte_at right i))) (h i)
        ∙ ap (or 64 0) (xor-same 8 (byte_at right i))
        ∙ or_zero 64 in
      ap (differences left right n (suc i)) none_here ∙ differences-same n (suc i) h

  -- A difference that is zero at the end was zero at the start, and no byte differed.
  differences-zero :
      (n i d : ℕ)
      → All IsByte left
      → All IsByte right
      → d < 2 ^ 64
      → differences left right n i d ≡ 0
      → (d ≡ 0) × Agree i n
  unfolding differences Agree
  differences-zero zero i d l r h e = (e, λ j k. absurd (omega (arith, k)))
  differences-zero (suc n) i d l r h e =
      let x = xor 8 (byte_at left i) (byte_at right i) in
      let rest = differences-zero n (suc i) (or 64 d x) l r (or-lt 64 d x) e in
      let small : x < 2 ^ 64 = omega (arith, xor-lt 8 (byte_at left i) (byte_at right i)) in
      let zeros = or-zero 64 d x h small rest.0 in
      let here =
        xor-eq 8 (byte_at left i) (byte_at right i) (byte_at-IsByte left i l)
          (byte_at-IsByte right i r) zeros.1 in
      (zeros.0, Agree-suc i n here rest.1)

same_bytes :
    (l r : Bytes)
    → length l ≡ length r
    → ((j : ℕ) → j < length l → byte_at l j ≡ byte_at r j)
    → l ≡ r
unfolding byte_at
same_bytes [] [] e h = refl
same_bytes [] (y ∷ r) e h = absurd (omega (arith, e))
same_bytes (x ∷ l) [] e h = absurd (omega (arith, e))
same_bytes (x ∷ l) (y ∷ r) e h =
    let head : x ≡ y = h 0 (omega arith) in
    let rest = same_bytes l r (omega (arith, e)) (λ j k. h (suc j) (omega (arith, k))) in
    ap (λ b. b ∷ l) head ∙ ap (λ bs. y ∷ bs) rest

-- On texts of bytes, each shorter than 2^64, the comparison that looks at every index answers true
-- exactly when the two are equal.
pub constant_time_equal_iff :
    (left right : Bytes)
    → All IsByte left
    → All IsByte right
    → length left < 2 ^ 64
    → length right < 2 ^ 64
    → (constant_time_equal left right ≡ true) ↔ (left ≡ right)
unfolding constant_time_equal Agree
constant_time_equal_iff left right l r m n = (
  (λ e.
      let none_found = (==_iff _ 0).0 e in
      let found =
        differences-zero left right (max (length left) (length right)) 0
          (xor 64 (length left) (length right)) l r (xor-lt 64 (length left) (length right))
          none_found in
      let lengths = xor-eq 64 (length left) (length right) m n found.0 in
      same_bytes left right lengths (λ j k.
        let e' : 0 + j ≡ j = omega arith in
        subst (λ i. byte_at left i ≡ byte_at right i) e' (found.1 j (omega (arith, k))))),
  (λ e. (==_iff _ 0).1 (
      ap
        (λ bs.
          differences left bs (max (length left) (length bs)) 0 (xor 64 (length left) (length bs)))
        (sym e)
      ∙ ap (differences left left (max (length left) (length left)) 0) (xor-same 64 (length left))
      ∙ differences-same left left (max (length left) (length left)) 0 (λ j. refl))),
)
