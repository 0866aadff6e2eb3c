-- ===== src/Prelude/Lists.antt =====
-- Lists measured by native numbers, and what an SQL statement does with the rows of a table.
use Prim.Native.Nat.{ℕ, zero, suc, ◌+◌, ◌-◌, ◌≤◌}
use mathlib.Core.Path.{◌≡◌, refl, ap, ◌∙◌, subst, fun_ext}
use mathlib.Core.Logic.{inl, inr}
use mathlib.Core.List.{Memᴰ as Member}
use mathlib.Core.List.{List, [], ◌∷◌, ◌++◌}
use mathlib.Core.Option
use mathlib.Core.Option.{Option, none, some}
use mathlib.Core.Bool.{Bool, true, false, ◌||◌, ◌&&◌}
use native.Mathlib.Omega.{arith}
use ratatoskr_channel_digest.Prelude.Tests.{if◌then◌else◌, Bool-cases, is_some}

module _ {ℓ} {A : Type ℓ} where
  abbrev pub length : List A → ℕ
  length [] = 0
  length (x ∷ xs) = suc (length xs)

  abbrev pub is_empty : List A → Bool
  is_empty [] = true
  is_empty (x ∷ xs) = false

  abbrev pub take : ℕ → List A → List A
  take zero xs = []
  take (suc n) [] = []
  take (suc n) (x ∷ xs) = x ∷ take n xs

  abbrev pub drop : ℕ → List A → List A
  drop zero xs = xs
  drop (suc n) [] = []
  drop (suc n) (x ∷ xs) = drop n xs

  pub length-drop : (n : ℕ) (xs : List A) → length (drop n xs) ≡ length xs - n
  length-drop zero xs = omega arith
  length-drop (suc n) [] = omega arith
  length-drop (suc n) (x ∷ xs) = omega (arith, length-drop n xs)

  pub length-take-le : (n : ℕ) (xs : List A) → length (take n xs) ≤ n
  length-take-le zero xs = omega arith
  length-take-le (suc n) [] = omega arith
  length-take-le (suc n) (x ∷ xs) = omega (arith, length-take-le n xs)

  pub length-append : (xs ys : List A) → length (xs ++ ys) ≡ length xs + length ys
  length-append [] ys = omega arith
  length-append (x ∷ xs) ys = omega (arith, length-append xs ys)

  abbrev pub All {κ} : (A → Type κ) → List A → Type κ
  All P [] = Unit
  All P (x ∷ xs) = P x × All P xs

  pub All_intro {κ} : (P : A → Type κ) → ((x : A) → P x) → (xs : List A) → All P xs
  All_intro P h [] = tt
  All_intro P h (x ∷ xs) = (h x, All_intro P h xs)

  -- `select … where p` of at most one row.
  unfoldable pub select : (A → Bool) → List A → Option A
  select p [] = none
  select p (x ∷ xs) = if p x then some x else select p xs

  -- `exists (select … where p)`.
  unfoldable pub contains : (A → Bool) → List A → Bool
  contains p [] = false
  contains p (x ∷ xs) = p x || contains p xs

  -- `select count(*) … where p`.
  unfoldable pub count : (A → Bool) → List A → ℕ
  count p [] = 0
  count p (x ∷ xs) = (if p x then 1 else 0) + count p xs

  -- `select … where p` of every row.
  unfoldable pub rows : (A → Bool) → List A → List A
  rows p [] = []
  rows p (x ∷ xs) = let rest = rows p xs in if p x then x ∷ rest else rest

  -- `update … set f where p`.
  unfoldable pub update : (A → Bool) → (A → A) → List A → List A
  update p f [] = []
  update p f (x ∷ xs) = (if p x then f x else x) ∷ update p f xs

  -- No two rows agree on a unique key.
  abbrev pub Distinct : (A → A → Bool) → List A → Type 0
  Distinct same [] = Unit
  Distinct same (x ∷ xs) = (contains (same x) xs ≡ false) × Distinct same xs

  pub update-none : (p : A → Bool) (f : A → A) (xs : List A) → count p xs ≡ 0 → update p f xs ≡ xs
  unfolding update count
  update-none p f [] h = refl
  update-none p f (x ∷ xs) h = ground (arith, update-none p f xs)

  pub count-contains : (p : A → Bool) (xs : List A) → contains p xs ≡ false → count p xs ≡ 0
  unfolding contains count
  count-contains p [] h = refl
  count-contains p (x ∷ xs) h = ground (arith, count-contains p xs)

  pub length-update : (p : A → Bool) (f : A → A) (xs : List A) → length (update p f xs) ≡ length xs
  unfolding update
  length-update p f [] = refl
  length-update p f (x ∷ xs) = ap suc (length-update p f xs)

  pub length-rows : (p : A → Bool) (xs : List A) → length (rows p xs) ≡ count p xs
  unfolding rows count
  length-rows p [] = refl
  length-rows p (x ∷ xs) = ground (arith, length-rows p xs)

  pub All-rows {κ} : (P : A → Type κ) (p : A → Bool) (xs : List A) → All P xs → All P (rows p xs)
  unfolding rows
  All-rows P p [] h = tt
  All-rows P p (x ∷ xs) h = elim (Bool-cases (p x)) [
    | inl e ↦ rw e (h.0, All-rows P p xs h.1)
    | inr e ↦ rw e (All-rows P p xs h.1)
  ]

  pub All-rows-true : (p : A → Bool) (xs : List A) → All (λ x. p x ≡ true) (rows p xs)
  unfolding rows
  All-rows-true p [] = tt
  All-rows-true p (x ∷ xs) = elim (Bool-cases (p x)) [
    | inl e ↦ rw e (e, All-rows-true p xs)
    | inr e ↦ rw e (All-rows-true p xs)
  ]

  pub All-take {κ} : (P : A → Type κ) (n : ℕ) (xs : List A) → All P xs → All P (take n xs)
  All-take P zero xs h = tt
  All-take P (suc n) [] h = tt
  All-take P (suc n) (x ∷ xs) h = (h.0, All-take P n xs h.1)

  pub All-both {κ κ'} :
      (P : A → Type κ) (Q : A → Type κ') (xs : List A)
      → All P xs
      → All Q xs
      → All (λ x. P x × Q x) xs
  All-both P Q [] h k = tt
  All-both P Q (x ∷ xs) h k = ((h.0, k.0), All-both P Q xs h.1 k.1)

  pub All-contains {κ} :
      (P : A → Type κ) (p : A → Bool) (xs : List A)
      → All P xs
      → contains p xs ≡ true
      → (x : A) × (p x ≡ true) × P x
  unfolding contains
  All-contains P p [] h e = absurd (cc)
  All-contains P p (x ∷ xs) h e = elim (Bool-cases (p x)) [
    | inl t ↦ (x, t, h.0)
    | inr f ↦ All-contains P p xs h.1 (ground arith)
  ]

  pub contains-All :
      (p : A → Bool) (xs : List A) → All (λ x. p x ≡ false) xs → contains p xs ≡ false
  unfolding contains
  contains-All p [] h = refl
  contains-All p (x ∷ xs) h = rw (h.0, contains-All p xs h.1) refl

  pub All-rows-apart :
      (p q : A → Bool) (xs : List A)
      → contains (λ x. p x && q x) xs ≡ false
      → All (λ x. p x ≡ false) (rows q xs)
  unfolding contains rows
  All-rows-apart p q [] h = tt
  All-rows-apart p q (x ∷ xs) h = elim (Bool-cases (q x)) [
    | inl e ↦ rw e (ground (arith, e, h), All-rows-apart p q xs (ground (arith, h)))
    | inr e ↦ rw e (All-rows-apart p q xs (ground (arith, h)))
  ]

  pub contains-update_if :
      (q p : A → Bool) (f : A → A)
      → ((x : A) → p x ≡ true → q (f x) ≡ q x)
      → (xs : List A) → contains q (update p f xs) ≡ contains q xs
  unfolding contains update
  contains-update_if q p f keep [] = refl
  contains-update_if q p f keep (x ∷ xs) = ground (arith, keep x, contains-update_if q p f keep xs)

  pub All-update {κ} :
      (P : A → Type κ) (p : A → Bool) (f : A → A)
      → ((x : A) → p x ≡ true → P x → P (f x))
      → (xs : List A) → All P xs
      → All P (update p f xs)
  unfolding update
  All-update P p f keep [] h = tt
  All-update P p f keep (x ∷ xs) h = elim (Bool-cases (p x)) [
    | inl e ↦ rw e (keep x e h.0, All-update P p f keep xs h.1)
    | inr e ↦ rw e (h.0, All-update P p f keep xs h.1)
  ]

  pub select-true : (p : A → Bool) (xs : List A) (x : A) → select p xs ≡ some x → p x ≡ true
  unfolding select
  select-true p [] x h = cc
  select-true p (y ∷ xs) x h = ground (arith, select-true p xs x)

  pub Member-select : (p : A → Bool) (xs : List A) (x : A) → select p xs ≡ some x → Member x xs
  unfolding select
  Member-select p [] x h = absurd (cc)
  Member-select p (y ∷ xs) x h = elim (Bool-cases (p y)) [
    | inl e ↦ Member.head (ground (arith, e, h))
    | inr e ↦ Member.tail (Member-select p xs x (ground (arith, e, h)))
  ]

  pub All-select {κ} :
      (P : A → Type κ) (p : A → Bool) (xs : List A) (x : A) → All P xs → select p xs ≡ some x → P x
  unfolding select
  All-select P p [] x a h = absurd (cc)
  All-select P p (y ∷ xs) x a h = elim (Bool-cases (p y)) [
    | inl e ↦ let eq : y ≡ x = ground arith in subst P eq a.0
    | inr e ↦ All-select P p xs x a.1 (ground arith)
  ]

  pub contains-select : (p : A → Bool) (xs : List A) → contains p xs ≡ is_some (select p xs)
  unfolding contains select
  contains-select p [] = refl
  contains-select p (x ∷ xs) = ground (arith, contains-select p xs)

  pub contains-later :
      (p : A → Bool) (x : A) (xs : List A) → contains p xs ≡ true → contains p (x ∷ xs) ≡ true
  unfolding contains
  contains-later p x xs h = ground arith

  -- An update that touches no row of a view leaves the view as it was.
  pub rows-update :
      (q p : A → Bool) (f : A → A)
      → ((x : A) → p x ≡ true → (q x ≡ false) × (q (f x) ≡ false))
      → (xs : List A) → rows q (update p f xs) ≡ rows q xs
  unfolding rows update
  rows-update q p f apart [] = refl
  rows-update q p f apart (x ∷ xs) = elim (Bool-cases (p x)) [
    | inl e ↦ rw (e, (apart x e).0, (apart x e).1) (rows-update q p f apart xs)
    | inr e ↦ rw (e, rows-update q p f apart xs) refl
  ]

  -- An update that reaches every row which a condition singles out.
  pub All-reached {κ} :
      (Q : A → Type κ) (p : A → Bool) (f : A → A)
      → ((x : A) → p x ≡ true → Q (f x))
      → ((x : A) → p x ≡ false → Q x)
      → (xs : List A) → All Q (update p f xs)
  unfolding update
  All-reached Q p f hit miss [] = tt
  All-reached Q p f hit miss (x ∷ xs) = elim (Bool-cases (p x)) [
    | inl e ↦ rw e (hit x e, All-reached Q p f hit miss xs)
    | inr e ↦ rw e (miss x e, All-reached Q p f hit miss xs)
  ]

  -- An update that keeps what a search looks at is seen through the search.
  pub select-update :
      (q p : A → Bool) (f : A → A)
      → ((x : A) → q (f x) ≡ q x)
      → (xs : List A)
      → select q (update p f xs) ≡ Option.map (λ x. if p x then f x else x) (select q xs)
  unfolding select update
  select-update q p f keep [] = refl
  select-update q p f keep (x ∷ xs) = ground (arith, keep x, select-update q p f keep xs)

  pub contains-update :
      (q p : A → Bool) (f : A → A)
      → ((x : A) → q (f x) ≡ q x)
      → (xs : List A) → contains q (update p f xs) ≡ contains q xs
  unfolding contains update
  contains-update q p f keep [] = refl
  contains-update q p f keep (x ∷ xs) = ground (arith, keep x, contains-update q p f keep xs)

  contains_ext :
      (p q : A → Bool) → ((x : A) → p x ≡ q x) → (xs : List A) → contains p xs ≡ contains q xs
  contains_ext p q same xs = ap (λ r. contains r xs) (fun_ext same)

  -- An update keeps a unique key that it does not write.
  pub Distinct-update :
      (same : A → A → Bool) (p : A → Bool) (f : A → A)
      → ((x y : A) → same (f x) y ≡ same x y)
      → ((x y : A) → same x (f y) ≡ same x y)
      → (xs : List A) → Distinct same xs
      → Distinct same (update p f xs)
  unfolding update
  Distinct-update same p f left right [] d = tt
  Distinct-update same p f left right (x ∷ xs) d = elim (Bool-cases (p x)) [
    | inl e ↦ rw e (
      contains-update (same (f x)) p f (right (f x)) xs
          ∙ contains_ext (same (f x)) (same x) (left x) xs
          ∙ d.0,
      Distinct-update same p f left right xs d.1,
    )
    | inr e ↦ rw e (
      contains-update (same x) p f (right x) xs ∙ d.0,
      Distinct-update same p f left right xs d.1,
    )
  ]
