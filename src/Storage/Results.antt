-- ===== src/Storage/Results.antt =====
-- What a computation answers when it answers, composed along `do` blocks.
use ratatoskr_channel_digest.Prelude.{
  Bool, true, false, Option, none, some, ◌≡◌, refl, subst, arith, Bool-cases, inl, inr,
  if◌then◌else◌, maybe,
}
use ratatoskr_channel_digest.Schema.{Db}
use ratatoskr_channel_digest.Storage.{
  and_then, World, M, Sql, Result, ok, err, pure, raise, ◌>>=◌, resume, store, execute_alone,
}

-- An answer is of the kind `Q`.
pub record Answers {E A : Type 0} (Q : A → Type 0) (r : Result E A) : Type 0 where
  pub is : (a : A) → r ≡ ok a → Q a

pub record Yields {E A : Type 0} (Q : A → Type 0) (m : M E A) : Type 0 where
  pub at : (w : World) → Answers Q (m w).0

module _ {E A : Type 0} {Q : A → Type 0} where
  pub Answers-ok : (a : A) → Q a → Answers {E = E} Q (ok a)
  Answers-ok a q = record { is = λ b e. let same : a ≡ b = ground arith in subst Q same q }

  pub Answers-err : (e : E) → Answers Q (err e)
  Answers-err e = record { is = λ b h. absurd (cc) }

  pub Yields-pure : (a : A) → Q a → Yields {E = E} Q (pure a)
  unfolding pure
  Yields-pure a q = record { at = λ w. Answers-ok a q }

  pub Yields-raise : (e : E) → Yields {A = A} Q (raise e)
  unfolding raise
  Yields-raise e = record { at = λ w. Answers-err e }

  pub Yields-if : (b : Bool) (m n : M E A) → Yields Q m → Yields Q n → Yields Q (if b then m else n)
  Yields-if true m n km kn = km
  Yields-if false m n km kn = kn

  pub Yields-maybe :
      {B : Type 0} (o : Option B) (m : M E A) (f : B → M E A)
      → Yields Q m
      → ((b : B) → Yields Q (f b))
      → Yields Q (maybe o m f)
  unfolding maybe
  Yields-maybe none m f km kf = km
  Yields-maybe (some b) m f km kf = kf b

module _ {E A B : Type 0} {Q : B → Type 0} where
  Answers-resume :
      (P : A → Type 0) (r : Result E A) (f : A → M E B) (w : World)
      → Answers P r
      → ((a : A) → P a → Yields Q (f a))
      → Answers Q (resume r f w).0
  Answers-resume P (ok a) f w k kf = (kf a (k.is a refl)).at w
  Answers-resume P (err e) f w k kf = Answers-err e

  -- What the first part answers in this world may be used for the second.
  pub Answers-bind :
      (P : A → Type 0) (m : M E A) (f : A → M E B) (w : World)
      → Answers P (m w).0
      → ((a : A) → P a → Yields Q (f a))
      → Answers Q ((m >>= f) w).0
  unfolding ◌>>=◌
  Answers-bind P m f w k kf = Answers-resume P (m w).0 f (m w).1 k kf

  pub Yields-bind : (m : M E A) (f : A → M E B) → ((a : A) → Yields Q (f a)) → Yields Q (m >>= f)
  Yields-bind m f kf = record {
    at = λ w. Answers-bind (λ a. Unit) m f w (record { is = λ a e. tt }) (λ a k. kf a);
  }

pub ruleset yields_rules = (Yields-pure, Yields-raise, Yields-if, Yields-maybe, Yields-bind)

module _ {E A : Type 0} {Q : A → Type 0} where
  Answers-store :
      (e : E) (o : Option (A × Db)) (w : World)
      → ((a : A) (d : Db) → o ≡ some (a, d) → Q a)
      → Answers Q (store e o w).0
  Answers-store e none w h = Answers-err e
  Answers-store e (some (a, d)) w h = Answers-ok a (h a d refl)

  -- A statement on the pool answers what it makes of the committed database.
  pub Answers-execute_alone :
      (e : E) (s : Sql A) (w : World)
      → ((a : A) (d : Db) → s w.clock w.committed ≡ some (a, d) → Q a)
      → Answers Q (execute_alone e s w).0
  unfolding execute_alone
  Answers-execute_alone e s w h = elim (Bool-cases (w.fails w.calls)) [
    | inl f ↦ rw f (Answers-err e)
    | inr f ↦ rw f (Answers-store e (s w.clock w.committed) _ h)
  ]

module _ {E A B : Type 0} {Q : B → Type 0} where
  pub Answers-and_then :
      (P : A → Type 0) (r : Result E A) (f : A → Result E B)
      → Answers P r
      → ((a : A) → P a → Answers Q (f a))
      → Answers Q (and_then r f)
  Answers-and_then P (ok a) f k kf = kf a (k.is a refl)
  Answers-and_then P (err e) f k kf = Answers-err e

module _ {E A : Type 0} where
  pub Answers-any : (r : Result E A) → Answers (λ (a : A). Unit) r
  Answers-any r = record { is = λ a e. tt }

  pub Answers-unless :
      {Q : A → Type 0} (b : Bool) (e : E) (r : Result E A)
      → (b ≡ false → Answers Q r)
      → Answers Q (if b then err e else r)
  Answers-unless true e r k = Answers-err e
  Answers-unless false e r k = k refl
