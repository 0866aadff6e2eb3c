-- ===== src/Storage/Alone.antt =====
-- Statements on the pool, each a transaction of its own: what a sequence of them keeps of the committed
-- database, whatever the working copy of an open transaction is.
use ratatoskr_channel_digest.Prelude.{
  Bool, true, false, Option, none, some, ◌≡◌, refl, Bool-cases, inl, inr, if◌then◌else◌, maybe,
}
use ratatoskr_channel_digest.Schema.{Db}
use ratatoskr_channel_digest.Metrics.{RetentionCounter}
use ratatoskr_channel_digest.Storage.{
  World, M, Sql, Result, ok, err, pure, raise, ◌>>=◌, map_err, resume, store, execute_alone, tally,
}
use ratatoskr_channel_digest.Storage.Rules.{Stable}

pub record Leaves {E A : Type 0} (P : Db → Type 0) (m : M E A) : Type 0 where
  pub at : (w : World) → P w.committed → P (m w).1.committed

module _ {E A : Type 0} {P : Db → Type 0} where
  pub Leaves-pure : (a : A) → Leaves {E = E} P (pure a)
  unfolding pure
  Leaves-pure a = record { at = λ w k. k }

  pub Leaves-raise : (e : E) → Leaves {A = A} P (raise e)
  unfolding raise
  Leaves-raise e = record { at = λ w k. k }

  pub Leaves-if : (b : Bool) (m n : M E A) → Leaves P m → Leaves P n → Leaves P (if b then m else n)
  Leaves-if true m n km kn = km
  Leaves-if false m n km kn = kn

  pub Leaves-maybe :
      {B : Type 0} (o : Option B) (m : M E A) (f : B → M E A)
      → Leaves P m
      → ((b : B) → Leaves P (f b))
      → Leaves P (maybe o m f)
  unfolding maybe
  Leaves-maybe none m f km kf = km
  Leaves-maybe (some b) m f km kf = kf b

  store-committed :
      (e : E) (o : Option (A × Db)) (w : World)
      → ((a : A) (d : Db) → o ≡ some (a, d) → P d)
      → P w.committed
      → P (store e o w).1.committed
  store-committed e none w h k = k
  store-committed e (some (a, d)) w h k = h a d refl

  pub Leaves-execute_alone : (e : E) (s : Sql A) → Stable P s → Leaves P (execute_alone e s)
  unfolding execute_alone
  Leaves-execute_alone e s st = record {
    at = λ w k. elim (Bool-cases (w.fails w.calls)) [
      | inl f ↦ rw f k
      | inr f ↦
          rw f (store-committed e (s w.clock w.committed) _ (λ a d h. st.at w.clock _ a d k h) k)
    ];
  }

module _ {E A B : Type 0} {P : Db → Type 0} where
  resume_leaves :
      (r : Result E A) (f : A → M E B) (w : World)
      → ((a : A) → Leaves P (f a))
      → P w.committed
      → P (resume r f w).1.committed
  resume_leaves (ok a) f w kf k = (kf a).at w k
  resume_leaves (err e) f w kf k = k

  pub Leaves-bind :
      (m : M E A) (f : A → M E B) → Leaves P m → ((a : A) → Leaves P (f a)) → Leaves P (m >>= f)
  unfolding ◌>>=◌
  Leaves-bind m f km kf = record { at = λ w k. resume_leaves (m w).0 f (m w).1 kf (km.at w k) }

pub Leaves-tally :
    {E : Type 0} {P : Db → Type 0} (f : RetentionCounter → RetentionCounter)
    → Leaves {E = E} P (tally f)
unfolding tally
Leaves-tally f = record { at = λ w k. k }

module _ {E F A : Type 0} {P : Db → Type 0} where
  pub Leaves-map_err : (f : E → F) (m : M E A) → Leaves P m → Leaves P (map_err f m)
  unfolding map_err
  Leaves-map_err f m km = record { at = km.at }

pub ruleset leaves_rules = (
  Leaves-pure, Leaves-raise, Leaves-if, Leaves-maybe, Leaves-execute_alone, Leaves-bind,
  Leaves-map_err, Leaves-tally,
)
