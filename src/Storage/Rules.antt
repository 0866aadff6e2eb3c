-- ===== src/Storage/Rules.antt =====
-- Properties of computations that compose along `do` blocks: an invariant of the database, what an
-- outcome says of the committed database, and calls that leave it alone.
use ratatoskr_channel_digest.Prelude.{
  ℕ, Bool, true, false, Option, none, some, if◌then◌else◌, maybe, ◌≡◌, refl, ◌∙◌, arith, Bool-cases,
  inl, inr,
}
use ratatoskr_channel_digest.Schema.{Db}
use ratatoskr_channel_digest.Metrics.{RetentionCounter}
use ratatoskr_channel_digest.Storage.{
  Result, ok, err, World, M, Sql, pure, raise, lift, ◌>>=◌, ◌>>◌, resume, map_err, recover, begin,
  commit, rollback, fresh, tally, execute, execute_alone, query, stay, store,
}

-- A statement keeps an invariant of the database.
pub record Stable {A : Type 0} (I : Db → Type 0) (s : Sql A) : Type 0 where
  pub at : (now : ℕ) (d : Db) (a : A) (d' : Db) → I d → s now d ≡ some (a, d') → I d'

pub record Keeps {E A : Type 0} (I : Db → Type 0) (m : M E A) : Type 0 where
  pub at : (w : World) → I w.committed → I w.working → I (m w).1.committed × I (m w).1.working

module _ {E A : Type 0} {I : Db → Type 0} where
  pub Keeps-pure : (a : A) → Keeps {E = E} I (pure a)
  unfolding pure
  Keeps-pure a = record { at = λ w c k. (c, k) }

  pub Keeps-raise : (e : E) → Keeps {A = A} I (raise e)
  unfolding raise
  Keeps-raise e = record { at = λ w c k. (c, k) }

  pub Keeps-lift : (r : Result E A) → Keeps I (lift r)
  unfolding lift
  Keeps-lift r = record { at = λ w c k. (c, k) }

  pub Keeps-if :
      (b : Bool) (m n : M E A)
      → (b ≡ true → Keeps I m)
      → (b ≡ false → Keeps I n)
      → Keeps I (if b then m else n)
  Keeps-if true m n km kn = km refl
  Keeps-if false m n km kn = kn refl

  pub Keeps-maybe :
      {B : Type 0} (o : Option B) (m : M E A) (f : B → M E A)
      → Keeps I m
      → ((b : B) → Keeps I (f b))
      → Keeps I (maybe o m f)
  unfolding maybe
  Keeps-maybe none m f km kf = km
  Keeps-maybe (some b) m f km kf = kf b

  stay_keeps :
      (e : E) (o : Option (A × Db)) (w : World)
      → ((a : A) (d : Db) → o ≡ some (a, d) → I d)
      → I w.committed
      → I w.working
      → I (stay e o w).1.committed × I (stay e o w).1.working
  stay_keeps e none w step c k = (c, k)
  stay_keeps e (some (a, d)) w step c k = (c, step a d refl)

  store_keeps :
      (e : E) (o : Option (A × Db)) (w : World)
      → ((a : A) (d : Db) → o ≡ some (a, d) → I d)
      → I w.committed
      → I w.working
      → I (store e o w).1.committed × I (store e o w).1.working
  store_keeps e none w step c k = (c, k)
  store_keeps e (some (a, d)) w step c k = (step a d refl, step a d refl)

  pub Keeps-execute : (e : E) (s : Sql A) → Stable I s → Keeps I (execute e s)
  unfolding execute
  Keeps-execute e s st = record {
    at = λ w c k. elim (Bool-cases (w.fails w.calls)) [
      | inl f ↦ rw f (c, k)
      | inr f ↦ rw f (stay_keeps e (s w.clock w.working) _ (λ a d h. st.at w.clock _ a d k h) c k)
    ];
  }

  pub Keeps-execute_alone : (e : E) (s : Sql A) → Stable I s → Keeps I (execute_alone e s)
  unfolding execute_alone
  Keeps-execute_alone e s st = record {
    at = λ w c k. elim (Bool-cases (w.fails w.calls)) [
      | inl f ↦ rw f (c, k)
      | inr f ↦
          rw f (store_keeps e (s w.clock w.committed) _ (λ a d h. st.at w.clock _ a d c h) c k)
    ];
  }

  pub Keeps-query : (e : E) (f : Db → A) → Keeps I (query e f)
  unfolding query
  Keeps-query e f = record {
    at = λ w c k. elim (Bool-cases (w.fails w.calls)) [ inl x ↦ rw x (c, k) | inr x ↦ rw x (c, k) ];
  }

module _ {E : Type 0} {I : Db → Type 0} where
  pub Keeps-begin : (e : E) → Keeps I (begin e)
  unfolding begin
  Keeps-begin e = record {
    at = λ w c k. elim (Bool-cases (w.fails w.calls)) [ inl f ↦ rw f (c, k) | inr f ↦ rw f (c, c) ];
  }

  pub Keeps-commit : (e : E) → Keeps I (commit e)
  unfolding commit
  Keeps-commit e = record {
    at = λ w c k. elim (Bool-cases (w.fails w.calls)) [ inl f ↦ rw f (c, k) | inr f ↦ rw f (k, k) ];
  }

  pub Keeps-rollback : (e : E) → Keeps I (rollback e)
  unfolding rollback
  Keeps-rollback e = record {
    at = λ w c k. elim (Bool-cases (w.fails w.calls)) [ inl f ↦ rw f (c, k) | inr f ↦ rw f (c, c) ];
  }

  pub Keeps-fresh : Keeps {E = E} I fresh
  unfolding fresh
  Keeps-fresh = record { at = λ w c k. (c, k) }

  pub Keeps-tally : (f : RetentionCounter → RetentionCounter) → Keeps {E = E} I (tally f)
  unfolding tally
  Keeps-tally f = record { at = λ w c k. (c, k) }

module _ {E A B : Type 0} {I : Db → Type 0} where
  resume_keeps :
      (r : Result E A) (f : A → M E B) (w : World)
      → ((a : A) → Keeps I (f a))
      → I w.committed
      → I w.working
      → I (resume r f w).1.committed × I (resume r f w).1.working
  resume_keeps (ok a) f w kf c k = (kf a).at w c k
  resume_keeps (err e) f w kf c k = (c, k)

  pub Keeps-bind :
      (m : M E A) (f : A → M E B) → Keeps I m → ((a : A) → Keeps I (f a)) → Keeps I (m >>= f)
  unfolding ◌>>=◌
  Keeps-bind m f km kf = record {
    at = λ w c k. resume_keeps (m w).0 f (m w).1 kf (km.at w c k).0 (km.at w c k).1;
  }

module _ {E F A : Type 0} {I : Db → Type 0} where
  pub Keeps-map_err : (f : E → F) (m : M E A) → Keeps I m → Keeps I (map_err f m)
  unfolding map_err
  Keeps-map_err f m km = record { at = km.at }

module _ {E F A : Type 0} {I : Db → Type 0} where
  pub Keeps-recover : (m : M E A) → Keeps I m → Keeps {E = F} I (recover m)
  unfolding recover
  Keeps-recover m km = record { at = km.at }

-- The committed database is left as it was.
pub record Quiet {E A : Type 0} (m : M E A) : Type 0 where
  pub at : (w : World) → (m w).1.committed ≡ w.committed

module _ {E A : Type 0} where
  pub Quiet-pure : (a : A) → Quiet {E = E} (pure a)
  unfolding pure
  Quiet-pure a = record { at = λ w. refl }

  pub Quiet-raise : (e : E) → Quiet {A = A} (raise e)
  unfolding raise
  Quiet-raise e = record { at = λ w. refl }

  pub Quiet-lift : (r : Result E A) → Quiet (lift r)
  unfolding lift
  Quiet-lift r = record { at = λ w. refl }

  pub Quiet-if : (b : Bool) (m n : M E A) → Quiet m → Quiet n → Quiet (if b then m else n)
  Quiet-if true m n qm qn = qm
  Quiet-if false m n qm qn = qn

  pub Quiet-maybe :
      {B : Type 0} (o : Option B) (m : M E A) (f : B → M E A)
      → Quiet m
      → ((b : B) → Quiet (f b))
      → Quiet (maybe o m f)
  unfolding maybe
  Quiet-maybe none m f qm qf = qm
  Quiet-maybe (some b) m f qm qf = qf b

  stay_quiet : (e : E) (o : Option (A × Db)) (w : World) → (stay e o w).1.committed ≡ w.committed
  stay_quiet e none w = refl
  stay_quiet e (some (a, d)) w = refl

  pub Quiet-execute : (e : E) (s : Sql A) → Quiet (execute e s)
  unfolding execute
  Quiet-execute e s = record {
    at = λ w. elim (Bool-cases (w.fails w.calls)) [
      | inl f ↦ rw f
      | inr f ↦ rw f (stay_quiet e (s w.clock w.working) _)
    ];
  }

  pub Quiet-query : (e : E) (f : Db → A) → Quiet (query e f)
  unfolding query
  Quiet-query e f = record {
    at = λ w. elim (Bool-cases (w.fails w.calls)) [ inl x ↦ rw x | inr x ↦ rw x ];
  }

module _ {E : Type 0} where
  pub Quiet-begin : (e : E) → Quiet (begin e)
  unfolding begin
  Quiet-begin e = record { at = λ w. ground arith }

  pub Quiet-rollback : (e : E) → Quiet (rollback e)
  unfolding rollback
  Quiet-rollback e = record { at = λ w. ground arith }

  pub Quiet-fresh : Quiet {E = E} fresh
  unfolding fresh
  Quiet-fresh = record { at = λ w. refl }

module _ {E A B : Type 0} where
  resume-Quiet :
      (r : Result E A) (f : A → M E B) (w : World)
      → ((a : A) → Quiet (f a))
      → (resume r f w).1.committed ≡ w.committed
  resume-Quiet (ok a) f w qf = (qf a).at w
  resume-Quiet (err e) f w qf = refl

  pub Quiet-bind : (m : M E A) (f : A → M E B) → Quiet m → ((a : A) → Quiet (f a)) → Quiet (m >>= f)
  unfolding ◌>>=◌
  Quiet-bind m f qm qf = record { at = λ w. resume-Quiet (m w).0 f (m w).1 qf ∙ qm.at w }

module _ {E F A : Type 0} where
  pub Quiet-map_err : (f : E → F) (m : M E A) → Quiet m → Quiet (map_err f m)
  unfolding map_err
  Quiet-map_err f m qm = record { at = qm.at }

-- The committed database changes only with an outcome that may change it; an error never does.
pub record Guarded {E A : Type 0} (may : A → Bool) (m : M E A) : Type 0 where
  pub on_err : (w : World) (e : E) → (m w).0 ≡ err e → (m w).1.committed ≡ w.committed
  pub on_ok : (w : World) (a : A) → (m w).0 ≡ ok a → may a ≡ false → (m w).1.committed ≡ w.committed

module _ {E A : Type 0} {may : A → Bool} where
  pub Guarded-Quiet : (m : M E A) → Quiet m → Guarded may m
  Guarded-Quiet m q = record { on_err = λ w e h. q.at w; on_ok = λ w a h n. q.at w }

  pub Guarded-if :
      (b : Bool) (m n : M E A) → Guarded may m → Guarded may n → Guarded may (if b then m else n)
  Guarded-if true m n gm gn = gm
  Guarded-if false m n gm gn = gn

  pub Guarded-maybe :
      {B : Type 0} (o : Option B) (m : M E A) (f : B → M E A)
      → Guarded may m
      → ((b : B) → Guarded may (f b))
      → Guarded may (maybe o m f)
  unfolding maybe
  Guarded-maybe none m f gm gf = gm
  Guarded-maybe (some b) m f gm gf = gf b

  -- The end of a transaction that reports a change.
  pub Guarded-commit : (e : E) (a : A) → may a ≡ true → Guarded may (commit e >> pure a)
  unfolding commit pure ◌>>=◌
  Guarded-commit e a h = record { on_err = λ w x r. ground arith; on_ok = λ w b r n. ground arith }

-- A transaction whose last call is its commit.
pub Guarded-commit_last : {E : Type 0} (e : E) → Guarded {A = Unit {0}} (λ _. true) (commit e)
unfolding commit
Guarded-commit_last e = record { on_err = λ w x r. ground arith; on_ok = λ w b r n. cc }

module _ {E A B : Type 0} {may : B → Bool} where
  resume_err :
      (r : Result E A) (f : A → M E B) (w : World)
      → ((a : A) → Guarded may (f a))
      → (e : E) → (resume r f w).0 ≡ err e
      → (resume r f w).1.committed ≡ w.committed
  resume_err (ok a) f w g e h = (g a).on_err w e h
  resume_err (err x) f w g e h = refl

  resume_ok :
      (r : Result E A) (f : A → M E B) (w : World)
      → ((a : A) → Guarded may (f a))
      → (b : B) → (resume r f w).0 ≡ ok b
      → may b ≡ false
      → (resume r f w).1.committed ≡ w.committed
  resume_ok (ok a) f w g b h n = (g a).on_ok w b h n
  resume_ok (err x) f w g b h n = refl

  pub Guarded-bind :
      (m : M E A) (f : A → M E B) → Quiet m → ((a : A) → Guarded may (f a)) → Guarded may (m >>= f)
  unfolding ◌>>=◌
  Guarded-bind m f q g = record {
    on_err = λ w e h. resume_err (m w).0 f (m w).1 g e h ∙ q.at w;
    on_ok = λ w b h n. resume_ok (m w).0 f (m w).1 g b h n ∙ q.at w;
  }

pub ruleset quiet_rules = (
  Quiet-pure, Quiet-raise, Quiet-lift, Quiet-if, Quiet-maybe, Quiet-execute, Quiet-query,
  Quiet-begin, Quiet-rollback, Quiet-fresh, Quiet-bind, Quiet-map_err,
)

pub ruleset guarded_rules = (
  quiet_rules, Guarded-Quiet, Guarded-if, Guarded-maybe, Guarded-commit, Guarded-commit_last,
  Guarded-bind,
)

pub ruleset keeps_rules = (
  Keeps-pure, Keeps-raise, Keeps-lift, Keeps-if, Keeps-maybe, Keeps-execute, Keeps-execute_alone,
  Keeps-query, Keeps-begin, Keeps-commit, Keeps-rollback, Keeps-fresh, Keeps-tally, Keeps-bind,
  Keeps-map_err, Keeps-recover,
)
