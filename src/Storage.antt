-- ===== src/Storage.antt =====
-- Code that calls PostgreSQL (sqlx): a computation over the committed database, the working copy
-- of the open transaction, the clock, the source of fresh UUIDs, the counter of the process, and the
-- calls that fail.
pub mod Rules
pub mod Alone
pub mod Results
use ratatoskr_channel_digest.Prelude.{
  ℕ, suc, Bool, true, false, Option, none, some, if◌then◌else◌, ◌≡◌, refl, arith,
}
use ratatoskr_channel_digest.Schema.{Db}
use ratatoskr_channel_digest.Metrics.{RetentionCounter}

pub data Result (E A : Type 0) : Type 0 where
  ok : A → Result E A
  err : E → Result E A

-- `fails n` says whether the n-th call of the database fails.
pub record World : Type 0 where
  pub committed : Db
  pub working : Db
  pub fails : ℕ → Bool
  pub calls : ℕ
  pub clock : ℕ
  pub next_id : ℕ
  pub counter : RetentionCounter

abbrev pub M : Type 0 → Type 0 → Type 0
M E A = World → Result E A × World

-- A statement, at the transaction's `now()`: `none` is a violated constraint.
abbrev pub Sql : Type 0 → Type 0
Sql A = ℕ → Db → Option (A × Db)

module _ {E A : Type 0} where
  unfoldable pub pure : A → M E A
  pure a w = (ok a, w)

  unfoldable pub raise : E → M E A
  raise e w = (err e, w)

  -- A pure function that may fail.
  unfoldable pub lift : Result E A → M E A
  lift r w = (r, w)

module _ {E A B : Type 0} where
  -- `?` on pure results
  abbrev pub and_then : Result E A → (A → Result E B) → Result E B
  and_then (ok a) f = f a
  and_then (err e) f = err e

  abbrev pub resume : Result E A → (A → M E B) → M E B
  resume (ok a) f w = f a w
  resume (err e) f w = (err e, w)

  -- The `?` operator: an error ends the function.
  infixl 5 ◌>>=◌ ◌>>◌
  unfoldable pub ◌>>=◌ : M E A → (A → M E B) → M E B
  ◌>>=◌ m f w = let (r, w') = m w in resume r f w'

  abbrev pub ◌>>◌ : M E A → M E B → M E B
  m >> n = m >>= λ _. n

module _ {E F A : Type 0} where
  abbrev pub convert : (E → F) → Result E A → Result F A
  convert f (ok a) = ok a
  convert f (err e) = err (f e)

  -- `From` conversions of errors at a `?`, and `map_err`
  unfoldable pub map_err : (E → F) → M E A → M F A
  map_err f m w = let (r, w') = m w in (convert f r, w')

module _ {E F A : Type 0} where
  -- A `match` on the outcome of a call: its error is no error of the caller.
  unfoldable pub recover : M E A → M F (Result E A)
  recover m w = let (r, w') = m w in (ok r, w')

module _ {E : Type 0} where
  -- One call of the database, which fails or goes through.
  unfoldable pub attempt : E → M E (Unit {0})
  attempt e w =
      let w' = record w { calls = suc w.calls } in
      if w.fails w.calls then (err e, w') else (ok tt, w')

  -- `pool.begin()`
  unfoldable pub begin : E → M E (Unit {0})
  unfolding attempt ◌>>=◌
  begin e = attempt e >> λ w. (ok tt, record w { working = w.committed })

  -- `transaction.commit()`
  unfoldable pub commit : E → M E (Unit {0})
  unfolding attempt ◌>>=◌
  commit e = attempt e >> λ w. (ok tt, record w { committed = w.working })

  -- `transaction.rollback()`
  unfoldable pub rollback : E → M E (Unit {0})
  unfolding attempt ◌>>=◌
  rollback e = attempt e >> λ w. (ok tt, record w { working = w.committed })

  -- `Uuid::now_v7()`
  unfoldable pub fresh : M E ℕ
  fresh w = (ok w.next_id, record w { next_id = suc w.next_id })

  -- An update of the counter of the process.
  unfoldable pub tally : (RetentionCounter → RetentionCounter) → M E (Unit {0})
  tally f w = (ok tt, record w { counter = f w.counter })

module _ {E A : Type 0} where
  abbrev pub stay : E → Option (A × Db) → M E A
  stay e none w = (err e, w)
  stay e (some (a, d)) w = (ok a, record w { working = d })

  abbrev pub store : E → Option (A × Db) → M E A
  store e none w = (err e, w)
  store e (some (a, d)) w = (ok a, record w { committed = d; working = d })

  -- A statement in the open transaction.
  unfoldable pub execute : E → Sql A → M E A
  unfolding attempt ◌>>=◌
  execute e s = attempt e >> λ w. stay e (s w.clock w.working) w

  -- A statement on the pool, a transaction of its own.
  unfoldable pub execute_alone : E → Sql A → M E A
  unfolding attempt ◌>>=◌
  execute_alone e s = attempt e >> λ w. store e (s w.clock w.committed) w

module _ {E A : Type 0} where
  -- A statement on the pool that only reads.
  unfoldable pub query : E → (Db → A) → M E A
  unfolding attempt ◌>>=◌
  query e f = attempt e >> λ w. (ok (f w.committed), w)

-- A statement that only reads.
abbrev pub reading : {A : Type 0} → (Db → A) → Sql A
reading f now d = some (f d, d)
