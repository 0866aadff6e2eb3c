-- ===== src/Api/Scope.antt =====
-- Every read is scoped to its owner: it answers the same where the rows of the others are gone.
use ratatoskr_channel_digest.Prelude.{
  ℕ, String, Bool, true, ◌&&◌, Option, List, [], ◌∷◌, ◌≡◌, refl, ap, arith, ◌==◌, maybe, map, sort,
  take, select, rows, is_some, Bool-cases, Option-cases, inl, inr,
}
use ratatoskr_channel_digest.Contracts.{External}
use ratatoskr_channel_digest.Schema.{Db, Manifest, DigestResult, Subscription, Channel}
use ratatoskr_channel_digest.Storage.{Result, ok, err, World, M, query, attempt, lift, pure, ◌>>=◌}
use ratatoskr_channel_digest.ResultReader.{Upstream}
use ratatoskr_channel_digest.Api.{
  ApiParsers, get_manifest, get_result, list_subscriptions, is_claimed, is_result_of,
  subscription_rows, page_limit_of, joined, parsed, activated_later,
}
use ratatoskr_channel_digest.Api.Listing.{list_results, result_rows, created_later}

module _ {A : Type 0} where
  select-rows :
      (p q : A → Bool) (xs : List A)
      → ((x : A) → p x ≡ true → q x ≡ true)
      → select p (rows q xs) ≡ select p xs
  unfolding select rows
  select-rows p q [] h = refl
  select-rows p q (x ∷ xs) h = elim (Bool-cases (q x)) [
    | inl e ↦ rw (e, select-rows p q xs h) refl
    | inr e ↦ elim (Bool-cases (p x)) [
      | inl f ↦ let g = h x f in absurd (cc)
      | inr f ↦ rw (e, f) (select-rows p q xs h)
    ]
  ]

  rows-rows :
      (p q : A → Bool) (xs : List A)
      → ((x : A) → p x ≡ true → q x ≡ true)
      → rows p (rows q xs) ≡ rows p xs
  unfolding rows
  rows-rows p q [] h = refl
  rows-rows p q (x ∷ xs) h = elim (Bool-cases (q x)) [
    | inl e ↦ rw (e, rows-rows p q xs h) refl
    | inr e ↦ elim (Bool-cases (p x)) [
      | inl f ↦ let g = h x f in absurd (cc)
      | inr f ↦ rw (e, f) (rows-rows p q xs h)
    ]
  ]

-- What the owner has: the rows of the others are gone.
abbrev pub only_of : ℕ → Db → Db
only_of owner d = record d {
  manifests = rows (λ (m : Manifest). m.owner_id == owner) d.manifests;
  results = rows (λ (r : DigestResult). r.owner_id == owner) d.results;
  subscriptions = rows (λ (s : Subscription). s.owner_id == owner) d.subscriptions;
}

abbrev pub world_of : ℕ → World → World
world_of owner w = record w { committed = only_of owner w.committed }

-- A query that answers the same, followed by the same function of the answer.
query-same :
    {E A B : Type 0} (e : E) (f : Db → A) (g : A → B) (owner : ℕ) (w : World)
    → f (only_of owner w.committed) ≡ f w.committed
    → ((query e f >>= λ a. pure (g a)) (world_of owner w)).0 ≡ ((query e f >>= λ a. pure (g a)) w).0
unfolding query attempt ◌>>=◌ pure
query-same e f g owner w h = elim (Bool-cases (w.fails w.calls)) [
  | inl x ↦ rw x refl
  | inr x ↦ rw (x, h) refl
]

lift-same :
    {E A B : Type 0} (r : Result E A) (f : A → M E B) (owner : ℕ) (w : World)
    → ((a : A) → (f a (world_of owner w)).0 ≡ (f a w).0)
    → ((lift r >>= f) (world_of owner w)).0 ≡ ((lift r >>= f) w).0
unfolding lift ◌>>=◌
lift-same (ok a) f owner w h = h a
lift-same (err e) f owner w h = refl

module _ ⦃ext : External⦄ ⦃parse : ApiParsers⦄ (owner : ℕ) (w : World) where
  pub get_manifest-same :
      (manifest : ℕ) (run digest : Option String)
      → (get_manifest owner manifest run digest (world_of owner w)).0
        ≡ (get_manifest owner manifest run digest w).0
  unfolding get_manifest pure maybe
  get_manifest-same manifest run digest = elim (Option-cases (parsed parse.parse_run run)) [
    | inl e ↦ rw e refl
    | inr (r, e) ↦ elim (Option-cases (parsed parse.parse_digest digest)) [
      | inl f ↦ rw (e, f) refl
      | inr (d, f) ↦
          rw (e, f)
            (query-same _ (λ db. select (is_claimed manifest owner r d) db.manifests) _ owner w
              (select-rows (is_claimed manifest owner r d) _ w.committed.manifests
                λ m h. ground (arith, h)))
    ]
  ]

  pub get_result-same :
      (upstream : Upstream) (result : ℕ)
      → (get_result upstream owner result (world_of owner w)).0
        ≡ (get_result upstream owner result w).0
  unfolding get_result
  get_result-same upstream result =
      query-same _ (λ db. select (is_result_of result owner) db.results) _ owner w
        (select-rows (is_result_of result owner) _ w.committed.results λ r h. ground (arith, h))

  subscription_rows-same :
      (limit : ℕ)
      → subscription_rows owner limit (only_of owner w.committed)
        ≡ subscription_rows owner limit w.committed
  unfolding subscription_rows
  subscription_rows-same limit =
      ap (λ ss. map (joined w.committed) (take limit (sort activated_later ss)))
        (rows-rows
          (λ (s : Subscription).
            s.owner_id == owner
            && is_some
                (select (λ (c : Channel). c.channel_id == s.channel_id) w.committed.channels))
          (λ (s : Subscription). s.owner_id == owner) w.committed.subscriptions
          λ s h. ground (arith, h))

  pub list_subscriptions-same :
      (page_limit page_size : ℕ)
      → (list_subscriptions page_limit owner page_size (world_of owner w)).0
        ≡ (list_subscriptions page_limit owner page_size w).0
  unfolding list_subscriptions
  list_subscriptions-same page_limit page_size =
      lift-same (page_limit_of page_limit page_size) _ owner w λ limit.
        query-same _ (subscription_rows owner limit) _ owner w (subscription_rows-same limit)

  pub list_results-same :
      (page_limit page_size : ℕ)
      → (list_results page_limit owner page_size (world_of owner w)).0
        ≡ (list_results page_limit owner page_size w).0
  unfolding list_results result_rows
  list_results-same page_limit page_size =
      lift-same (page_limit_of page_limit page_size) _ owner w λ limit.
        query-same _ (result_rows owner limit) _ owner w (
          ap (λ rs. take limit (sort created_later rs))
            (rows-rows (λ (r : DigestResult). r.owner_id == owner)
              (λ (r : DigestResult). r.owner_id == owner) w.committed.results λ r h. h))
