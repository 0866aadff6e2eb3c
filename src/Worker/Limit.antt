-- ===== src/Worker/Limit.antt =====
-- schema.sql: an owner never has more than twenty active subscriptions, whatever the worker does.
use ratatoskr_channel_digest.Prelude.{
  ℕ, suc, ◌≤◌, String, Bool, true, false, not, ◌&&◌, none, some, List, [], ◌∷◌, ◌==◌, if◌then◌else◌,
  ◌≡◌, refl, ap, sym, subst, ◌∙◌, arith, contains, update, count, select, All, Distinct,
  Distinct-update, update-none, count-contains, Bool-cases, inl, inr,
}
use ratatoskr_channel_digest.Contracts.{External}
use ratatoskr_channel_digest.Schema.{Db, Subscription}
use ratatoskr_channel_digest.Storage.{World}
use ratatoskr_channel_digest.Storage.Rules.{Stable}
use ratatoskr_channel_digest.Worker.{Respects, Operation, perform_all}
use ratatoskr_channel_digest.Worker.Preservation.{perform_all_keeps}
use ratatoskr_channel_digest.Worker.Frames
use ratatoskr_channel_digest.Worker.Frames.{
  Stable-kept, Kept, Kept-maybe, Kept-if, Kept-none, Kept-some, Kept-or_limit, passed, kept_rules,
}
use ratatoskr_channel_digest.Statements.{
  active_of, max_active, limit_reached, change_subscription, add_subscription, set_in_channel,
  ensure_channel, set_subscription,
}

abbrev same_subscription : Subscription → Subscription → Bool
same_subscription s t = s.subscription_id == t.subscription_id

abbrev by_id : ℕ → Subscription → Bool
by_id id t = t.subscription_id == id

abbrev set_enabled : Bool → ℕ → Subscription → Subscription
set_enabled e at t = record t { enabled = e; updated_at = at }

-- Subscriptions have an identity of their own, and twenty at most of an owner are active.
abbrev pub IsLimited : Db → Type 0
IsLimited d =
    Distinct same_subscription d.subscriptions
    × ((owner : ℕ) → count (active_of owner) d.subscriptions ≤ max_active)

contains-by_id :
    (s : Subscription) (id : ℕ) (xs : List Subscription)
    → s.subscription_id ≡ id
    → contains (same_subscription s) xs ≡ contains (by_id id) xs
unfolding contains
contains-by_id s id [] h = refl
contains-by_id s id (x ∷ xs) h = ground (arith, h, contains-by_id s id xs h)

none-by_id :
    (P : Subscription → Type 0) (id : ℕ) (xs : List Subscription)
    → contains (by_id id) xs ≡ false
    → All (λ x. by_id id x ≡ true → P x) xs
unfolding contains
none-by_id P id [] h = tt
none-by_id P id (x ∷ xs) h =
    ((λ e. absurd (ground (arith, h, e))), none-by_id P id xs (ground (arith, h)))

select-by_id :
    (q : Subscription → Bool) (s : Subscription) (xs : List Subscription)
    → select q xs ≡ some s
    → contains (by_id s.subscription_id) xs ≡ true
unfolding select contains
select-by_id q s [] h = absurd (cc)
select-by_id q s (x ∷ xs) h = elim (Bool-cases (q x)) [
  | inl e ↦
      let same : x ≡ s = ground (arith, h, e) in
      let id : x.subscription_id ≡ s.subscription_id =
        ap (λ (t : Subscription). t.subscription_id) same in
      ground (arith, id)
  | inr e ↦ ground (arith, select-by_id q s xs (ground (arith, h, e)))
]

-- The rows of an identity are one row.
select-IsUnique :
    (q : Subscription → Bool) (s : Subscription) (xs : List Subscription)
    → Distinct same_subscription xs
    → select q xs ≡ some s
    → All (λ x. by_id s.subscription_id x ≡ true → x ≡ s) xs
unfolding select
select-IsUnique q s [] d h = tt
select-IsUnique q s (x ∷ xs) d h = elim (Bool-cases (q x)) [
  | inl e ↦
      let same : x ≡ s = ground (arith, h, e) in
      let id : x.subscription_id ≡ s.subscription_id =
        ap (λ (t : Subscription). t.subscription_id) same in
      (
        (λ _. same),
        none-by_id (λ y. y ≡ s) s.subscription_id xs
            (sym (contains-by_id x s.subscription_id xs id) ∙ d.0),
      )
  | inr e ↦
      let later : select q xs ≡ some s = ground (arith, h, e) in
      let there = select-by_id q s xs later in
      (
        (λ i.
            let id : x.subscription_id ≡ s.subscription_id = ground (arith, i) in
            let gone = sym (contains-by_id x s.subscription_id xs id) ∙ d.0 in absurd (cc)),
        select-IsUnique q s xs d.1 later,
      )
]

-- An update that makes no row active leaves the count where it was or lower.
count-update-le :
    (p q : Subscription → Bool) (f : Subscription → Subscription) (xs : List Subscription)
    → All (λ x. q x ≡ true → p (f x) ≡ true → p x ≡ true) xs
    → count p (update q f xs) ≤ count p xs
unfolding count update
count-update-le p q f [] k = omega arith
count-update-le p q f (x ∷ xs) k =
    let rest = count-update-le p q f xs k.1 in
    elim (Bool-cases (q x)) [
      | inl e ↦ elim (Bool-cases (p (f x))) [
        | inl t ↦ rw (e, t, k.0 e t) (omega (arith, rest))
        | inr n ↦ ground (arith, e, n, rest)
      ]
      | inr e ↦ ground (arith, e, rest)
    ]

-- An update of one identity makes one row active at most.
count-update-suc :
    (p : Subscription → Bool) (id : ℕ) (f : Subscription → Subscription) (xs : List Subscription)
    → Distinct same_subscription xs
    → count p (update (by_id id) f xs) ≤ suc (count p xs)
unfolding count update
count-update-suc p id f [] d = omega arith
count-update-suc p id f (x ∷ xs) d = elim (Bool-cases (by_id id x)) [
  | inl e ↦
      let at : x.subscription_id ≡ id = ground arith in
      let none_left = sym (contains-by_id x id xs at) ∙ d.0 in
      let same = update-none (by_id id) f xs (count-contains (by_id id) xs none_left) in
      ground (arith, e, same)
  | inr e ↦ ground (arith, e, count-update-suc p id f xs d.1)
]

not_blocked : (b : Bool) (c d : Db) → (if b then none else some c) ≡ some d → b ≡ false
not_blocked true c d h = absurd (cc)
not_blocked false c d h = refl

-- Below the limit there is room for one more.
room :
    (holder owner : ℕ) (d : Db)
    → limit_reached holder d ≡ false
    → holder ≡ owner
    → suc (count (active_of owner) d.subscriptions) ≤ max_active
room holder owner d free same =
    subst (λ o. suc (count (active_of o) d.subscriptions) ≤ max_active) same (ground (arith, free))

All-unique :
    (s : Subscription) (Q : Subscription → Type 0) (id : ℕ) (xs : List Subscription)
    → Q s
    → All (λ x. by_id id x ≡ true → x ≡ s) xs
    → All (λ x. by_id id x ≡ true → Q x) xs
All-unique s Q id [] k h = tt
All-unique s Q id (x ∷ xs) k h = ((λ e. subst Q (sym (h.0 e)) k), All-unique s Q id xs k h.1)

-- A subscription that exists and is enabled under the limit, disabled, or kept as it was.
change-IsLimited :
    (q : Subscription → Bool) (s : Subscription) (e : Bool) (at : ℕ) (d d' : Db)
    → select q d.subscriptions ≡ some s
    → IsLimited d
    → change_subscription s e at d ≡ some d'
    → IsLimited d'
unfolding change_subscription
change-IsLimited q s e at d d' found (distinct, limit) h =
    let blocked = e && not s.enabled && limit_reached s.owner_id d in
    let rows = select-IsUnique q s d.subscriptions distinct found in
    subst IsLimited (passed blocked _ d' h) (
      Distinct-update same_subscription (by_id s.subscription_id) (set_enabled e at) (λ x y. refl)
          (λ x y. refl) d.subscriptions distinct,
      λ owner. elim (Bool-cases (e && not s.enabled && s.owner_id == owner)) [
        | inl t ↦
            let free : limit_reached s.owner_id d ≡ false =
              ground (arith, t, not_blocked blocked _ d' h) in
            let one = room s.owner_id owner d free (ground (arith, t)) in
            omega (
              arith,
              one,
              count-update-suc (active_of owner) s.subscription_id (set_enabled e at)
                  d.subscriptions distinct,
            )
        | inr f ↦ omega (
          arith,
          limit owner,
          count-update-le (active_of owner) (by_id s.subscription_id) (set_enabled e at)
              d.subscriptions
              (All-unique s
                (λ x. active_of owner (set_enabled e at x) ≡ true → active_of owner x ≡ true)
                s.subscription_id d.subscriptions (λ a. ground (arith, a, f)) rows),
        )
      ],
    )

add-IsLimited :
    (s : Subscription) (d d' : Db)
    → contains (by_id s.subscription_id) d.subscriptions ≡ false
    → IsLimited d
    → add_subscription s d ≡ some d'
    → IsLimited d'
unfolding add_subscription count
add-IsLimited s d d' new (distinct, limit) h =
    subst IsLimited (passed (s.enabled && limit_reached s.owner_id d) _ d' h) (
      (contains-by_id s s.subscription_id d.subscriptions refl ∙ new, distinct),
      λ owner. elim (Bool-cases (active_of owner s)) [
        | inl t ↦
            let free : limit_reached s.owner_id d ≡ false =
              ground (arith, t, not_blocked (s.enabled && limit_reached s.owner_id d) _ d' h) in
            let one = room s.owner_id owner d free (ground (arith, t)) in ground (arith, t, one)
        | inr f ↦ ground (arith, f, limit owner)
      ],
    )

ensure_channel-IsLimited :
    (id : ℕ) (username : String) (d : Db)
    → IsLimited d
    → Kept IsLimited (ensure_channel id username d)
unfolding ensure_channel
ensure_channel-IsLimited id username d k = search kept_rules

set_in_channel-IsLimited :
    (id owner : ℕ) (enabled : Bool) (at : ℕ) (before : Db) (found : ℕ × Db)
    → IsLimited before
    → IsLimited (found.1)
    → Kept IsLimited (set_in_channel id owner enabled at before found)
unfolding set_in_channel
set_in_channel-IsLimited id owner enabled at before (channel, d) b k =
    search (kept_rules, Kept-or_limit, add-IsLimited, change-IsLimited)

set_subscription-IsLimited :
    (id channel owner : ℕ) (username : String) (enabled : Bool)
    → Stable IsLimited (set_subscription id channel owner username enabled)
unfolding set_subscription
set_subscription-IsLimited id channel owner username enabled = Stable-kept _ λ now d k.
    Kept-maybe (ensure_channel channel username d) _ _ (λ _. Kept-none)
      λ found e.
        set_in_channel-IsLimited id owner enabled now d found k
          ((ensure_channel-IsLimited channel username d k).at found.0 found.1 e)

IsLimited-Respects : ⦃ext : External⦄ → Respects IsLimited
IsLimited-Respects ⦃ext⦄ = record {
  report = λ id row. Frames.insert_outbox_once-Stable (λ d o k. k) _;
  recap = λ id m request operation. Frames.insert_outbox-Stable (λ d o k. k) _;
  registration = λ id key owner payload. Frames.upsert_registration-Stable (λ d o k. k) _;
  published = Frames.mark_published-Stable (λ d o k. k);
  refused = Frames.mark_refused-Stable (λ d o k. k);
  inbox = Frames.insert_inbox-Stable (λ d o k. k);
  inbox_completed = Frames.complete_inbox-Stable (λ d o k. k);
  run_created =
      λ id owner operation t key start end l. Frames.create_digest_run-Stable (λ d o k. k) _;
  run_fanned_out =
      λ id owner operation t key start end l. Frames.insert_run_once-Stable (λ d o k. k) _;
  runs_moved = λ p f legal. Frames.update_runs-Stable (λ d o k. k) p f;
  runs_reaped = Frames.reap_runs-Stable (λ d o k. k);
  manifest = Frames.insert_manifest-Stable (λ d o k. k);
  messages = Frames.insert_messages-Stable (λ d o k. k);
  result = Frames.insert_result-Stable (λ d o k. k);
  completion = Frames.insert_completion-Stable (λ d o k. k);
  subscription = set_subscription-IsLimited;
  appended = λ id o published observed. Frames.append_revision-Stable (λ d o k. k) _;
  withdrawn = Frames.withdraw-Stable (λ d o k. k) (λ d o k. k);
  leased = Frames.put_lease-Stable (λ d o k. k);
  bodies_minimized = Frames.minimize_revisions-Stable (λ d o k. k);
  texts_minimized = Frames.minimize_manifests-Stable (λ d o k. k);
}

-- If subscriptions have distinct identities and no owner has more than twenty active ones, in the
-- committed database and in the working copy, the same holds of the committed database after any
-- sequence of the worker's operations, whichever calls of the database fail.
pub perform_all-IsLimited :
    ⦃ext : External⦄ (os : List Operation) (w : World)
    → IsLimited w.committed
    → IsLimited w.working
    → IsLimited (perform_all os w).committed
perform_all-IsLimited ⦃ext⦄ os w k l = (perform_all_keeps IsLimited-Respects os w (k, l)).0
