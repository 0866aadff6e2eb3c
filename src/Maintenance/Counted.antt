-- ===== src/Maintenance/Counted.antt =====
-- The counters of the retention against what the database lost.
use ratatoskr_channel_digest.Prelude.{
  ℕ, ◌+◌, ◌-◌, ◌*◌, ◌^◌, ◌%◌, ◌≤◌, suc, Bool, true, false, ◌&&◌, List, [], ◌∷◌, ◌≡◌, refl, arith,
  ltb, ◌==◌, is_some, count, contains, rows, update, sort, take, All, All-take, All-sort,
  All-rows-apart, contains-All, Distinct, Bool-cases, inl, inr, Distinct-update,
}
use ratatoskr_channel_digest.Schema.{Db, Manifest, Revision}
use ratatoskr_channel_digest.Storage.{World, pure, raise, ◌>>=◌, attempt, tally, execute_alone}
use ratatoskr_channel_digest.Metrics.{add_bodies, add_manifests}
use ratatoskr_channel_digest.Executor.Selected.{same_revision}
use ratatoskr_channel_digest.Maintenance.{
  has_expired, is_older_post, expired_revisions, among_revisions, without_body, minimize_revisions,
  minimize_before, is_spent, is_older_manifest, spent_manifests, among_manifests, without_text,
  minimize_manifests, minimize_manifests_before, hour, sweep_batch, sweep_once,
}

module _ {A : Type 0} where
  -- An update that takes the mark from the rows it changes, which all had it.
  pub count-update_lost :
      (p q : A → Bool) (f : A → A)
      → ((x : A) → q (f x) ≡ false)
      → (xs : List A) → All (λ x. p x ≡ true → q x ≡ true) xs
      → count q (update p f xs) + count p xs ≡ count q xs
  unfolding count update
  count-update_lost p q f lost [] h = refl
  count-update_lost p q f lost (x ∷ xs) h =
      let rest = count-update_lost p q f lost xs h.1 in
      elim (Bool-cases (p x)) [
        | inl e ↦ let had = h.0 e in rw (e, had, lost x) (omega arith)
        | inr e ↦ rw e (omega arith)
      ]

  apart : (p : A → Bool) (xs : List A) → contains p xs ≡ false → All (λ x. p x ≡ false) xs
  unfolding contains
  apart p [] h = tt
  apart p (x ∷ xs) h = (ground (arith, h), apart p xs (ground (arith, h)))

  module _ (same : A → A → Bool) (swap : (x y : A) → same x y ≡ same y x) where
    implied :
        (q : A → Bool) (x y : A) (xs : List A)
        → same x y ≡ false
        → (contains (λ c. same c y && q c) xs ≡ true → q y ≡ true)
        → contains (λ c. same c y && q c) (x ∷ xs) ≡ true
        → q y ≡ true
    unfolding contains
    implied q x y xs h k e = k (ground (arith, h, e))

    other_false :
        (q : A → Bool) (x : A) (xs : List A)
        → contains (same x) xs ≡ false
        → contains (λ c. same c x && q c) xs ≡ false
    unfolding contains
    other_false q x [] h = refl
    other_false q x (y ∷ xs) h = ground (arith, h, swap x y, other_false q x xs (ground (arith, h)))

    All-implied :
        (q : A → Bool) (x : A) (xs ys : List A)
        → All (λ y. same x y ≡ false) ys
        → All (λ y. contains (λ c. same c y && q c) xs ≡ true → q y ≡ true) ys
        → All (λ y. contains (λ c. same c y && q c) (x ∷ xs) ≡ true → q y ≡ true) ys
    All-implied q x xs [] h k = tt
    All-implied q x xs (y ∷ ys) h k = (implied q x y xs h.0 k.0, All-implied q x xs ys h.1 k.1)

    -- Where keys are unique, a row with the key of a chosen row is the chosen one.
    Distinct-own :
        (q : A → Bool) (xs : List A)
        → Distinct same xs
        → All (λ y. contains (λ c. same c y && q c) xs ≡ true → q y ≡ true) xs
    unfolding contains
    Distinct-own q [] d = tt
    Distinct-own q (x ∷ xs) d = (
      (λ e. ground (arith, e, other_false q x xs d.0)),
      All-implied q x xs xs (apart (same x) xs d.0) (Distinct-own q xs d.1),
    )

  -- A row with the key of one that a batch took has the key of a row that the batch could take.
  taken :
      (same : A → A → Bool) (older : A → A → Bool) (q : A → Bool) (limit : ℕ) (xs : List A) (x : A)
      → contains (λ c. same c x) (take limit (sort older (rows q xs))) ≡ true
      → contains (λ c. same c x && q c) xs ≡ true
  taken same older q limit xs x h = elim (Bool-cases (contains (λ c. same c x && q c) xs)) [
    | inl e ↦ e
    | inr e ↦
        let none_taken =
          contains-All (λ c. same c x) (take limit (sort older (rows q xs)))
            (All-take _ limit _ (All-sort older _ _ (All-rows-apart (λ c. same c x) q xs e))) in
        absurd (cc)
  ]

  All-mono : {P Q : A → Type 0} (xs : List A) → ((x : A) → P x → Q x) → All P xs → All Q xs
  All-mono [] f h = tt
  All-mono (x ∷ xs) f h = (f x h.0, All-mono xs f h.1)

abbrev pub same_manifest : Manifest → Manifest → Bool
same_manifest a b = a.manifest_id == b.manifest_id

-- The primary keys of revisions and manifests are unique.
pub record IsKeyed (d : Db) : Type 0 where
  pub revisions : Distinct same_revision d.revisions
  pub manifests : Distinct same_manifest d.manifests

abbrev pub bodies_of : Db → ℕ
bodies_of d = count (λ (r : Revision). is_some r.body) d.revisions

abbrev pub texts_of : Db → ℕ
texts_of d = count (λ (m : Manifest). is_some m.canonical_text) d.manifests

revisions_lost :
    (before limit now : ℕ) (d : Db)
    → IsKeyed d
    → count
          (λ (r : Revision). is_some r.body)
          (update
            (among_revisions (expired_revisions before limit d.revisions))
            (without_body now)
            d.revisions)
        + count (among_revisions (expired_revisions before limit d.revisions)) d.revisions
      ≡ bodies_of d
unfolding expired_revisions
revisions_lost before limit now d k =
    count-update_lost _ _ (without_body now) (λ r. refl) d.revisions
      (All-mono d.revisions
        (λ r own h.
          let expired =
            own (taken same_revision is_older_post (has_expired before) limit d.revisions r h) in
          ground (arith, expired))
        (Distinct-own same_revision (λ a b. ground arith) (has_expired before) d.revisions
          k.revisions))

texts_lost :
    (before limit now : ℕ) (d : Db)
    → IsKeyed d
    → count
          (λ (m : Manifest). is_some m.canonical_text)
          (update (among_manifests (spent_manifests before limit d)) (without_text now) d.manifests)
        + count (among_manifests (spent_manifests before limit d)) d.manifests
      ≡ texts_of d
unfolding spent_manifests
texts_lost before limit now d k =
    count-update_lost _ _ (without_text now) (λ m. refl) d.manifests
      (All-mono d.manifests
        (λ m own h.
          let spent = own (
            taken same_manifest (is_older_manifest d.runs) (is_spent before d.runs) limit
              d.manifests m h) in
          ground (arith, spent))
        (Distinct-own same_manifest (λ a b. ground arith) (is_spent before d.runs) d.manifests
          k.manifests))

-- A counter of 64 bits has moved by what was lost, and nothing was gained.
pub record IsMoved (before after lost_from left : ℕ) : Type 0 where
  pub down : left ≤ lost_from
  pub counted : after % 2 ^ 64 ≡ (before + (lost_from - left)) % 2 ^ 64

-- The keys are unique still, and both counters have moved by what the database lost.
pub record IsCounted (v w : World) : Type 0 where
  pub keyed : IsKeyed w.committed
  pub bodies :
      IsMoved v.counter.bodies w.counter.bodies (bodies_of v.committed) (bodies_of w.committed)
  pub texts :
      IsMoved v.counter.manifests w.counter.manifests (texts_of v.committed) (texts_of w.committed)

pub IsMoved-same : (c n : ℕ) → IsMoved c c n n
IsMoved-same c n = record { down = omega arith; counted = omega arith }

pub IsMoved-add : (c n left lost : ℕ) → left + n ≡ lost → IsMoved c ((c + n) % 2 ^ 64) lost left
IsMoved-add c n left lost h = record { down = omega (arith, h); counted = omega (arith, h) }

pub IsMoved-trans : (c d e x y z : ℕ) → IsMoved c d x y → IsMoved d e y z → IsMoved c e x z
IsMoved-trans c d e x y z h k = record {
  down = omega (arith, h.down, k.down);
  counted = omega (arith, h.down, k.down, h.counted, k.counted);
}

revisions-IsKeyed :
    (p : Revision → Bool) (now : ℕ) (d : Db)
    → IsKeyed d
    → IsKeyed (record d { revisions = update p (without_body now) d.revisions })
revisions-IsKeyed p now d k = record {
  revisions =
      Distinct-update same_revision p (without_body now) (λ a b. refl) (λ a b. refl) d.revisions
        k.revisions;
  manifests = k.manifests;
}

manifests-IsKeyed :
    (p : Manifest → Bool) (f : Manifest → Manifest) (d : Db)
    → ((m : Manifest) → (f m).manifest_id ≡ m.manifest_id)
    → IsKeyed d
    → IsKeyed (record d { manifests = update p f d.manifests })
manifests-IsKeyed p f d same k = record {
  revisions = k.revisions;
  manifests =
      Distinct-update same_manifest p f (λ a b. rw (same a)) (λ a b. rw (same b)) d.manifests
        k.manifests;
}

pub IsCounted-refl : (w : World) → IsKeyed w.committed → IsCounted w w
IsCounted-refl w k = record { keyed = k; bodies = IsMoved-same _ _; texts = IsMoved-same _ _ }

pub IsCounted-trans : (u v w : World) → IsCounted u v → IsCounted v w → IsCounted u w
IsCounted-trans u v w h k = record {
  keyed = k.keyed;
  bodies = IsMoved-trans _ _ _ _ _ _ h.bodies k.bodies;
  texts = IsMoved-trans _ _ _ _ _ _ h.texts k.texts;
}

-- One sweep, whichever of its calls fails, moves both counters by the bodies and the texts that it
-- took from the database.
pub sweep_once-IsCounted :
    (days now : ℕ) (w : World) → IsKeyed w.committed → IsCounted w (sweep_once days now w).1
unfolding sweep_once minimize_before minimize_manifests_before minimize_revisions minimize_manifests
    execute_alone attempt tally add_bodies add_manifests pure raise ◌>>=◌
sweep_once-IsCounted days now w k = elim (Bool-cases (ltb now (24 * days * hour))) [
  | inl e ↦ rw e (IsCounted-refl w k)
  | inr e ↦ elim (Bool-cases (w.fails w.calls)) [
    | inl f ↦ rw (e, f) (record { keyed = k; bodies = IsMoved-same _ _; texts = IsMoved-same _ _ })
    | inr f ↦
        let before = now - 24 * days * hour in
        let swept =
          update (among_revisions (expired_revisions before sweep_batch w.committed.revisions))
            (without_body w.clock) w.committed.revisions in
        let kept =
          revisions-IsKeyed
            (among_revisions (expired_revisions before sweep_batch w.committed.revisions)) w.clock
            w.committed k in
        let moved =
          IsMoved-add w.counter.bodies _ _ _
            (revisions_lost before sweep_batch w.clock w.committed k) in
        elim (Bool-cases (w.fails (suc w.calls))) [
          | inl g ↦ rw (e, f, g) (record { keyed = kept; bodies = moved; texts = IsMoved-same _ _ })
          | inr g ↦
              rw (e, f, g)
                (record {
                  keyed = manifests-IsKeyed _ (without_text w.clock) _ (λ m. refl) kept;
                  bodies = moved;
                  texts = IsMoved-add _ _ _ _ (
                      texts_lost before sweep_batch w.clock
                        (record w.committed { revisions = swept }) kept);
                })
        ]
  ]
]
