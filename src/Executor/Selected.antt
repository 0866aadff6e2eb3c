-- ===== src/Executor/Selected.antt =====
-- What a digest takes of its window: how many posts, and one revision of each.
use ratatoskr_channel_digest.Prelude.{
  ℕ, zero, suc, ◌≤◌, Bool, true, false, ◌&&◌, List, [], ◌∷◌, map, ◌≡◌, refl, ap, sym, ◌∙◌, arith,
  min, ◌==◌, length, All, All-rows, All-rows-true, All-both, contains, rows, sort, take,
  length-sort, length-append, Distinct, Bool-cases, inl, inr, if◌then◌else◌,
}
use ratatoskr_channel_digest.Contracts.{External}
use ratatoskr_channel_digest.Schema.{Db, Revision}
use ratatoskr_channel_digest.Executor.Selection.{
  selection, in_window, is_servable, is_latest, same_post, observed_before, eligible_revisions,
  newest_revisions, is_newer_post, reversed, source_of,
}

module _ {A : Type 0} where
  length-reversed : (xs : List A) → length (reversed xs) ≡ length xs
  unfolding reversed
  length-reversed [] = refl
  length-reversed (x ∷ xs) = omega (arith, length-append (reversed xs) (x ∷ []), length-reversed xs)

  length-take : (n : ℕ) (xs : List A) → length (take n xs) ≡ min n (length xs)
  length-take zero xs = omega arith
  length-take (suc n) [] = omega arith
  length-take (suc n) (x ∷ xs) = omega (arith, length-take n xs)

length-map : {A B : Type 0} (f : A → B) (xs : List A) → length (map f xs) ≡ length xs
length-map f [] = refl
length-map f (x ∷ xs) = ap suc (length-map f xs)

module _ ⦃ext : External⦄ (limit owner start end : ℕ) (d : Db) where
  -- A digest takes as many posts as there are, up to its limit, which is at least one; and it knows how
  -- many there were, so that it can tell when the limit left some out.
  pub selection-length :
      1 ≤ limit
      → ((selection limit owner start end d).eligible
          ≡ length (eligible_revisions owner start end d))
        × (length (selection limit owner start end d).sources
            ≡ min limit (selection limit owner start end d).eligible)
  unfolding selection newest_revisions
  selection-length h =
      let es = eligible_revisions owner start end d in
      let chosen = take limit (sort is_newer_post es) in
      let taken : length chosen ≡ min limit (length es) =
        length-take limit (sort is_newer_post es) ∙ ap (min limit) (length-sort is_newer_post es) in
      let mapped =
        length-map (source_of d (rows (in_window owner start end d) d.revisions)) (reversed chosen)
        ∙ length-reversed chosen in
      let known : (if length chosen == 0 then 0 else length es) ≡ length es =
        ground (arith, h, taken) in
      (known, mapped ∙ taken ∙ ap (min limit) (sym known))

-- The primary key of the revisions.
abbrev pub same_revision : Revision → Revision → Bool
same_revision a b = a.revision_id == b.revision_id

contains-rows :
    {A : Type 0} (p q : A → Bool) (xs : List A)
    → contains p xs ≡ false
    → contains p (rows q xs) ≡ false
unfolding contains rows
contains-rows p q [] h = refl
contains-rows p q (x ∷ xs) h = elim (Bool-cases (q x)) [
  | inl e ↦ rw e (ground (arith, h, contains-rows p q xs))
  | inr e ↦ rw e (contains-rows p q xs (ground (arith, h)))
]

rows-Distinct :
    {A : Type 0} (same : A → A → Bool) (q : A → Bool) (xs : List A)
    → Distinct same xs
    → Distinct same (rows q xs)
unfolding rows
rows-Distinct same q [] h = tt
rows-Distinct same q (x ∷ xs) h = elim (Bool-cases (q x)) [
  | inl e ↦ rw e (contains-rows (same x) q xs h.0, rows-Distinct same q xs h.1)
  | inr e ↦ rw e (rows-Distinct same q xs h.1)
]

module _ (servable : List Revision) where
  -- Two latest revisions of one post have one identity.
  latest-apart :
      (x : Revision) (xs : List Revision)
      → contains (λ z. same_post z x && observed_before x z) xs ≡ false
      → ((z : Revision)
          → is_latest servable z ≡ true
          → same_post x z && observed_before z x ≡ false)
      → contains (same_revision x) xs ≡ false
      → contains (same_post x) (rows (is_latest servable) xs) ≡ false
  unfolding contains rows
  latest-apart x [] h k other = refl
  latest-apart x (z ∷ zs) h k other = elim (Bool-cases (is_latest servable z)) [
    | inl e ↦
        let rest = latest-apart x zs (ground (arith, h)) k (ground (arith, other)) in
        let behind : same_post x z && observed_before z x ≡ false = k z e in
        let apart : same_post x z ≡ false = ground (arith, h, behind, other) in
        rw (e, apart, rest) refl
    | inr e ↦ rw e (latest-apart x zs (ground (arith, h)) k (ground (arith, other)))
  ]

  latest-Distinct :
      (xs : List Revision)
      → ((p : Revision → Bool) → contains p servable ≡ false → contains p xs ≡ false)
      → Distinct same_revision xs
      → Distinct same_post (rows (is_latest servable) xs)
  unfolding contains rows
  latest-Distinct [] sub distinct = tt
  latest-Distinct (x ∷ xs) sub distinct =
      let rest = latest-Distinct xs (λ p h. ground (arith, sub p h)) distinct.1 in
      elim (Bool-cases (is_latest servable x)) [
        | inr e ↦ rw e rest
        | inl e ↦
            let newest : contains (λ z. same_post z x && observed_before x z) (x ∷ xs) ≡ false =
              sub (λ z. same_post z x && observed_before x z) (ground (arith, e)) in
            rw e (
              latest-apart x xs (ground (arith, newest))
                  (λ z l.
                    let seen : contains (λ w. same_post w z && observed_before z w) (x ∷ xs)
                        ≡ false =
                      sub (λ w. same_post w z && observed_before z w) (ground (arith, l)) in
                    ground (arith, seen))
                  distinct.0,
              rest,
            )
      ]

-- If revisions have distinct identities, the eligible ones are of distinct posts, and each of them is of
-- a channel that the owner follows, published in the window, not withdrawn, and has its text.
pub eligible_revisions-Distinct :
    (owner start end : ℕ) (d : Db)
    → Distinct same_revision d.revisions
    → Distinct same_post (eligible_revisions owner start end d)
      × All
          (λ r. (in_window owner start end d r ≡ true) × (is_servable d r ≡ true))
          (eligible_revisions owner start end d)
unfolding eligible_revisions
eligible_revisions-Distinct owner start end d distinct =
    let windowed = rows (in_window owner start end d) d.revisions in
    let servable = rows (is_servable d) windowed in
    (
      latest-Distinct servable servable (λ p h. h)
          (rows-Distinct same_revision _ windowed
            (rows-Distinct same_revision _ d.revisions distinct)),
      All-rows _ _ servable (
          All-both _ _ servable
            (All-rows _ _ windowed (All-rows-true (in_window owner start end d) d.revisions))
            (All-rows-true (is_servable d) windowed)),
    )
