-- ===== src/Bus/Rounds.antt =====
-- One round of `publish_outbox` with a broker that acknowledges and a database that answers.
use ratatoskr_channel_digest.Prelude.{
  ℕ, zero, suc, ◌+◌, ◌-◌, ◌≤◌, Bool, true, false, not, ◌&&◌, some, List, [], ◌∷◌, ◌++◌, ◌==◌, maybe,
  ◌≡◌, refl, ◌∙◌, ap, sym, arith, length, length-drop, length-rows, All, All-rows, All-take,
  All-sort, All-update, rows, update, contains, count, take, drop, sort, count-sort, length-sort,
}
use ratatoskr_channel_digest.Contracts.{External}
use ratatoskr_channel_digest.Schema.{Outbox}
use ratatoskr_channel_digest.Storage.{World, ok, ◌>>=◌, pure, execute_alone}
use ratatoskr_channel_digest.Envelopes.{OutboundMessage, wrap_outbox_row}
use ratatoskr_channel_digest.Bus.Outbox.{
  is_due, is_earlier, due_rows, is_unpublished, mark_published, publish_rows, publish_outbox,
}

-- The rows that `publish_outbox` takes.
abbrev pub due_batch : ℕ → List Outbox → List Outbox
due_batch now xs = take 32 (sort is_earlier (rows (is_due now) xs))

abbrev as_published : ℕ → Outbox → Outbox
as_published now r = record r { published_at = some now; attempts = r.attempts + 1 }

mark_all : ℕ → List Outbox → List Outbox → List Outbox
mark_all now [] xs = xs
mark_all now (b ∷ bs) xs =
    mark_all now bs (update (is_unpublished b.outbox_id) (as_published now) xs)

abbrev is_among : List Outbox → Outbox → Bool
is_among bs x = contains (λ (b : Outbox). b.outbox_id == x.outbox_id) bs

-- Due, and not of the rows that were taken.
abbrev is_left : ℕ → List Outbox → Outbox → Bool
is_left now bs x = is_due now x && not (is_among bs x)

count-mark :
    (now : ℕ) (b : Outbox) (bs xs : List Outbox)
    → count (is_left now bs) (update (is_unpublished b.outbox_id) (as_published now) xs)
      ≡ count (is_left now (b ∷ bs)) xs
unfolding count update contains
count-mark now b bs [] = refl
count-mark now b bs (x ∷ xs) = ground (arith, count-mark now b bs xs)

count-mark_all :
    (now : ℕ) (bs xs : List Outbox)
    → count (is_left now []) (mark_all now bs xs) ≡ count (is_left now bs) xs
unfolding mark_all
count-mark_all now [] xs = refl
count-mark_all now (b ∷ bs) xs =
    count-mark_all now bs (update (is_unpublished b.outbox_id) (as_published now) xs)
    ∙ count-mark now b bs xs

count-nil : (now : ℕ) (xs : List Outbox) → count (is_left now []) xs ≡ count (is_due now) xs
unfolding count contains
count-nil now [] = refl
count-nil now (x ∷ xs) = ground (arith, count-nil now xs)

count-left :
    (now : ℕ) (bs xs : List Outbox)
    → count (is_left now bs) xs ≡ count (λ x. not (is_among bs x)) (rows (is_due now) xs)
unfolding count rows
count-left now bs [] = refl
count-left now bs (x ∷ xs) = ground (arith, count-left now bs xs)

count-le-length : {A : Type 0} (p : A → Bool) (xs : List A) → count p xs ≤ length xs
unfolding count
count-le-length p [] = omega arith
count-le-length p (x ∷ xs) = ground (arith, count-le-length p xs)

take-drop : {A : Type 0} (n : ℕ) (xs : List A) → take n xs ++ drop n xs ≡ xs
take-drop zero xs = refl
take-drop (suc n) [] = refl
take-drop (suc n) (x ∷ xs) = ap (λ l. x ∷ l) (take-drop n xs)

count-append :
    {A : Type 0} (p : A → Bool) (xs ys : List A) → count p (xs ++ ys) ≡ count p xs + count p ys
unfolding count
count-append p [] ys = omega arith
count-append p (x ∷ xs) ys = omega (arith, count-append p xs ys)

count-cons :
    (b : Outbox) (bs xs : List Outbox)
    → count (λ x. not (is_among (b ∷ bs) x)) xs ≤ count (λ x. not (is_among bs x)) xs
unfolding count contains
count-cons b bs [] = omega arith
count-cons b bs (x ∷ xs) = ground (arith, count-cons b bs xs)

count-among : (bs : List Outbox) → count (λ x. not (is_among bs x)) bs ≡ 0
unfolding count contains
count-among [] = refl
count-among (b ∷ bs) = ground (arith, count-cons b bs bs, count-among bs)

count-batch :
    (now : ℕ) (xs : List Outbox)
    → count (is_left now (due_batch now xs)) xs ≤ count (is_due now) xs - 32
count-batch now xs =
    let due = rows (is_due now) xs in
    let sorted = sort is_earlier due in
    let p = λ (x : Outbox). not (is_among (due_batch now xs) x) in
    let parts : count p sorted ≡ count p (take 32 sorted) + count p (drop 32 sorted) =
      ap (count p) (sym (take-drop 32 sorted)) ∙ count-append p (take 32 sorted) (drop 32 sorted) in
    omega (
      arith,
      count-left now (due_batch now xs) xs,
      count-sort is_earlier p due,
      parts,
      count-among (take 32 sorted),
      count-le-length p (drop 32 sorted),
      length-drop 32 sorted,
      length-sort is_earlier due,
      length-rows (is_due now) xs,
    )

-- Every call of the database goes through.
abbrev pub IsSound : World → Type 0
IsSound w = (n : ℕ) → w.fails n ≡ false

module _ ⦃ext : External⦄ (acknowledges : OutboundMessage → Bool) where
  -- The row is wrapped, and the broker acknowledges its message.
  abbrev pub IsDeliverable : Outbox → Type 0
  IsDeliverable r = (m : OutboundMessage) × (wrap_outbox_row r ≡ some m) × (acknowledges m ≡ true)

  -- What a round that publishes leaves: the rows marked, and all else of the world that matters.
  record Published (bs : List Outbox) (w v : World) : Type 0 where
    outbox : v.committed.outbox ≡ mark_all w.clock bs w.committed.outbox
    clock : v.clock ≡ w.clock
    fails : IsSound v

  publish_rows-Published :
      (refused : Bool) (bs : List Outbox) (w : World)
      → IsSound w
      → All IsDeliverable bs
      → ((publish_rows acknowledges refused bs w).0 ≡ ok refused)
        × Published bs w (publish_rows acknowledges refused bs w).1
  unfolding publish_rows ◌>>=◌ pure execute_alone mark_published mark_all maybe
  publish_rows-Published refused [] w s k =
      (refl, record { outbox = refl; clock = refl; fails = s })
  publish_rows-Published refused (b ∷ bs) w s k =
      let v : World = record w {
        calls = suc w.calls;
        committed = record w.committed {
          outbox = update (is_unpublished b.outbox_id) (as_published w.clock) w.committed.outbox;
        };
        working = record w.committed {
          outbox = update (is_unpublished b.outbox_id) (as_published w.clock) w.committed.outbox;
        };
      } in
      let rest = publish_rows-Published refused bs v s k.1 in
      rw (k.0.1, k.0.2, s w.calls)
        (rest.0, record { outbox = rest.1.outbox; clock = rest.1.clock; fails = rest.1.fails })

  published-IsDeliverable :
      (now : ℕ) (r : Outbox) → IsDeliverable r → IsDeliverable (as_published now r)
  unfolding wrap_outbox_row
  published-IsDeliverable now r k = k

  mark_all-IsDeliverable :
      (now : ℕ) (bs xs : List Outbox)
      → All IsDeliverable xs
      → All IsDeliverable (mark_all now bs xs)
  unfolding mark_all
  mark_all-IsDeliverable now [] xs k = k
  mark_all-IsDeliverable now (b ∷ bs) xs k = mark_all-IsDeliverable now bs _ (
      All-update IsDeliverable (is_unpublished b.outbox_id) (as_published now)
        (λ x e h. published-IsDeliverable now x h) xs k)

  -- A round ends well, takes 32 due rows or all, and can be followed by another.
  pub record Round (w v : World) : Type 0 where
    pub due :
        count (is_due v.clock) v.committed.outbox ≤ count (is_due w.clock) w.committed.outbox - 32
    pub sound : IsSound v
    pub deliverable : All IsDeliverable v.committed.outbox

  Published-Round :
      (w v : World)
      → All IsDeliverable w.committed.outbox
      → Published (due_batch w.clock w.committed.outbox) w v
      → Round w v
  Published-Round w v k p =
      let xs = w.committed.outbox in
      let bs = due_batch w.clock xs in
      record {
        due =
            rw (p.outbox, p.clock)
              (omega (
                arith,
                count-nil w.clock (mark_all w.clock bs xs),
                count-mark_all w.clock bs xs,
                count-batch w.clock xs,
              ));
        sound = p.fails;
        deliverable = rw p.outbox (mark_all-IsDeliverable w.clock bs xs k);
      }

  pub publish_outbox-Round :
      (w : World)
      → IsSound w
      → All IsDeliverable w.committed.outbox
      → ((publish_outbox acknowledges w).0 ≡ ok tt) × Round w (publish_outbox acknowledges w).1
  unfolding publish_outbox ◌>>=◌ pure execute_alone due_rows
  publish_outbox-Round w s k =
      let bs = due_batch w.clock w.committed.outbox in
      let v : World = record w { calls = suc w.calls; working = w.committed } in
      let batch : All IsDeliverable bs =
        All-take IsDeliverable 32 _
          (All-sort is_earlier IsDeliverable _ (All-rows IsDeliverable (is_due w.clock) _ k)) in
      let done = publish_rows-Published false bs v s batch in
      let round = Published-Round v _ k done.1 in
      rw (s w.calls, done.0)
        (refl, record { due = round.due; sound = round.sound; deliverable = round.deliverable })
