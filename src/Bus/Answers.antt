-- ===== src/Bus/Answers.antt =====
-- What a delivery has done to the database by the time that it is answered.
use ratatoskr_channel_digest.Prelude.{
  Bool, true, false, Option, none, some, List, [], ◌∷◌, if◌then◌else◌, ◌≡◌, refl, ap, sym, subst,
  ◌∙◌, ◌≢◌, arith,
}
use ratatoskr_channel_digest.Contracts.{OutputLanguage, External}
use ratatoskr_channel_digest.Schema.{Db, Outbox}
use ratatoskr_channel_digest.Storage.{
  Result, err, resume, World, ok, M, ◌>>=◌, raise, pure, execute_alone,
}
use ratatoskr_channel_digest.Storage.Rules.{Stable}
use ratatoskr_channel_digest.Storage.Alone.{
  Leaves, Leaves-if, Leaves-maybe, Leaves-bind, leaves_rules,
}
use ratatoskr_channel_digest.Envelopes.{OutboundMessage}
use ratatoskr_channel_digest.Bus.{DeliveryDisposition, handle}
use ratatoskr_channel_digest.Bus.Delivery.{handle-unchanged}
use ratatoskr_channel_digest.Bus.Outbox.{
  BusError, due_rows, mark_published, mark_refused, publish_rows, publish_outbox,
}
use ratatoskr_channel_digest.Bus.Consumption.{Message, AckKind, ack_of, process_delivery}

-- All tables but the outbox are as they were.
abbrev pub SameButOutbox : Db → Db → Type 0
SameButOutbox d e = e ≡ record d { outbox = e.outbox }

module _ (d : Db) where
  due_rows-Stable : Stable (SameButOutbox d) due_rows
  unfolding due_rows
  due_rows-Stable = record { at = λ now e a e' k h. ground arith }

  mark_published-Stable : (id : _) → Stable (SameButOutbox d) (mark_published id)
  unfolding mark_published
  mark_published-Stable id = record { at = λ now e a e' k h. ground arith }

  mark_refused-Stable : (id : _) → Stable (SameButOutbox d) (mark_refused id)
  unfolding mark_refused
  mark_refused-Stable id = record { at = λ now e a e' k h. ground arith }

  module _ ⦃ext : External⦄ (acknowledges : OutboundMessage → Bool) where
    publish_rows-Leaves :
        (refused : Bool) (rs : List Outbox)
        → Leaves (SameButOutbox d) (publish_rows acknowledges refused rs)
    unfolding publish_rows
    publish_rows-Leaves refused [] = search leaves_rules
    publish_rows-Leaves refused (r ∷ rs) = Leaves-maybe _ _ _ (search leaves_rules) λ message.
        Leaves-if _ _ _
          (Leaves-bind (execute_alone BusError.unavailable (mark_published r.outbox_id)) _
            (search (leaves_rules, mark_published-Stable)) λ _. publish_rows-Leaves refused rs)
          (Leaves-bind (execute_alone BusError.unavailable (mark_refused r.outbox_id)) _
            (search (leaves_rules, mark_refused-Stable)) λ _. publish_rows-Leaves true rs)

    publish_outbox-Leaves : Leaves (SameButOutbox d) (publish_outbox acknowledges)
    unfolding publish_outbox
    publish_outbox-Leaves = search (leaves_rules, due_rows-Stable, publish_rows-Leaves) depth 20

-- The answer of `process_delivery` to a disposition, behind its round over the outbox.
abbrev answered : Bool → DeliveryDisposition → M BusError AckKind
answered answers d = if answers then pure (ack_of d) else raise BusError.unavailable

answered_at :
    (r : Result BusError (Unit {0})) (answers : Bool) (d : DeliveryDisposition) (v : World)
    → (resume r (λ _. answered answers d) v).1 ≡ v
unfolding pure raise
answered_at (ok a) true d v = refl
answered_at (ok a) false d v = refl
answered_at (err e) answers d v = refl

answered_ok :
    (r : Result BusError (Unit {0})) (answers : Bool) (d : DeliveryDisposition) (k : AckKind)
    (v : World)
    → (resume r (λ _. answered answers d) v).0 ≡ ok k
    → k ≡ ack_of d
unfolding pure raise
answered_ok (ok a) true d k v e = ground arith
answered_ok (ok a) false d k v e = absurd (cc)
answered_ok (err x) answers d k v e = absurd (cc)

module _ ⦃ext : External⦄ (language : OutputLanguage) (acknowledges : OutboundMessage → Bool) where
  -- A delivery that is answered with anything but an acknowledgement has left every table of the
  -- committed database but the outbox as it was, whichever calls of the database fail.
  pub process_delivery-unchanged :
      (item : Option (Option Message)) (k : AckKind) (w : World)
      → (process_delivery language acknowledges item w).0 ≡ ok k
      → k ≢ AckKind.ack
      → SameButOutbox w.committed (process_delivery language acknowledges item w).1.committed
  unfolding process_delivery ◌>>=◌ raise pure
  process_delivery-unchanged none k w e n = absurd (cc)
  process_delivery-unchanged (some none) k w e n = absurd (cc)
  process_delivery-unchanged (some (some m)) k w e n =
      let d = (handle language m.subject m.payload w).0 in
      let v = (handle language m.subject m.payload w).1 in
      let sent = publish_outbox acknowledges v in
      let answer = answered_ok sent.0 m.answers d k sent.1 e in
      let same : v.committed ≡ w.committed =
        handle-unchanged language m.subject m.payload w (λ a. n (answer ∙ ap ack_of a)) in
      let start : SameButOutbox w.committed v.committed =
        subst (SameButOutbox w.committed) (sym same) refl in
      subst (λ (x : World). SameButOutbox w.committed x.committed)
        (sym (answered_at sent.0 m.answers d sent.1))
        ((publish_outbox-Leaves w.committed acknowledges).at v start)
