-- ===== src/Mq/Confirm.antt =====
-- admin/internal/mq/publisher.go: what a publish without error means, and how a publisher recovers.
use grpc_go_project.Prelude.{true, false, ◌≡◌, arith, refl, List, [], ◌∷◌}
use grpc_go_project.Prelude.Result.{ok, err}
use grpc_go_project.Mq.Publisher.{
  Publisher, acked, Answers, publisher_closed, needs_channel, publish, close,
}

-- A publish returns no error only if the publisher is not closed, the client took the message and
-- the broker acknowledged it; the publisher then has an open channel, and the channel that it had
-- was open or was replaced by one with confirms enabled.
pub publish_confirmed :
    (a : Answers) (p p' : Publisher)
    → publish a p ≡ (ok tt, p')
    → (p.closed ≡ false)
      × (a.publishes ≡ true)
      × (a.confirmation ≡ acked)
      × (needs_channel p'.channel ≡ false)
      × (needs_channel p.channel ≡ true → a.enables_confirms ≡ true)
unfolding publish
publish_confirmed a p p' h = ground arith

-- Answers without a failure.
pub record Answering (a : Answers) : Type 0 where
  pub reconnected : a.client_closed ≡ true → a.reconnects ≡ true
  pub opened : a.opens ≡ true
  pub declared : a.declares ≡ true
  pub confirming : a.enables_confirms ≡ true
  pub published : a.publishes ≡ true
  pub confirmed : a.confirmation ≡ acked

-- The states of the publisher over a list of publishes.
abbrev pub publish_all : Publisher → List Answers → Publisher
publish_all p [] = p
publish_all p (a ∷ answers) = publish_all (publish a p).1 answers

closed_stays :
    (a : Answers) (p : Publisher) → p.closed ≡ true → publish a p ≡ (err publisher_closed, p)
unfolding publish
closed_stays a p h = ground arith

closed_all : (p : Publisher) (answers : List Answers) → p.closed ≡ true → publish_all p answers ≡ p
closed_all p [] h = refl
closed_all p (a ∷ answers) h = rw (closed_stays a p h) (closed_all p answers h)

closed_close : (p : Publisher) → (close p).closed ≡ true
unfolding close
closed_close p = ground arith

-- After Close every publish fails with the same error, whatever the client answers and however many
-- publishes came before it, and a second Close changes nothing.
pub close_final :
    (p : Publisher) (answers : List Answers) (a : Answers)
    → ((publish a (publish_all (close p) answers)).0 ≡ err publisher_closed)
      × (close (publish_all (close p) answers) ≡ close p)
close_final p answers a =
    rw (closed_all (close p) answers (closed_close p))
      (rw (closed_stays a (close p) (closed_close p)) refl, unfold close in ground arith)
