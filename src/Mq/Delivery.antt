-- ===== src/Mq/Delivery.antt =====
-- admin/internal/mq/consumer.go: no message is lost, and retries end.
use grpc_go_project.Prelude.{
  ℕ, zero, suc, ◌+◌, ◌-◌, ◌^◌, ◌≤◌, ◌<◌, ◌≡◌, inl, inr, Bool, true, false, Option, none, some, List,
  [], ◌∷◌, arith, Bool-cases, if◌then◌else◌,
}
use grpc_go_project.Prelude.Int.{pos}
use grpc_go_project.Mq.Message.{
  OperationLogEvent, MessageError, decode_failed, storage_failed, Unmarshalled, signed, Headers,
  validate, decode_operation_log, retry_count, clone_headers, to_int32,
}
use grpc_go_project.Mq.Handler.{OperationLogModel}
use grpc_go_project.Mq.Consumer.{
  retry_exchange, dead_letter_exchange, BrokerCall, published, publish_failed, acked, Environment,
  retry_or_dead_letter, process, settle, handle_delivery,
}

-- The copies of the message that the broker holds behind the calls, from `n` on.
abbrev pub copies : ℕ → List BrokerCall → ℕ
copies n [] = n
copies n (published _ _ ∷ calls) = copies (n + 1) calls
copies n (publish_failed true _ ∷ calls) = copies (n + 1) calls
copies n (acked ∷ calls) = copies (n - 1) calls
copies n (_ ∷ calls) = copies n calls

-- Whether the delivery was decoded and its event handled without error.
abbrev pub handled : Environment → Unmarshalled → List OperationLogModel → Bool
handled env body rows = elim (process env (decode_operation_log body) rows).0 [
  | none ↦ true
  | some _ ↦ false
]

-- The copies that are left of a delivery whose acknowledgement the broker takes.
abbrev pub copies_left : Environment → Bool → ℕ
copies_left env done =
    if done then 0 else if env.confirms then 1 else if env.keeps_unconfirmed then 2 else 1

settle-copies :
    (max_retries : ℕ) (env : Environment) (headers : Option Headers) (event : OperationLogEvent)
    (error : Option MessageError)
    → let done = elim error as (λ _. Bool) [ none ↦ true | some _ ↦ false ] in
      let left = copies 1 (settle max_retries env headers event error) in
      (done ≡ false → 1 ≤ left) × (env.takes_ack ≡ true → left ≡ copies_left env done)
unfolding settle
settle-copies max_retries env headers event none = ground arith
settle-copies max_retries env headers event (some cause) = ground arith

-- Whatever the broker and the database answer, a message that was not handled is still held by the
-- broker when the delivery is over. If the broker takes the acknowledgement, it holds no copy of a
-- message that was handled, and of one that was not it holds exactly one, but two when it kept the copy
-- of a publish that it did not confirm.
pub delivery_keeps_message :
    (max_retries : ℕ) (env : Environment) (headers : Option Headers) (body : Unmarshalled)
    (rows : List OperationLogModel)
    → (handled env body rows ≡ false
        → 1 ≤ copies 1 (handle_delivery max_retries env headers body rows).0)
      × (env.takes_ack ≡ true
          → copies 1 (handle_delivery max_retries env headers body rows).0
            ≡ copies_left env (handled env body rows))
unfolding handle_delivery
delivery_keeps_message max_retries env headers body rows =
    settle-copies max_retries env headers (decode_operation_log body).0
      (process env (decode_operation_log body) rows).0

-- The broker answers, and the database is down.
abbrev pub database_down : Environment
database_down = record {
  confirms = true;
  keeps_unconfirmed = false;
  takes_ack = true;
  database_up = false;
}

-- The retries of a message that is delivered again and again while the database is down, up to its
-- move to the dead-letter queue; `none` when the fuel ends before.
unfoldable pub journey : ℕ → ℕ → Option Headers → Unmarshalled → Option ℕ
journey zero max_retries headers body = none
journey (suc fuel) max_retries headers body =
    elim (handle_delivery max_retries database_down headers body []).0 [
      | published retry_exchange h ∷ _ ↦ elim (journey fuel max_retries (some h) body) [
        | none ↦ none
        | some n ↦ some (suc n)
      ]
      | published dead_letter_exchange _ ∷ _ ↦ some 0
      | _ ↦ none
    ]

-- Why an event that passes validation fails while the database is down: its body was not read
-- without error, or the row was not written.
abbrev cause_of : Unmarshalled → MessageError
cause_of body = if body.failed then decode_failed else storage_failed

valid_retries :
    (max_retries : ℕ) (headers : Option Headers) (body : Unmarshalled)
    → validate body.event ≡ none
    → body.event.admin_id < 2 ^ 64
    → (handle_delivery max_retries database_down headers body []).0
      ≡ retry_or_dead_letter max_retries database_down headers (cause_of body)
unfolding handle_delivery
valid_retries max_retries headers body v fits = elim (Bool-cases body.failed) [
  | inl failed ↦ ground arith
  | inr read ↦ ground arith
]

counted : (k : ℕ) → k < 2 ^ 31 → to_int32 (pos k) ≡ pos k
counted k h = ground arith

below_limit :
    (max_retries : ℕ) (headers : Option Headers) (cause : MessageError) (k : ℕ)
    → retry_count headers ≡ pos k
    → k < max_retries
    → retry_or_dead_letter max_retries database_down headers cause
      ≡ published retry_exchange (record (clone_headers headers) {
        retry_count_header = some (signed (to_int32 (pos (k + 1))));
      })
        ∷ acked
        ∷ []
unfolding retry_or_dead_letter
below_limit max_retries headers cause k e h = rw (e, retry_or_dead_letter) (ground arith)

at_limit :
    (max_retries : ℕ) (headers : Option Headers) (cause : MessageError) (k : ℕ)
    → retry_count headers ≡ pos k
    → max_retries ≤ k
    → retry_or_dead_letter max_retries database_down headers cause
      ≡ published dead_letter_exchange (record (clone_headers headers) { x_error = some cause })
        ∷ acked
        ∷ []
unfolding retry_or_dead_letter
at_limit max_retries headers cause k e h = rw (e, retry_or_dead_letter) (ground arith)

journey_from :
    (left fuel max_retries : ℕ) (headers : Option Headers) (body : Unmarshalled) (k : ℕ)
    → validate body.event ≡ none
    → body.event.admin_id < 2 ^ 64
    → max_retries < 2 ^ 31
    → retry_count headers ≡ pos k
    → k + left ≡ max_retries
    → left < fuel
    → journey fuel max_retries headers body ≡ some left
unfolding journey
journey_from left zero max_retries headers body k v fits small e room enough = absurd (omega arith)
journey_from zero (suc fuel) max_retries headers body k v fits small e room enough =
    rw (valid_retries max_retries headers body v fits, journey)
      (rw (at_limit max_retries headers (cause_of body) k e (omega arith), journey))
journey_from (suc left) (suc fuel) max_retries headers body k v fits small e room enough =
    let h = record (clone_headers headers) {
      retry_count_header = some (signed (to_int32 (pos (k + 1))));
    } in
    rw (valid_retries max_retries headers body v fits, journey)
      (rw (below_limit max_retries headers (cause_of body) k e (omega arith), journey)
        (rw (
          journey_from left fuel max_retries (some h) body (k + 1) v fits small
            (unfold retry_count in counted (k + 1) (omega arith)) (omega arith) (omega arith))))

-- While the database is down and the broker answers, a message whose event passes validation is
-- retried as often as its count of retries leaves room below the limit, and then moved to the
-- dead-letter queue. That holds of a body that was read without error and, just so, of one that was
-- not: a malformed field does not send the message to the dead-letter queue at once.
pub journey_ends :
    (max_retries : ℕ) (headers : Option Headers) (body : Unmarshalled) (k left : ℕ)
    → validate body.event ≡ none
    → body.event.admin_id < 2 ^ 64
    → max_retries < 2 ^ 31
    → retry_count headers ≡ pos k
    → k + left ≡ max_retries
    → journey (suc left) max_retries headers body ≡ some left
journey_ends max_retries headers body k left v fits small e room =
    journey_from left (suc left) max_retries headers body k v fits small e room (omega arith)

-- No call publishes for a retry.
abbrev pub NoRetry : List BrokerCall → Type 0
NoRetry [] = Unit
NoRetry (published retry_exchange _ ∷ calls) = ⊥
NoRetry (_ ∷ calls) = NoRetry calls
