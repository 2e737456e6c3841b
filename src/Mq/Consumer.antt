-- ===== src/Mq/Consumer.antt =====
-- admin/internal/mq/consumer.go: what becomes of one delivery. The broker's answers are inputs, and
-- the calls on it are the actions that a delivery leaves, in order.
use grpc_go_project.Prelude.{
  ℕ, Bool, true, false, ◌||◌, Option, none, some, List, [], ◌∷◌, if◌then◌else◌,
}
use grpc_go_project.Prelude.Int.{pos, leb_ℤ}
use grpc_go_project.Mq.Message.{
  OperationLogEvent, MessageError, Unmarshalled, signed, Headers, validate, is_permanent,
  decode_operation_log, retry_count, clone_headers, next_count, to_int32,
}
use grpc_go_project.Mq.Handler.{OperationLogModel, handle}

pub data Target : Type 0 where
  retry_exchange dead_letter_exchange : Target

-- `published` is a publish that the broker confirmed. One that failed may have left its copy at the
-- broker all the same: the wait for the confirmation may have timed out.
pub data BrokerCall : Type 0 where
  published : Target → Headers → BrokerCall
  publish_failed : Bool → Target → BrokerCall
  acked ack_failed nacked_requeue : BrokerCall

-- Whether the broker confirms a publish, keeps the copy of one that it did not confirm, and takes an
-- acknowledgement, and whether the database takes a write.
pub record Environment : Type 0 where
  pub confirms : Bool
  pub keeps_unconfirmed : Bool
  pub takes_ack : Bool
  pub database_up : Bool

abbrev pub ack : Environment → BrokerCall
ack env = if env.takes_ack then acked else ack_failed

-- `moveToDeadLetter`.
unfoldable pub move_to_dead_letter : Environment → Option Headers → MessageError → List BrokerCall
unfolding clone_headers
move_to_dead_letter env headers cause =
    if env.confirms
    then published dead_letter_exchange (record (clone_headers headers) { x_error = some cause })
      ∷ ack env
      ∷ []
    else publish_failed env.keeps_unconfirmed dead_letter_exchange ∷ nacked_requeue ∷ []

-- `retryOrDeadLetter`.
unfoldable pub retry_or_dead_letter :
    ℕ → Environment → Option Headers → MessageError → List BrokerCall
unfolding move_to_dead_letter retry_count clone_headers
retry_or_dead_letter max_retries env headers cause =
    let count = retry_count headers in
    if leb_ℤ (pos max_retries) count
    then move_to_dead_letter env headers cause
    else if env.confirms
    then published retry_exchange (record (clone_headers headers) {
      retry_count_header = some (signed (to_int32 (next_count count)));
    })
      ∷ ack env
      ∷ []
    else publish_failed env.keeps_unconfirmed retry_exchange ∷ nacked_requeue ∷ []

abbrev invalid : OperationLogEvent → Bool
invalid e = elim (validate e) [ none ↦ false | some _ ↦ true ]

-- The error path of `handleDelivery`.
unfoldable pub settle_failure :
    ℕ → Environment → Option Headers → OperationLogEvent → MessageError → List BrokerCall
unfolding retry_or_dead_letter move_to_dead_letter is_permanent validate
settle_failure max_retries env headers event cause =
    if invalid event || is_permanent cause
    then move_to_dead_letter env headers cause
    else retry_or_dead_letter max_retries env headers cause

-- `err = c.handler.Handle(ctx, event)` behind a decoding without error.
unfoldable pub process :
    Environment
    → OperationLogEvent × Option MessageError
    → List OperationLogModel
    → Option MessageError × List OperationLogModel
unfolding handle
process env (event, some cause) rows = (some cause, rows)
process env (event, none) rows = handle env.database_up event rows

unfoldable pub settle :
    ℕ → Environment → Option Headers → OperationLogEvent → Option MessageError → List BrokerCall
unfolding settle_failure
settle max_retries env headers event none = ack env ∷ []
settle max_retries env headers event (some cause) =
    settle_failure max_retries env headers event cause

-- `handleDelivery`: the calls on the broker and the rows of the log behind it.
unfoldable pub handle_delivery :
    ℕ
    → Environment
    → Option Headers
    → Unmarshalled
    → List OperationLogModel
    → List BrokerCall × List OperationLogModel
unfolding process settle decode_operation_log
handle_delivery max_retries env headers body rows =
    let decoded = decode_operation_log body in
    let (error, rows') = process env decoded rows in
    (settle max_retries env headers decoded.0 error, rows')
