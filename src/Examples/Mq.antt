-- ===== src/Examples/Mq.antt =====
-- Operation-log messages on concrete events.
use grpc_go_project.Prelude.{◌≤◌, ◌≡◌, refl, true, false, Option, none, some, [], ◌∷◌, arith}
use grpc_go_project.Prelude.Int.{pos}
use grpc_go_project.Prelude.Result.{ok, err}
use grpc_go_project.Prelude.Text.{Text, codes, text_eq, trim_space}
use grpc_go_project.Mq.Message.{
  OperationLogEvent, Unmarshalled, Headers, unsigned, validate, retry_count,
  operation_log_event_type,
}
use grpc_go_project.Mq.Handler.{
  handle, handle_all, AllSucceeded, handle_all-AllSucceeded, handle_twice,
}
use grpc_go_project.Mq.Consumer.{Environment, handle_delivery}
use grpc_go_project.Mq.Delivery.{
  copies, copies_left, handled, journey, database_down, delivery_keeps_message, journey_ends,
}
use grpc_go_project.Mq.Publisher.{
  Publisher, Answers, acked, publish, close, publisher_closed, needs_channel,
}
use grpc_go_project.Mq.Confirm.{publish_all, publish_confirmed, close_final}

abbrev event : Text → OperationLogEvent
event module_name = record {
  event_id = codes "e-1";
  event_type = operation_log_event_type;
  schema_version = pos 1;
  occurred_at = 5;
  admin_id = 7;
  admin_name = codes "root";
  module_name = module_name;
  action = codes "login";
  description = [];
  success = true;
  error_code = [];
  request_id = [];
  trace_id = [];
  method = codes "POST";
  path = codes "/v1/admin";
  client_ip = [];
  user_agent = [];
}

abbrev valid : OperationLogEvent
valid = event (codes "auth")

valid_lem : validate valid ≡ none
unfolding validate text_eq trim_space
valid_lem = refl

-- A body with a field of the wrong type: the rest of the event was read.
abbrev malformed : Unmarshalled
malformed = record { event = valid; failed = true }

abbrev once_retried : Option Headers
once_retried = some (record { retry_count_header = some (unsigned 1); x_error = none })

two_retries : journey 9 3 once_retried malformed ≡ some 2
unfolding journey handle_delivery validate text_eq trim_space
two_retries = refl

journey_ends_example : journey 3 3 once_retried malformed ≡ some 2
unfolding retry_count
journey_ends_example =
    journey_ends 3 once_retried malformed 1 2 valid_lem (omega arith) (omega arith) refl refl

abbrev no_acks : Environment
no_acks = record {
  confirms = false;
  keeps_unconfirmed = true;
  takes_ack = false;
  database_up = true;
}

delivery_keeps_message_example :
    (handled database_down malformed [] ≡ false
      → 1 ≤ copies 1 (handle_delivery 3 database_down none malformed []).0)
    × (true ≡ true
        → copies 1 (handle_delivery 3 database_down none malformed []).0
          ≡ copies_left database_down (handled database_down malformed []))
delivery_keeps_message_example = delivery_keeps_message 3 database_down none malformed []

handle_all-AllSucceeded_example :
    AllSucceeded (handle_all ((true, record valid { success = false }) ∷ (false, valid) ∷ []) [])
handle_all-AllSucceeded_example =
    handle_all-AllSucceeded ((true, record valid { success = false }) ∷ (false, valid) ∷ [])

handle_twice_example : handle true valid (handle true valid []).1 ≡ handle true valid []
handle_twice_example = handle_twice valid []

abbrev answering : Answers
answering = record {
  client_closed = true;
  reconnects = true;
  opens = true;
  declares = true;
  enables_confirms = true;
  publishes = true;
  confirmation = acked;
}

abbrev without_channel : Publisher
without_channel = record { channel = none; closed = false }

abbrev with_channel : Publisher
with_channel = record { channel = some false; closed = false }

recovers : publish answering without_channel ≡ (ok tt, with_channel)
unfolding publish
recovers = refl

publish_confirmed_example :
    (without_channel.closed ≡ false)
    × (answering.publishes ≡ true)
    × (answering.confirmation ≡ acked)
    × (needs_channel with_channel.channel ≡ false)
    × (needs_channel without_channel.channel ≡ true → answering.enables_confirms ≡ true)
publish_confirmed_example = publish_confirmed answering without_channel with_channel recovers

close_final_example :
    ((publish answering (publish_all (close with_channel) (answering ∷ []))).0
      ≡ err publisher_closed)
    × (close (publish_all (close with_channel) (answering ∷ [])) ≡ close with_channel)
close_final_example = close_final with_channel (answering ∷ []) answering
