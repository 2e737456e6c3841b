-- ===== src/Mq/Message.antt =====
-- admin/internal/mq/message.go and errors.go: the event, its validation, and the retry header.
use grpc_go_project.Prelude.{
  ℕ, ◌+◌, ◌-◌, ◌^◌, ◌%◌, Bool, true, false, not, Option, none, some, ltb, ◌==◌, if◌then◌else◌,
}
use grpc_go_project.Prelude.Int.{ℤ, pos, negsuc, to_u64, to_int64}
use grpc_go_project.Prelude.Text.{Text, codes, text_eq, trim_space, is_empty}

-- `OperationLogEvent`. `occurred_at` is in nanoseconds from the zero time.
pub record OperationLogEvent : Type 0 where
  pub event_id : Text
  pub event_type : Text
  pub schema_version : ℤ
  pub occurred_at : ℕ
  pub admin_id : ℕ
  pub admin_name : Text
  pub module_name : Text
  pub action : Text
  pub description : Text
  pub success : Bool
  pub error_code : Text
  pub request_id : Text
  pub trace_id : Text
  pub method : Text
  pub path : Text
  pub client_ip : Text
  pub user_agent : Text

abbrev pub operation_log_event_type : Text
operation_log_event_type = codes "admin.operation_log.created"

abbrev pub operation_log_schema_version : ℤ
operation_log_schema_version = pos 1

pub data ValidationError : Type 0 where
  event_id_required unsupported_event_type unsupported_schema_version occurred_at_required :
      ValidationError
  admin_id_required module_required action_required : ValidationError

abbrev pub blank : Text → Bool
blank s = is_empty (trim_space s)

abbrev is_version : ℤ → Bool
is_version (pos n) = n == 1
is_version (negsuc _) = false

-- `Validate`: the first fault, or none.
unfoldable pub validate : OperationLogEvent → Option ValidationError
validate e =
    if blank e.event_id
    then some event_id_required
    else if not (text_eq e.event_type operation_log_event_type)
    then some unsupported_event_type
    else if not (is_version e.schema_version)
    then some unsupported_schema_version
    else if e.occurred_at == 0
    then some occurred_at_required
    else if e.admin_id == 0
    then some admin_id_required
    else if blank e.module_name
    then some module_required
    else if blank e.action
    then some action_required
    else none

-- A message that cannot be processed, and whether another attempt can help.
pub data MessageError : Type 0 where
  decode_failed : MessageError
  invalid_event : ValidationError → MessageError
  permanent : MessageError → MessageError
  storage_failed : MessageError

-- `isPermanent`: the error, or one that it wraps, is a `PermanentError`.
unfoldable pub is_permanent : MessageError → Bool
is_permanent (permanent _) = true
is_permanent _ = false

-- `json.Unmarshal` leaves what it could read in the event, also when it fails.
pub record Unmarshalled : Type 0 where
  pub event : OperationLogEvent
  pub failed : Bool

-- `decodeOperationLog`: the event as far as it was read, and the error.
unfoldable pub decode_operation_log : Unmarshalled → OperationLogEvent × Option MessageError
unfolding validate
decode_operation_log u =
    if u.failed then (u.event, some decode_failed) else elim (validate u.event) [
      | none ↦ (u.event, none)
      | some e ↦ (u.event, some (invalid_event e))
    ]

-- The values of a header that `retryCount` tells apart.
pub data HeaderValue : Type 0 where
  signed : ℤ → HeaderValue
  unsigned : ℕ → HeaderValue
  other : HeaderValue

-- `amqp.Table`, as far as the consumer writes it.
pub record Headers : Type 0 where
  pub retry_count_header : Option HeaderValue
  pub x_error : Option MessageError

-- `int32(value)`.
abbrev pub to_int32 : ℤ → ℤ
to_int32 z =
    let low = to_u64 z % 2 ^ 32 in if ltb low (2 ^ 31) then pos low else negsuc (2 ^ 32 - 1 - low)

abbrev pub count_of : Option HeaderValue → ℤ
count_of none = pos 0
count_of (some (signed z)) = z
count_of (some (unsigned n)) = to_int64 n
count_of (some other) = pos 0

-- `retryCount`, of the headers or of nil.
unfoldable pub retry_count : Option Headers → ℤ
retry_count none = pos 0
retry_count (some h) = count_of h.retry_count_header

-- `cloneHeaders`: a nil table becomes an empty one.
unfoldable pub clone_headers : Option Headers → Headers
clone_headers none = record { retry_count_header = none; x_error = none }
clone_headers (some h) = h

-- `count + 1`.
abbrev pub next_count : ℤ → ℤ
next_count (pos n) = pos (n + 1)
next_count (negsuc n) = if n == 0 then pos 0 else negsuc (n - 1)
