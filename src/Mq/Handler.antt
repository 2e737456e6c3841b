-- ===== src/Mq/Handler.antt =====
-- admin/internal/mqhandler/operation_log.go over admin/internal/repository/operation_log.go: an event
-- becomes a row, and a row whose event_id is taken is not written again.
use grpc_go_project.Prelude.{
  ℕ, ◌-◌, Bool, true, false, Option, none, some, List, [], ◌∷◌, ◌≡◌, ◌||◌, arith, Bool-cases, inl,
  inr, if◌then◌else◌, if-cases, All, ◌==◌, ◌^◌, ltb,
}
use grpc_go_project.Prelude.Text.{Text, text_eq, text_eq_refl}
use grpc_go_project.Mq.Message.{
  OperationLogEvent, MessageError, permanent, invalid_event, storage_failed, validate,
  admin_id_required,
}

-- `OperationLogModel`, the columns that `Handle` fills.
pub record OperationLogModel : Type 0 where
  pub event_id : Text
  pub admin_id : ℕ
  pub admin_name : Text
  pub module_name : Text
  pub oper_type : Text
  pub oper_desc : Text
  pub request_url : Text
  pub method : Text
  pub ip : Text
  pub user_agent : Text
  pub status : ℕ

unfoldable pub has_event : Text → List OperationLogModel → Bool
has_event id [] = false
has_event id (row ∷ rows) = text_eq row.event_id id || has_event id rows

-- The default of the column: GORM writes it in place of a zero.
abbrev pub with_default_status : OperationLogModel → OperationLogModel
with_default_status row = record row { status = if row.status == 0 then 1 else row.status }

-- `Create` with `ON CONFLICT (event_id) DO NOTHING`, where the database answers.
unfoldable pub create : OperationLogModel → List OperationLogModel → List OperationLogModel
create row rows = if has_event row.event_id rows then rows else with_default_status row ∷ rows

unfoldable pub to_model : OperationLogEvent → OperationLogModel
to_model e = record {
  event_id = e.event_id;
  admin_id = e.admin_id;
  admin_name = e.admin_name;
  module_name = e.module_name;
  oper_type = e.action;
  oper_desc = e.description;
  request_url = e.path;
  method = e.method;
  ip = e.client_ip;
  user_agent = e.user_agent;
  status = if e.success then 1 else 0;
}

-- `Handle`: `available` says whether the database takes the write.
unfoldable pub handle :
    Bool → OperationLogEvent → List OperationLogModel → Option MessageError × List OperationLogModel
unfolding to_model create
handle available e rows = elim (validate e) [
  | some fault ↦ (some (permanent (invalid_event fault)), rows)
  | none ↦
      if ltb (2 ^ 64 - 1) e.admin_id
      then (some (permanent (invalid_event admin_id_required)), rows)
      else if available
      then (none, create (to_model e) rows)
      else (some storage_failed, rows)
]

create-has_event :
    (row : OperationLogModel) (rows : List OperationLogModel)
    → has_event row.event_id (create row rows) ≡ true
unfolding create has_event
create-has_event row rows = elim (Bool-cases (has_event row.event_id rows)) [
  | inl old ↦ rw old old
  | inr new ↦ rw (new, text_eq_refl row.event_id)
]

create_twice :
    (row : OperationLogModel) (rows : List OperationLogModel)
    → create row (create row rows) ≡ create row rows
create_twice row rows = let h = create-has_event row rows in unfold create in rw h

-- The rows of the log after a list of events, each with whether the database takes its write.
unfoldable pub handle_all :
    List (Bool × OperationLogEvent) → List OperationLogModel → List OperationLogModel
unfolding handle
handle_all [] rows = rows
handle_all ((available, e) ∷ es) rows = handle_all es (handle available e rows).1

-- Every row says that its operation succeeded.
abbrev pub AllSucceeded : List OperationLogModel → Type 0
AllSucceeded rows = All (λ row. row.status ≡ 1) rows

create-AllSucceeded :
    (e : OperationLogEvent) (rows : List OperationLogModel)
    → AllSucceeded rows
    → AllSucceeded (create (to_model e) rows)
unfolding create to_model
create-AllSucceeded e rows a =
    if-cases AllSucceeded (has_event e.event_id rows) rows _ (λ _. a) (λ _. (ground arith, a))

handle-AllSucceeded :
    (available : Bool) (e : OperationLogEvent) (rows : List OperationLogModel)
    → AllSucceeded rows
    → AllSucceeded (handle available e rows).1
unfolding handle
handle-AllSucceeded available e rows a = ground (arith, create-AllSucceeded e rows a)

-- The default of the status column hides failures: whatever events are handled, successful operations
-- or failed ones, every row of the log that they leave says that its operation succeeded.
pub handle_all-AllSucceeded :
    (es : List (Bool × OperationLogEvent)) → AllSucceeded (handle_all es [])
unfolding handle_all
handle_all-AllSucceeded es = from_any es [] tt
  where
    from_any :
        (xs : List (Bool × OperationLogEvent)) (rows : List OperationLogModel)
        → AllSucceeded rows
        → AllSucceeded (handle_all xs rows)
    from_any [] rows a = a
    from_any ((available, e) ∷ xs) rows a =
        from_any xs (handle available e rows).1 (handle-AllSucceeded available e rows a)

-- A redelivered event that was handled before has the result that it had, and changes no row.
pub handle_twice :
    (e : OperationLogEvent) (rows : List OperationLogModel)
    → handle true e (handle true e rows).1 ≡ handle true e rows
unfolding handle
handle_twice e rows = ground (arith, create_twice (to_model e) rows)
