-- ===== src/Mq/Publisher.antt =====
-- admin/internal/mq/publisher.go: publishing on one channel under a mutex, with publisher confirms.
-- What the RabbitMQ client answers to each call is an input.
use grpc_go_project.Prelude.{Bool, true, false, not, ◌&&◌, ◌||◌, Option, none, some, if◌then◌else◌}
use grpc_go_project.Prelude.Result.{Result, ok, err}

-- The state of `Publisher`: `channel` is nil, or tells whether the channel has been closed.
pub record Publisher : Type 0 where
  pub channel : Option Bool
  pub closed : Bool

-- How the wait for a deferred confirmation ends.
pub data Confirmation : Type 0 where
  missing timed_out nacked acked : Confirmation

-- The answers of the client in the course of one call.
pub record Answers : Type 0 where
  pub client_closed : Bool
  pub reconnects : Bool
  pub opens : Bool
  pub declares : Bool
  pub enables_confirms : Bool
  pub publishes : Bool
  pub confirmation : Confirmation

pub data PublishError : Type 0 where
  publisher_closed reconnect_failed open_failed topology_failed confirm_mode_failed : PublishError
  publish_failed confirm_not_enabled confirm_wait_failed negatively_acknowledged : PublishError

abbrev pub Step : Type 0
Step = Result PublishError (Unit {0}) × Publisher

-- `openChannelLocked`.
unfoldable pub open_channel_locked : Answers → Publisher → Step
open_channel_locked a p =
    if not a.opens
    then (err open_failed, p)
    else if not a.declares
    then (err topology_failed, p)
    else if not a.enables_confirms
    then (err confirm_mode_failed, p)
    else (ok tt, record p { channel = some false })

-- `closeChannelLocked`.
unfoldable pub close_channel_locked : Publisher → Publisher
close_channel_locked p = record p { channel = none }

-- `recoverChannelLocked`.
unfoldable pub recover_channel_locked : Answers → Publisher → Step
unfolding close_channel_locked open_channel_locked
recover_channel_locked a p =
    let p' = close_channel_locked p in
    if a.client_closed && not a.reconnects
    then (err reconnect_failed, p')
    else open_channel_locked a p'

-- `p.channel == nil || p.channel.IsClosed()`.
abbrev pub needs_channel : Option Bool → Bool
needs_channel none = true
needs_channel (some is_closed) = is_closed

-- The part of `publish` behind the recovery of the channel. The client publishes on no channel that is
-- closed; where there is none, the call would panic.
unfoldable pub publish_on_channel : Answers → Publisher → Step
unfolding close_channel_locked
publish_on_channel a p =
    if needs_channel p.channel || not a.publishes
    then (err publish_failed, close_channel_locked p)
    else elim a.confirmation [
      | missing ↦ (err confirm_not_enabled, p)
      | timed_out ↦ (err confirm_wait_failed, p)
      | nacked ↦ (err negatively_acknowledged, p)
      | acked ↦ (ok tt, p)
    ]

unfoldable pub after_recovery : Answers → Step → Step
unfolding publish_on_channel
after_recovery a (err e, p) = (err e, p)
after_recovery a (ok _, p) = publish_on_channel a p

-- `publish`.
unfoldable pub publish : Answers → Publisher → Step
unfolding recover_channel_locked publish_on_channel after_recovery
publish a p =
    if p.closed
    then (err publisher_closed, p)
    else if needs_channel p.channel
    then after_recovery a (recover_channel_locked a p)
    else publish_on_channel a p

-- `Close`.
unfoldable pub close : Publisher → Publisher
unfolding close_channel_locked
close p = if p.closed then p else close_channel_locked (record p { closed = true })
