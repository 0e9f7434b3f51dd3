-- ===== src/Subscription/State.antt =====
-- The state of a ServerSubscription, its parameters and its publish cycle. Times and
-- intervals are those of Types.Duration.
-- What an operation starts with CoSpawn is added to `spawned`. A weak pointer to an item is its id:
-- `items_` is the one owner, and ids are not used again before 2 ^ 32 items were created.
use opcuapp.Base.{
  ℕ, ◌+◌, ◌-◌, ◌*◌, ◌%◌, ◌^◌, Bool, false, ◌&&◌, ◌||◌, not, Option, none, some, List, [], ltb, ◌==◌,
  is_empty, if◌then◌else◌, max,
}
use opcuapp.Base.Int.{ℤ, pos, negsuc, max_one}
use opcuapp.Types.Status.{good, of_code, bad_subscription_id_invalid}
use opcuapp.Types.Variant.{Doubles, DataValue}
use opcuapp.Types.Duration.{saturating_trunc, elapsed, add_duration}
use opcuapp.Message.{
  MonitoringMode, ReadValueId, MonitoringParameters, SubscriptionParameters, NotificationData,
  NotificationMessage, MonitoredItemCreateRequest, ModifySubscriptionRequest,
  ModifySubscriptionResponse,
}

pub record Item : Type 0 where
  pub monitored_item_id : ℕ
  pub item_to_monitor : ReadValueId
  pub index_range : Option (List ℕ)
  pub monitoring_mode : MonitoringMode
  pub parameters : MonitoringParameters
  pub monitored_item_status : ℕ
  pub backing_client_handle : ℕ
  pub backing_item_id : ℕ
  pub binding_requested : Bool
  pub last_reported_value : Option DataValue

pub record QueuedNotification : Type 0 where
  pub source_item_id : ℕ
  pub notification : NotificationData

-- What CoSpawn was given: a create on the backing subscription for an item under a client handle, or
-- the release of a backing item.
pub data Task : Type 0 where
  bind_item : ℕ → ℕ → MonitoredItemCreateRequest → Task
  remove_item : ℕ → Task

pub record BackingSubscriptionState : Type 0 where
  pub closed : Bool

pub record ServerSubscription : Type 0 where
  pub subscription_id : ℕ
  pub parameters : SubscriptionParameters
  pub backing_subscription_state : Option BackingSubscriptionState
  pub create_calls : ℕ
  pub spawned : List Task
  pub next_monitored_item_id : ℕ
  pub next_backing_client_handle : ℕ
  pub next_sequence_number : ℕ
  pub initial_message_sent : Bool
  pub last_publish_time : Option ℕ
  pub items : List (ℕ × Item)
  pub pending_notifications : List QueuedNotification
  pub retransmit_queue : List NotificationMessage
  pub retained_notifications : ℕ

-- `x++` on a UInt32, and sums of std::size_t.
abbrev pub next_uint32 : ℕ → ℕ
next_uint32 n = (n + 1) % 2 ^ 32

abbrev pub default_keep_alive_count : ℕ
default_keep_alive_count = 3

unfoldable pub revise_parameters : SubscriptionParameters → SubscriptionParameters
revise_parameters parameters =
    let keep_alive =
      if parameters.max_keep_alive_count == 0
      then default_keep_alive_count
      else parameters.max_keep_alive_count in
    let min_lifetime_count = 3 * keep_alive % 2 ^ 32 in
    record parameters {
      max_keep_alive_count = keep_alive;
      lifetime_count =
          if ltb parameters.lifetime_count min_lifetime_count
          then min_lifetime_count
          else parameters.lifetime_count;
    }

-- The constructor.
unfoldable pub create : ℕ → SubscriptionParameters → ℕ → ServerSubscription
unfolding revise_parameters
create subscription_id parameters publish_cycle_start_time = record {
  subscription_id = subscription_id;
  parameters = revise_parameters parameters;
  backing_subscription_state = none;
  create_calls = 0;
  spawned = [];
  next_monitored_item_id = 1;
  next_backing_client_handle = 1;
  next_sequence_number = 1;
  initial_message_sent = false;
  last_publish_time = some publish_cycle_start_time;
  items = [];
  pending_notifications = [];
  retransmit_queue = [];
  retained_notifications = 0;
}

unfoldable pub modify :
    ServerSubscription → ModifySubscriptionRequest → ServerSubscription × ModifySubscriptionResponse
unfolding revise_parameters
modify s request =
    let revised = revise_parameters request.parameters in
    if not (request.subscription_id == s.subscription_id)
    then (
      s,
      record {
        status = of_code bad_subscription_id_invalid;
        revised_publishing_interval_ms = 0;
        revised_lifetime_count = 0;
        revised_max_keep_alive_count = 0;
      },
    )
    else (
      record s { parameters = revised },
      record {
        status = good;
        revised_publishing_interval_ms = revised.publishing_interval_ms;
        revised_lifetime_count = revised.lifetime_count;
        revised_max_keep_alive_count = revised.max_keep_alive_count;
      },
    )

unfoldable pub set_publishing_enabled : ServerSubscription → Bool → ServerSubscription
set_publishing_enabled s publishing_enabled = record s {
  parameters = record s.parameters { publishing_enabled = publishing_enabled };
}

abbrev pub has_pending_notifications : ServerSubscription → Bool
has_pending_notifications s = not (is_empty s.pending_notifications)

unfoldable pub prime_publish_cycle : ServerSubscription → ℕ → ServerSubscription
prime_publish_cycle s now = elim s.last_publish_time [
  | some last ↦ s
  | none ↦ if s.parameters.publishing_enabled then record s { last_publish_time = some now } else s
]

-- The product of two std::int64_t. One that does not fit is undefined in C++; it is exact here.
unfoldable pub times : ℤ → ℕ → ℤ
times (pos n) k = pos (n * k)
times (negsuc n) k = if k == 0 then pos 0 else negsuc ((n + 1) * k - 1)

module _ (d : Doubles) where
  unfoldable pub publishing_interval : ServerSubscription → ℕ
  publishing_interval s =
      d.of_int64 (pos (max_one (d.to_int64 s.parameters.publishing_interval_ms)))

  unfoldable pub keep_alive_interval : ServerSubscription → ℕ
  unfolding publishing_interval saturating_trunc times
  keep_alive_interval s =
      d.of_int64 (
        times (saturating_trunc d (publishing_interval s))
          (max 1 s.parameters.max_keep_alive_count))

  unfoldable pub is_publish_ready : ServerSubscription → ℕ → Bool
  unfolding elapsed publishing_interval keep_alive_interval
  is_publish_ready s now = elim s.last_publish_time [
    | none ↦ false
    | some last ↦
        let pending = not (is_empty s.pending_notifications) in
        let since = elapsed d now last in
        if s.initial_message_sent && (s.parameters.publishing_enabled && pending)
        then d.le (publishing_interval s) since
        else if not s.initial_message_sent
        then d.le (publishing_interval s) since
        else if not s.parameters.publishing_enabled || not pending
        then d.le (keep_alive_interval s) since
        else if pending
        then d.le (publishing_interval s) since
        else d.le (keep_alive_interval s) since
  ]

  unfoldable pub next_publish_deadline : ServerSubscription → Option ℕ
  unfolding add_duration publishing_interval keep_alive_interval
  next_publish_deadline s = elim s.last_publish_time [
    | none ↦ none
    | some last ↦
        if not s.initial_message_sent
        then some (add_duration d last (publishing_interval s))
        else some (
            add_duration d last (
              if s.parameters.publishing_enabled && not (is_empty s.pending_notifications)
              then publishing_interval s
              else keep_alive_interval s))
  ]
