-- ===== src/Subscription/Notifications.antt =====
-- What a ServerSubscription does with the notifications, the errors and the bind results of the
-- backing subscription: the deadband, the queues of the items and their limits.
use opcuapp.Base.{
  ℕ, zero, suc, Bool, true, false, ◌||◌, not, Option, none, some, List, [], ◌∷◌, ◌++◌, max, length,
  leb, ◌==◌, if◌then◌else◌,
}
use opcuapp.Base.Assoc.{lookup}
use opcuapp.Types.Status.{bad, of_code, code_of, is_bad}
use opcuapp.Types.Variant.{Doubles, Variant, DataValue, get_double, of_status}
use opcuapp.Message.{
  MonitoringMode, reporting, DeadbandType, absolute, MonitoringFilter, data_change_filter, json,
  MonitoredItemCreateRequest, MonitoredItemCreateResult, ItemNotification, data_change, event,
  NotificationData, data_change_notification, event_notification_list, status_change_notification,
}
use opcuapp.Subscription.State.{ServerSubscription, Item, QueuedNotification}
use opcuapp.Subscription.Backing.{
  set_item, remove_backing_item, add_backing_items, is_attribute_event_notifier,
}

-- The positions of an item's notifications, from position i on.
unfoldable pub indices_of : ℕ → ℕ → List QueuedNotification → List ℕ
indices_of id i [] = []
indices_of id i (q ∷ pending) =
    if q.source_item_id == id
    then i ∷ indices_of id (suc i) pending
    else indices_of id (suc i) pending

unfoldable pub erase_at : ℕ → List QueuedNotification → List QueuedNotification
erase_at i [] = []
erase_at zero (q ∷ pending) = pending
erase_at (suc i) (q ∷ pending) = q ∷ erase_at i pending

-- `front()` and `back()`, of a list that is not empty.
abbrev pub front : List ℕ → ℕ
front [] = 0
front (x ∷ xs) = x

abbrev pub back : List ℕ → ℕ
back [] = 0
back (x ∷ []) = x
back (x ∷ y ∷ xs) = back (y ∷ xs)

unfoldable pub enforce_queue_limit : Item → List QueuedNotification → List QueuedNotification
unfolding indices_of erase_at
enforce_queue_limit item pending =
    let indices = indices_of item.monitored_item_id 0 pending in
    if leb (length indices) (max 1 item.parameters.queue_size)
    then pending
    else if not item.parameters.discard_oldest
    then erase_at (back indices) pending
    else erase_at (front indices) pending

unfoldable pub queue_notification :
    ServerSubscription → Item → NotificationData → ServerSubscription
queue_notification s item notification = record s {
  pending_notifications = enforce_queue_limit item (
      s.pending_notifications
      ++ record { source_item_id = item.monitored_item_id; notification = notification } ∷ []);
}

abbrev pub is_reporting : MonitoringMode → Bool
is_reporting reporting = true
is_reporting _ = false

abbrev is_absolute : DeadbandType → Bool
is_absolute absolute = true
is_absolute _ = false

-- The deadband that PassesDeadband applies: that of an absolute filter, if it is positive.
unfoldable pub absolute_deadband : Doubles → Option MonitoringFilter → Option ℕ
absolute_deadband d (some (data_change_filter f)) =
    if not (is_absolute f.deadband_type) || d.le f.deadband_value 0
    then none
    else some f.deadband_value
absolute_deadband d (some (json text)) = none
absolute_deadband d none = none

-- The comparison of two values, which passes where either is no number.
unfoldable pub differs_by : Doubles → ℕ → Option ℕ → Option ℕ → Bool
differs_by d deadband (some previous) (some current) =
    d.le deadband (d.abs (d.sub current previous))
differs_by d deadband none current = true
differs_by d deadband (some previous) none = true

unfoldable pub passes_deadband : Doubles → Item → DataValue → Bool
unfolding absolute_deadband differs_by
passes_deadband d item data_value = elim (absolute_deadband d item.parameters.filter) [
  | none ↦ true
  | some deadband ↦ elim item.last_reported_value [
    | none ↦ true
    | some last ↦
        if not (last.status_code == data_value.status_code)
        then true
        else differs_by d deadband (get_double d last.value) (get_double d data_value.value)
  ]
]

unfoldable pub queue_data_change :
    Doubles → ServerSubscription → Item → DataValue → ServerSubscription
unfolding queue_notification
queue_data_change d s item data_value =
    if not (is_reporting item.monitoring_mode)
    then s
    else if not (passes_deadband d item data_value)
    then s
    else queue_notification (set_item s (record item { last_reported_value = some data_value }))
        item
        (data_change_notification
          (record { client_handle = item.parameters.client_handle; value = data_value } ∷ []))

unfoldable pub queue_event_fields : ServerSubscription → Item → List Variant → ServerSubscription
unfolding queue_notification
queue_event_fields s item event_fields =
    if not (is_reporting item.monitoring_mode)
    then s
    else queue_notification s item (
        event_notification_list (
          record { client_handle = item.parameters.client_handle; event_fields = event_fields }
          ∷ []))

-- `now` is DateTime::Now().
unfoldable pub queue_item_status : Doubles → ServerSubscription → Item → ℕ → ℕ → ServerSubscription
unfolding queue_data_change
queue_item_status d s item status now =
    if is_attribute_event_notifier item.item_to_monitor.attribute_id
    then queue_notification s item (status_change_notification (code_of status))
    else queue_data_change d s item (of_status (code_of status) now)

-- The result of a bind that BindItem started for an item under a client handle.
unfoldable pub on_bind_result :
    Doubles → ServerSubscription → ℕ → ℕ → MonitoredItemCreateResult → ℕ → ServerSubscription
unfolding remove_backing_item queue_item_status
on_bind_result d s id handle result now =
    let stranded =
      if is_bad result.status then s else remove_backing_item s result.monitored_item_id in
    elim (lookup id s.items) [
      | none ↦ stranded
      | some item ↦
          let item' = record item { monitored_item_status = code_of result.status } in
          if not (item.backing_client_handle == handle)
          then stranded
          else if is_bad result.status
          then queue_item_status d (set_item s item') item' result.status now
          else set_item s (record item' { backing_item_id = result.monitored_item_id })
    ]

abbrev first_result : List MonitoredItemCreateResult → MonitoredItemCreateResult
first_result [] = record {
  status = of_code bad;
  monitored_item_id = 0;
  revised_sampling_interval_ms = 0;
  revised_queue_size = 0;
}
first_result (r ∷ results) = r

-- The task of BindItem: `answer` is what the backing subscription's AddItems returns.
unfoldable pub run_bind_item :
    Doubles
    → ServerSubscription
    → ℕ
    → ℕ
    → MonitoredItemCreateRequest
    → List MonitoredItemCreateResult
    → ℕ
    → ServerSubscription
unfolding on_bind_result add_backing_items
run_bind_item d s id handle request answer now =
    on_bind_result d s id handle (first_result (add_backing_items s (request ∷ []) answer)) now

unfoldable pub find_by_handle : ℕ → List (ℕ × Item) → Option Item
find_by_handle handle [] = none
find_by_handle handle ((id, item) ∷ items) =
    if item.backing_client_handle == handle then some item else find_by_handle handle items

unfoldable pub client_handle_of : ItemNotification → ℕ
client_handle_of (data_change n) = n.client_handle
client_handle_of (event n) = n.client_handle

unfoldable pub queue_item_notification :
    Doubles → ServerSubscription → Item → ItemNotification → ServerSubscription
unfolding queue_data_change queue_event_fields
queue_item_notification d s item (data_change n) = queue_data_change d s item n.value
queue_item_notification d s item (event n) = queue_event_fields s item n.event_fields

unfoldable pub on_notification :
    Doubles → ServerSubscription → ItemNotification → ServerSubscription
unfolding find_by_handle client_handle_of queue_item_notification
on_notification d s notification = elim (find_by_handle (client_handle_of notification) s.items) [
  | none ↦ s
  | some item ↦ queue_item_notification d s item notification
]

unfoldable pub on_notifications :
    Doubles → ServerSubscription → List ItemNotification → ServerSubscription
on_notifications d s [] = s
on_notifications d s (n ∷ notifications) = on_notifications d (on_notification d s n) notifications

-- One round for each item that was in `items_`, in its order.
unfoldable pub on_error_loop :
    Doubles → ServerSubscription → List (ℕ × Item) → ℕ → ℕ → ServerSubscription
on_error_loop d s [] status now = s
on_error_loop d s ((id, item) ∷ items) status now =
    on_error_loop d (queue_item_status d s item status now) items status now

unfoldable pub on_subscription_error : Doubles → ServerSubscription → ℕ → ℕ → ServerSubscription
unfolding on_error_loop
on_subscription_error d s status now = on_error_loop d s s.items status now
