-- ===== src/Subscription/Items.antt =====
-- The monitored items of a ServerSubscription: creating, modifying and deleting them, and their mode.
use opcuapp.Base.{ℕ, false, not, none, some, List, [], ◌∷◌, max, ◌==◌, contains, if◌then◌else◌}
use opcuapp.Base.Assoc.{lookup, insert, erase, emplace}
use opcuapp.Types.Status.{
  good, bad, of_code, bad_subscription_id_invalid, bad_monitored_item_id_invalid,
}
use opcuapp.Message.{
  MonitoredItemCreateRequest, MonitoredItemCreateResult, MonitoredItemModifyRequest,
  MonitoredItemModifyResult, CreateMonitoredItemsRequest, CreateMonitoredItemsResponse,
  ModifyMonitoredItemsRequest, ModifyMonitoredItemsResponse, DeleteMonitoredItemsRequest,
  SetMonitoringModeRequest, ItemStatusResponse,
}
use opcuapp.Subscription.State.{ServerSubscription, Item, QueuedNotification, next_uint32}
use opcuapp.Subscription.Backing.{Creates, set_item, remove_backing_item, rebind_item}

-- The status of an item in `items_`.
abbrev pub status_of : ServerSubscription → ℕ → ℕ
status_of s id = elim (lookup id s.items) [ none ↦ bad | some item ↦ item.monitored_item_status ]

unfoldable pub new_item : ℕ → MonitoredItemCreateRequest → Item
new_item id source_item = record {
  monitored_item_id = id;
  item_to_monitor = source_item.item_to_monitor;
  index_range = source_item.index_range;
  monitoring_mode = source_item.monitoring_mode;
  parameters = source_item.requested_parameters;
  monitored_item_status = bad;
  backing_client_handle = 0;
  backing_item_id = 0;
  binding_requested = false;
  last_reported_value = none;
}

-- One round of the loop of CreateMonitoredItems.
unfoldable pub create_monitored_item :
    Creates
    → ServerSubscription
    → MonitoredItemCreateRequest
    → ServerSubscription × MonitoredItemCreateResult
unfolding rebind_item new_item
create_monitored_item creates s source_item =
    let id = s.next_monitored_item_id in
    let item = new_item id source_item in
    let s =
      rebind_item creates
        (record s { next_monitored_item_id = next_uint32 id; items = emplace id item s.items })
        item in
    let status = status_of s id in
    (
      (if status == good then s else record s { items = erase id s.items }),
      record {
        status = of_code status;
        monitored_item_id = if status == good then id else 0;
        revised_sampling_interval_ms = item.parameters.sampling_interval_ms;
        revised_queue_size = max 1 item.parameters.queue_size;
      },
    )

unfoldable pub create_monitored_items_loop :
    Creates
    → ServerSubscription
    → List MonitoredItemCreateRequest
    → ServerSubscription × List MonitoredItemCreateResult
create_monitored_items_loop creates s [] = (s, [])
create_monitored_items_loop creates s (source_item ∷ items_to_create) =
    let (s', result) = create_monitored_item creates s source_item in
    let (s'', results) = create_monitored_items_loop creates s' items_to_create in
    (s'', result ∷ results)

unfoldable pub create_monitored_items :
    Creates
    → ServerSubscription
    → CreateMonitoredItemsRequest
    → ServerSubscription × CreateMonitoredItemsResponse
create_monitored_items creates s request =
    let (s', results) = create_monitored_items_loop creates s request.items_to_create in
    if not (request.subscription_id == s.subscription_id)
    then (s, record { status = of_code bad_subscription_id_invalid; results = [] })
    else (s', record { status = good; results = results })

-- One round of the loop of ModifyMonitoredItems.
unfoldable pub modify_monitored_item :
    Creates
    → ServerSubscription
    → MonitoredItemModifyRequest
    → ServerSubscription × MonitoredItemModifyResult
unfolding rebind_item
modify_monitored_item creates s source_item = elim (lookup source_item.monitored_item_id s.items) [
  | none ↦ (
    s,
    record {
      status = of_code bad_monitored_item_id_invalid;
      revised_sampling_interval_ms = 0;
      revised_queue_size = 0;
    },
  )
  | some item ↦
      let item = record item { parameters = source_item.requested_parameters } in
      let s = rebind_item creates (set_item s item) item in
      (
        s,
        record {
          status = of_code (status_of s source_item.monitored_item_id);
          revised_sampling_interval_ms = item.parameters.sampling_interval_ms;
          revised_queue_size = max 1 item.parameters.queue_size;
        },
      )
]

unfoldable pub modify_monitored_items_loop :
    Creates
    → ServerSubscription
    → List MonitoredItemModifyRequest
    → ServerSubscription × List MonitoredItemModifyResult
modify_monitored_items_loop creates s [] = (s, [])
modify_monitored_items_loop creates s (source_item ∷ items_to_modify) =
    let (s', result) = modify_monitored_item creates s source_item in
    let (s'', results) = modify_monitored_items_loop creates s' items_to_modify in
    (s'', result ∷ results)

unfoldable pub modify_monitored_items :
    Creates
    → ServerSubscription
    → ModifyMonitoredItemsRequest
    → ServerSubscription × ModifyMonitoredItemsResponse
modify_monitored_items creates s request =
    let (s', results) = modify_monitored_items_loop creates s request.items_to_modify in
    if not (request.subscription_id == s.subscription_id)
    then (s, record { status = of_code bad_subscription_id_invalid; results = [] })
    else (s', record { status = good; results = results })

-- One round of the loop of DeleteMonitoredItems.
unfoldable pub delete_monitored_item : ServerSubscription → ℕ → ServerSubscription × ℕ
unfolding remove_backing_item
delete_monitored_item s id = elim (lookup id s.items) [
  | none ↦ (s, of_code bad_monitored_item_id_invalid)
  | some item ↦
      let s = remove_backing_item s item.backing_item_id in
      (record s { items = erase id s.items }, good)
]

unfoldable pub delete_monitored_items_loop :
    ServerSubscription → List ℕ → ServerSubscription × List ℕ
delete_monitored_items_loop s [] = (s, [])
delete_monitored_items_loop s (id ∷ ids) =
    let (s', result) = delete_monitored_item s id in
    let (s'', results) = delete_monitored_items_loop s' ids in (s'', result ∷ results)

-- The `remove_if` over the pending notifications.
unfoldable pub drop_notifications : List ℕ → List QueuedNotification → List QueuedNotification
unfolding contains
drop_notifications ids [] = []
drop_notifications ids (q ∷ pending) =
    if contains q.source_item_id ids
    then drop_notifications ids pending
    else q ∷ drop_notifications ids pending

unfoldable pub delete_monitored_items :
    ServerSubscription → DeleteMonitoredItemsRequest → ServerSubscription × ItemStatusResponse
delete_monitored_items s request =
    let (s', results) = delete_monitored_items_loop s request.monitored_item_ids in
    if not (request.subscription_id == s.subscription_id)
    then (s, record { service_result = of_code bad_subscription_id_invalid; results = [] })
    else (
      record s' {
        pending_notifications =
            drop_notifications request.monitored_item_ids s'.pending_notifications;
      },
      record { service_result = good; results = results },
    )

unfoldable pub set_monitoring_mode_loop :
    ServerSubscription → SetMonitoringModeRequest → List ℕ → ServerSubscription × List ℕ
set_monitoring_mode_loop s request [] = (s, [])
set_monitoring_mode_loop s request (id ∷ ids) =
    let (s', result) : ServerSubscription × ℕ = elim (lookup id s.items) [
      | none ↦ (s, of_code bad_monitored_item_id_invalid)
      | some item ↦ (
        record s {
          items = insert id (record item { monitoring_mode = request.monitoring_mode }) s.items;
        },
        good,
      )
    ] in
    let (s'', results) = set_monitoring_mode_loop s' request ids in (s'', result ∷ results)

unfoldable pub set_monitoring_mode :
    ServerSubscription → SetMonitoringModeRequest → ServerSubscription × ItemStatusResponse
set_monitoring_mode s request =
    let (s', results) = set_monitoring_mode_loop s request request.monitored_item_ids in
    if not (request.subscription_id == s.subscription_id)
    then (s, record { service_result = of_code bad_subscription_id_invalid; results = [] })
    else (s', record { service_result = good; results = results })
