-- ===== src/Subscription/Backing.antt =====
-- What binds the items of a ServerSubscription to a subscription on the backing server: starting,
-- closing, binding and releasing. The callback `create_subscription_` is code of the server that owns
-- the session: `creates n` is what its call number n answers, `none` for a subscription and `some` for
-- an error's Status.
use opcuapp.Base.{
  ℕ, ◌+◌, Bool, true, false, ◌||◌, not, Option, none, some, List, [], ◌∷◌, ◌++◌, map, ◌==◌,
  if◌then◌else◌,
}
use opcuapp.Base.Assoc.{insert}
use opcuapp.Types.Status.{
  good, of_code, code_of, is_bad, bad_attribute_id_invalid, bad_no_communication,
}
use opcuapp.Message.{MonitoredItemCreateRequest, MonitoredItemCreateResult}
use opcuapp.Subscription.State.{ServerSubscription, Item, Task, bind_item, remove_item, next_uint32}

abbrev pub attribute_event_notifier : ℕ
attribute_event_notifier = 12

abbrev pub attribute_value : ℕ
attribute_value = 13

abbrev pub is_attribute_event_notifier : ℕ → Bool
is_attribute_event_notifier attribute_id = attribute_id == attribute_event_notifier

abbrev pub is_supported_monitored_attribute : ℕ → Bool
is_supported_monitored_attribute attribute_id =
    attribute_id == attribute_value || is_attribute_event_notifier attribute_id

abbrev pub Creates : Type 0
Creates = ℕ → Option ℕ

-- The item in `items_` that a shared pointer points to.
abbrev pub set_item : ServerSubscription → Item → ServerSubscription
set_item s item = record s { items = insert item.monitored_item_id item s.items }

abbrev pub spawn : ServerSubscription → Task → ServerSubscription
spawn s task = record s { spawned = s.spawned ++ task ∷ [] }

unfoldable pub start_backing_subscription : Creates → ServerSubscription → ServerSubscription × ℕ
start_backing_subscription creates s = elim s.backing_subscription_state [
  | some state ↦ (s, good)
  | none ↦ elim (creates s.create_calls) [
    | some error ↦ (record s { create_calls = s.create_calls + 1 }, error)
    | none ↦ (
      record s {
        create_calls = s.create_calls + 1;
        backing_subscription_state = some (record { closed = false });
      },
      good,
    )
  ]
]

unfoldable pub remove_backing_item : ServerSubscription → ℕ → ServerSubscription
remove_backing_item s backing_item_id = elim s.backing_subscription_state [
  | none ↦ s
  | some state ↦ if backing_item_id == 0 then s else spawn s (remove_item backing_item_id)
]

-- The destructor; what Close does to the backing subscription is not seen from here.
unfoldable pub close_backing_subscription : ServerSubscription → ServerSubscription
close_backing_subscription s = elim s.backing_subscription_state [
  | none ↦ s
  | some state ↦ record s { backing_subscription_state = some (record { closed = true }) }
]

-- What AddItems is asked, or why it is not: `answer` is the backing subscription's.
unfoldable pub add_backing_items :
    ServerSubscription
    → List MonitoredItemCreateRequest
    → List MonitoredItemCreateResult
    → List MonitoredItemCreateResult
add_backing_items s requests answer =
    let refused =
      map
        (λ _. record {
          status = of_code bad_no_communication;
          monitored_item_id = 0;
          revised_sampling_interval_ms = 0;
          revised_queue_size = 0;
        })
        requests in
    elim s.backing_subscription_state [
      | none ↦ refused
      | some state ↦ if state.closed then refused else answer
    ]

-- The item is passed as it stands in `items_`, and is written back.
unfoldable pub rebind_item : Creates → ServerSubscription → Item → ServerSubscription
unfolding start_backing_subscription remove_backing_item
rebind_item creates s item =
    if not (is_supported_monitored_attribute item.item_to_monitor.attribute_id)
    then set_item s (record item { monitored_item_status = bad_attribute_id_invalid })
    else let (s, start_status) = start_backing_subscription creates s in
      if is_bad start_status
      then set_item s (record item { monitored_item_status = code_of start_status })
      else let s = remove_backing_item s item.backing_item_id in
        let handle = s.next_backing_client_handle in
        let s = set_item s (record item {
          binding_requested = true;
          backing_item_id = 0;
          monitored_item_status = good;
          backing_client_handle = handle;
        }) in
        spawn (record s { next_backing_client_handle = next_uint32 handle })
          (bind_item item.monitored_item_id handle (record {
            item_to_monitor = item.item_to_monitor;
            index_range = item.index_range;
            monitoring_mode = item.monitoring_mode;
            requested_parameters = record item.parameters { client_handle = handle };
          }))
