-- ===== src/Session/State.antt =====
-- The state of a ServerSession and the services that act on its subscriptions. `Now()` and the callback
-- that creates backing subscriptions are arguments.
use opcuapp.Base.{
  ℕ, zero, suc, ◌-◌, max, Bool, true, false, Option, none, some, List, [], ◌∷◌, ◌++◌, length, ltb,
  leb, ◌==◌, if◌then◌else◌,
}
use opcuapp.Base.Assoc.{lookup, insert, erase, emplace}
use opcuapp.Types.Status.{
  good, bad, of_code, bad_subscription_id_invalid, bad_too_many_monitored_items,
}
use opcuapp.Message.{
  SubscriptionParameters, CreateSubscriptionResponse, ModifySubscriptionRequest,
  ModifySubscriptionResponse, CreateMonitoredItemsRequest, CreateMonitoredItemsResponse,
  ModifyMonitoredItemsRequest, ModifyMonitoredItemsResponse, DeleteMonitoredItemsRequest,
  SetMonitoringModeRequest, ItemStatusResponse, RepublishRequest, RepublishResponse,
}
use opcuapp.Subscription.State
use opcuapp.Subscription.State.{ServerSubscription, next_uint32}
use opcuapp.Subscription.Publishing.{republish as republish_message, no_message}
use opcuapp.Subscription.Backing.{Creates}
use opcuapp.Subscription.Items.{
  create_monitored_items as create_items, modify_monitored_items as modify_items,
  delete_monitored_items as delete_items, set_monitoring_mode as set_mode,
}

-- `R` is the generated ua::ReferenceDescription.
pub record ServerSession (R : Type 0) : Type 0 where
  pub max_monitored_items_per_call : ℕ
  pub subscriptions : List (ℕ × ServerSubscription)
  pub browse_continuations : List (List ℕ × List R)
  pub publish_order : List ℕ
  pub next_subscription_id : ℕ
  pub next_publish_index : ℕ
  pub next_browse_continuation_id : ℕ

-- The position of the first occurrence, which `std::find` gives.
unfoldable pub index_of : ℕ → List ℕ → Option ℕ
index_of id [] = none
index_of id (x ∷ order) =
    if x == id then some 0 else elim (index_of id order) [ none ↦ none | some i ↦ some (suc i) ]

unfoldable pub remove_at : ℕ → List ℕ → List ℕ
remove_at i [] = []
remove_at zero (x ∷ order) = order
remove_at (suc i) (x ∷ order) = x ∷ remove_at i order

-- The cursor after the entry at `index` was erased and `size` entries are left.
unfoldable pub cursor_after_erase : ℕ → ℕ → ℕ → ℕ
cursor_after_erase index size cursor =
    if size == 0
    then 0
    else let cursor = if ltb index cursor then cursor - 1 else cursor in
      if leb size cursor then 0 else cursor

-- RefreshNextSubscriptionId
unfoldable pub refresh : List (ℕ × ServerSubscription) → ℕ → ℕ
refresh [] next = next
refresh ((id, t) ∷ subscriptions) next = refresh subscriptions (max next (next_uint32 id))

module _ {R : Type 0} where
  abbrev pub find_subscription : ServerSession R → ℕ → Option ServerSubscription
  find_subscription s id = lookup id s.subscriptions

  abbrev pub has_subscription : ServerSession R → ℕ → Bool
  has_subscription s id = elim (lookup id s.subscriptions) [ none ↦ false | some t ↦ true ]

  abbrev pub set_subscription : ServerSession R → ℕ → ServerSubscription → ServerSession R
  set_subscription s id t = record s { subscriptions = insert id t s.subscriptions }

  unfoldable pub erase_subscription : ServerSession R → ℕ → ServerSession R
  unfolding index_of remove_at cursor_after_erase
  erase_subscription s id = elim (index_of id s.publish_order) [
    | none ↦ record s { subscriptions = erase id s.subscriptions }
    | some index ↦
        let order = remove_at index s.publish_order in
        record s {
          subscriptions = erase id s.subscriptions;
          publish_order = order;
          next_publish_index = cursor_after_erase index (length order) s.next_publish_index;
        }
  ]

  unfoldable pub create_subscription_with_id :
      ServerSession R
      → ℕ
      → SubscriptionParameters
      → ℕ
      → ServerSession R × CreateSubscriptionResponse
  create_subscription_with_id s id parameters now =
      let subscription = State.create id parameters now in
      let revised = subscription.parameters in
      (
        record s {
          next_subscription_id = max s.next_subscription_id (next_uint32 id);
          subscriptions = emplace id subscription s.subscriptions;
          publish_order = s.publish_order ++ id ∷ [];
        },
        record {
          status = good;
          subscription_id = id;
          revised_publishing_interval_ms = revised.publishing_interval_ms;
          revised_lifetime_count = revised.lifetime_count;
          revised_max_keep_alive_count = revised.max_keep_alive_count;
        },
      )

  unfoldable pub create_subscription :
      ServerSession R → SubscriptionParameters → ℕ → ServerSession R × CreateSubscriptionResponse
  unfolding create_subscription_with_id
  create_subscription s parameters now =
      create_subscription_with_id
        (record s { next_subscription_id = next_uint32 s.next_subscription_id })
        s.next_subscription_id parameters now

  unfoldable pub modify_subscription :
      ServerSession R → ModifySubscriptionRequest → ServerSession R × ModifySubscriptionResponse
  modify_subscription s request = elim (find_subscription s request.subscription_id) [
    | none ↦ (
      s,
      record {
        status = of_code bad_subscription_id_invalid;
        revised_publishing_interval_ms = 0;
        revised_lifetime_count = 0;
        revised_max_keep_alive_count = 0;
      },
    )
    | some t ↦
        let (t', response) = State.modify t request in
        (set_subscription s request.subscription_id t', response)
  ]

  unfoldable pub set_publishing_mode : ServerSession R → Bool → List ℕ → ServerSession R × List ℕ
  set_publishing_mode s publishing_enabled [] = (s, [])
  set_publishing_mode s publishing_enabled (id ∷ ids) =
      let (s', result) : ServerSession R × ℕ = elim (find_subscription s id) [
        | none ↦ (s, of_code bad_subscription_id_invalid)
        | some t ↦ (set_subscription s id (State.set_publishing_enabled t publishing_enabled), good)
      ] in
      let (s'', results) = set_publishing_mode s' publishing_enabled ids in (s'', result ∷ results)

  unfoldable pub delete_subscriptions : ServerSession R → List ℕ → ServerSession R × List ℕ
  unfolding erase_subscription
  delete_subscriptions s [] = (s, [])
  delete_subscriptions s (id ∷ ids) =
      let (s', result) : ServerSession R × ℕ = elim (find_subscription s id) [
        | none ↦ (s, of_code bad_subscription_id_invalid)
        | some t ↦ (erase_subscription s id, good)
      ] in
      let (s'', results) = delete_subscriptions s' ids in (s'', result ∷ results)

  -- One round of the loop of TransferSubscriptionsFrom: the session, the source and the status.
  unfoldable pub transfer_subscription :
      ServerSession R → ServerSession R → ℕ → ServerSession R × ServerSession R × ℕ
  unfolding erase_subscription
  transfer_subscription s source id = elim (find_subscription s id) [
    | some t ↦ (s, source, of_code bad)
    | none ↦ elim (find_subscription source id) [
      | none ↦ (s, source, of_code bad_subscription_id_invalid)
      | some t ↦ (
        record s {
          subscriptions = emplace id t s.subscriptions;
          publish_order = s.publish_order ++ id ∷ [];
        },
        erase_subscription source id,
        good,
      )
    ]
  ]

  unfoldable pub transfer_loop :
      ServerSession R → ServerSession R → List ℕ → ServerSession R × ServerSession R × List ℕ
  unfolding transfer_subscription
  transfer_loop s source [] = (s, source, [])
  transfer_loop s source (id ∷ ids) =
      let (s', source', result) = transfer_subscription s source id in
      let (s'', source'', results) = transfer_loop s' source' ids in
      (s'', source'', result ∷ results)

  unfoldable pub transfer_subscriptions_from :
      ServerSession R → ServerSession R → List ℕ → ServerSession R × ServerSession R × List ℕ
  unfolding transfer_loop refresh
  transfer_subscriptions_from s source ids =
      let (s', source', results) = transfer_loop s source ids in
      (
        record s' { next_subscription_id = refresh s'.subscriptions s'.next_subscription_id },
        source',
        results,
      )

  unfoldable pub create_monitored_items :
      Creates
      → ServerSession R
      → CreateMonitoredItemsRequest
      → ServerSession R × CreateMonitoredItemsResponse
  create_monitored_items creates s request =
      if ltb s.max_monitored_items_per_call (length request.items_to_create)
      then (s, record { status = of_code bad_too_many_monitored_items; results = [] })
      else elim (find_subscription s request.subscription_id) [
        | none ↦ (s, record { status = of_code bad_subscription_id_invalid; results = [] })
        | some t ↦
            let (t', response) = create_items creates t request in
            (set_subscription s request.subscription_id t', response)
      ]

  unfoldable pub modify_monitored_items :
      Creates
      → ServerSession R
      → ModifyMonitoredItemsRequest
      → ServerSession R × ModifyMonitoredItemsResponse
  modify_monitored_items creates s request = elim (find_subscription s request.subscription_id) [
    | none ↦ (s, record { status = of_code bad_subscription_id_invalid; results = [] })
    | some t ↦
        let (t', response) = modify_items creates t request in
        (set_subscription s request.subscription_id t', response)
  ]

  unfoldable pub delete_monitored_items :
      ServerSession R → DeleteMonitoredItemsRequest → ServerSession R × ItemStatusResponse
  delete_monitored_items s request = elim (find_subscription s request.subscription_id) [
    | none ↦ (s, record { service_result = of_code bad_subscription_id_invalid; results = [] })
    | some t ↦
        let (t', response) = delete_items t request in
        (set_subscription s request.subscription_id t', response)
  ]

  unfoldable pub set_monitoring_mode :
      ServerSession R → SetMonitoringModeRequest → ServerSession R × ItemStatusResponse
  set_monitoring_mode s request = elim (find_subscription s request.subscription_id) [
    | none ↦ (s, record { service_result = of_code bad_subscription_id_invalid; results = [] })
    | some t ↦
        let (t', response) = set_mode t request in
        (set_subscription s request.subscription_id t', response)
  ]

  unfoldable pub republish : ServerSession R → RepublishRequest → RepublishResponse
  republish s request = elim (find_subscription s request.subscription_id) [
    | none ↦ record {
      status = of_code bad_subscription_id_invalid;
      notification_message = no_message;
    }
    | some t ↦ republish_message t request.retransmit_sequence_number
  ]

  -- GetSubscriptionIds
  unfoldable pub subscription_ids : ServerSession R → List ℕ → List ℕ
  subscription_ids s [] = []
  subscription_ids s (id ∷ order) =
      if has_subscription s id then id ∷ subscription_ids s order else subscription_ids s order

  unfoldable pub get_subscription_ids : ServerSession R → List ℕ
  unfolding subscription_ids
  get_subscription_ids s = subscription_ids s s.publish_order
