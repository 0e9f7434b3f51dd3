-- ===== src/Tests/Subscriptions.antt =====
-- The subscription's theorems at concrete inputs.
use opcuapp.Base.{◌*◌, ◌≡◌, ◌≢◌, ◌≤◌, ◌⊎◌, ◌↔◌, refl, true, none, [], arith, contains}
use opcuapp.Base.Assoc.{lookup}
use opcuapp.Types.Status.{
  good, of_code, bad_message_not_available, bad_sequence_number_unknown,
  bad_subscription_id_invalid,
}
use opcuapp.Subscription.State.{is_publish_ready, prime_publish_cycle, revise_parameters}
use opcuapp.Subscription.Publishing.{
  find_message, try_publish, acknowledge, republish, no_message, sequence_numbers_of,
}
use opcuapp.Subscription.Items.{delete_monitored_items}
use opcuapp.Subscription.Notifications.{queue_notification}
use opcuapp.Subscription.Retransmit.{IsWellFormed, try_publish-IsWellFormed}
use opcuapp.Subscription.Acknowledge.{republish-acknowledge, acknowledge_good, remove_number}
use opcuapp.Subscription.Delivery.{
  Delivery, try_publish-Delivery, Republishable, republish-try_publish,
}
use opcuapp.Subscription.QueueLimit.{of_item, bounded_push, queue_notification-bounded_push}
use opcuapp.Subscription.Deletion.{
  is_released, delete_monitored_items_lem, delete_monitored_items-is_released,
}
use opcuapp.Subscription.Cycle.{
  try_publish-is_publish_ready, revise_parameters_lifetime, revise_parameters_idem,
}
use opcuapp.Tests.Data.{doubles, parameters, item, notification, subscription, delete_request}

subscription-IsWellFormed : IsWellFormed subscription
subscription-IsWellFormed = record {
  retained = refl;
  bounded = omega arith;
  numbers = (omega arith, omega arith);
}

try_publish-Delivery_example : Delivery subscription (try_publish doubles subscription 20000)
try_publish-Delivery_example = try_publish-Delivery doubles subscription 20000

republish-try_publish_example : Republishable subscription (try_publish doubles subscription 20000)
unfolding find_message
republish-try_publish_example = republish-try_publish doubles subscription 20000 refl

try_publish-IsWellFormed_example : IsWellFormed (try_publish doubles subscription 20000).0
try_publish-IsWellFormed_example =
    try_publish-IsWellFormed doubles subscription 20000 (omega arith) subscription-IsWellFormed

republish-acknowledge_example :
    republish (acknowledge subscription 1).0 1
    ≡ record { status = of_code bad_message_not_available; notification_message = no_message }
unfolding find_message
republish-acknowledge_example = republish-acknowledge subscription 1 1 (refl, tt)

acknowledge_good_example :
    (((acknowledge subscription 1).1 ≡ good)
      × ((republish subscription 1).status ≡ good)
      × (sequence_numbers_of (acknowledge subscription 1).0.retransmit_queue
          ≡ remove_number 1 (sequence_numbers_of subscription.retransmit_queue)))
    ⊎ (((acknowledge subscription 1).1 ≡ bad_sequence_number_unknown)
        × ((republish subscription 1).status ≡ of_code bad_message_not_available)
        × ((acknowledge subscription 1).0 ≡ subscription))
acknowledge_good_example = acknowledge_good subscription 1

queue_notification-bounded_push_example :
    of_item 3 (queue_notification subscription item (notification 12)).pending_notifications
    ≡ bounded_push 2 true (of_item 3 subscription.pending_notifications) (notification 12)
queue_notification-bounded_push_example =
    queue_notification-bounded_push subscription item (notification 12) 3

delete_monitored_items_lem_example :
    ((delete_request.subscription_id ≢ subscription.subscription_id)
      × ((delete_monitored_items subscription delete_request).0 ≡ subscription)
      × ((delete_monitored_items subscription delete_request).1.service_result
          ≡ of_code bad_subscription_id_invalid))
    ⊎ ((delete_request.subscription_id ≡ subscription.subscription_id)
        × (lookup 3 (delete_monitored_items subscription delete_request).0.items ≡ none)
        × (of_item 3 (delete_monitored_items subscription delete_request).0.pending_notifications
            ≡ []))
unfolding contains
delete_monitored_items_lem_example = delete_monitored_items_lem subscription delete_request 3

delete_monitored_items-is_released_example :
    is_released 9 (delete_monitored_items subscription delete_request).0.spawned ≡ true
unfolding contains lookup
delete_monitored_items-is_released_example =
    delete_monitored_items-is_released subscription delete_request 3 item refl refl refl
      (λ e. omega arith) (λ e. cc)

try_publish-is_publish_ready_example :
    ((try_publish doubles subscription 20000).1 ≢ none)
    ↔ (is_publish_ready doubles (prime_publish_cycle subscription 20000) 20000 ≡ true)
try_publish-is_publish_ready_example = try_publish-is_publish_ready doubles subscription 20000

revise_parameters_lifetime_example :
    3 * (revise_parameters parameters).max_keep_alive_count
    ≤ (revise_parameters parameters).lifetime_count
revise_parameters_lifetime_example = revise_parameters_lifetime parameters (omega arith)

revise_parameters_idem_example :
    revise_parameters (revise_parameters parameters) ≡ revise_parameters parameters
revise_parameters_idem_example = revise_parameters_idem parameters
