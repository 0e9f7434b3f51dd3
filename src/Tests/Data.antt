-- ===== src/Tests/Data.antt =====
-- The sessions, subscriptions and messages that the tests run on. The tests' doubles hold the natural
-- number that they stand for.
use opcuapp.Base.{ℕ, ◌-◌, ◌*◌, ◌/◌, true, false, none, some, [], ◌∷◌, leb, ltb}
use opcuapp.Base.Int.{ℤ, pos, negsuc}
use opcuapp.Types.NodeId.{null}
use opcuapp.Types.Variant.{Doubles, uint32}
use opcuapp.Message.{
  NotificationData, NotificationMessage, data_change_notification, SubscriptionParameters,
  reporting, DeleteMonitoredItemsRequest,
}
use opcuapp.Subscription.State.{ServerSubscription, Item, QueuedNotification}
use opcuapp.Session.State.{ServerSession}
use opcuapp.Session.Browse.{BrowseResult}

abbrev natural : ℤ → ℕ
natural (pos n) = n
natural (negsuc n) = 0

abbrev pub doubles : Doubles
doubles = record {
  to_int64 = λ n. pos n;
  of_int64 = natural;
  sub = λ a b. a - b;
  mul = λ a b. a * b;
  div = λ a b. a / b;
  abs = λ a. a;
  le = leb;
  lt = ltb;
}

abbrev pub parameters : SubscriptionParameters
parameters = record {
  publishing_interval_ms = 1;
  lifetime_count = 30;
  max_keep_alive_count = 10;
  max_notifications_per_publish = 1;
  publishing_enabled = true;
  priority = 0;
}

abbrev pub item : Item
item = record {
  monitored_item_id = 3;
  item_to_monitor = record { node_id = null; attribute_id = 13 };
  index_range = none;
  monitoring_mode = reporting;
  parameters = record {
    client_handle = 7;
    sampling_interval_ms = 0;
    filter = none;
    queue_size = 2;
    discard_oldest = true;
  };
  monitored_item_status = 0;
  backing_client_handle = 5;
  backing_item_id = 9;
  binding_requested = true;
  last_reported_value = none;
}

abbrev pub notification : ℕ → NotificationData
notification n = data_change_notification (
    record {
      client_handle = 7;
      value = record {
        value = uint32 n;
        qualifier = 0;
        source_timestamp = 0;
        server_timestamp = 0;
        status_code = 0;
      };
    }
    ∷ [])

abbrev pub queued : ℕ → ℕ → QueuedNotification
queued id n = record { source_item_id = id; notification = notification n }

abbrev pub message : ℕ → NotificationMessage
message n = record {
  sequence_number = n;
  publish_time = 100;
  notification_data = notification n ∷ [];
}

-- One message is retained and two notifications of the item are queued.
abbrev pub subscription : ServerSubscription
subscription = record {
  subscription_id = 1;
  parameters = parameters;
  backing_subscription_state = some (record { closed = false });
  create_calls = 1;
  spawned = [];
  next_monitored_item_id = 4;
  next_backing_client_handle = 6;
  next_sequence_number = 2;
  initial_message_sent = true;
  last_publish_time = some 100;
  items = (3, item) ∷ [];
  pending_notifications = queued 3 10 ∷ queued 3 11 ∷ [];
  retransmit_queue = message 1 ∷ [];
  retained_notifications = 1;
}

-- No notification is queued, and a keep-alive is not due.
abbrev pub idle : ServerSubscription
idle = record subscription { subscription_id = 2; pending_notifications = [] }

abbrev pub session : ServerSession ℕ
session = record {
  max_monitored_items_per_call = 0;
  subscriptions = (1, subscription) ∷ (2, idle) ∷ [];
  browse_continuations = [];
  publish_order = 1 ∷ 2 ∷ [];
  next_subscription_id = 3;
  next_publish_index = 1;
  next_browse_continuation_id = 1;
}

abbrev pub browsed : BrowseResult ℕ
browsed = record { status_code = 0; continuation_point = []; references = 21 ∷ 22 ∷ 23 ∷ [] }

abbrev pub delete_request : DeleteMonitoredItemsRequest
delete_request = record { subscription_id = 1; monitored_item_ids = 3 ∷ 8 ∷ [] }
