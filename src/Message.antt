-- ===== src/Message.antt =====
-- opcua/message.h and monitored/monitored_item.h: the requests and responses of the subscription
-- services. A DateTime is its count of 100-nanosecond ticks and is not negative; a double is its bit
-- pattern; a Status is its full code. The generated ua:: requests and responses have the fields that
-- the services read and write.
use opcuapp.Base.{ℕ, Bool, Option, List}
use opcuapp.Types.NodeId.{NodeId}
use opcuapp.Types.Variant.{Variant, DataValue}

pub data MonitoringMode : Type 0 where
  disabled sampling reporting : MonitoringMode

pub data DeadbandType : Type 0 where
  no_deadband absolute percent : DeadbandType

pub data DataChangeTrigger : Type 0 where
  status status_value status_value_timestamp : DataChangeTrigger

pub record DataChangeFilter : Type 0 where
  pub trigger : DataChangeTrigger
  pub deadband_type : DeadbandType
  pub deadband_value : ℕ

-- The JSON of an event or aggregate filter is its text.
pub data MonitoringFilter : Type 0 where
  data_change_filter : DataChangeFilter → MonitoringFilter
  json : List ℕ → MonitoringFilter

pub record ReadValueId : Type 0 where
  pub node_id : NodeId
  pub attribute_id : ℕ

pub record MonitoringParameters : Type 0 where
  pub client_handle : ℕ
  pub sampling_interval_ms : ℕ
  pub filter : Option MonitoringFilter
  pub queue_size : ℕ
  pub discard_oldest : Bool

pub record MonitoredItemCreateRequest : Type 0 where
  pub item_to_monitor : ReadValueId
  pub index_range : Option (List ℕ)
  pub monitoring_mode : MonitoringMode
  pub requested_parameters : MonitoringParameters

pub record MonitoredItemCreateResult : Type 0 where
  pub status : ℕ
  pub monitored_item_id : ℕ
  pub revised_sampling_interval_ms : ℕ
  pub revised_queue_size : ℕ

pub record MonitoredItemModifyRequest : Type 0 where
  pub monitored_item_id : ℕ
  pub requested_parameters : MonitoringParameters

pub record MonitoredItemModifyResult : Type 0 where
  pub status : ℕ
  pub revised_sampling_interval_ms : ℕ
  pub revised_queue_size : ℕ

pub record SubscriptionParameters : Type 0 where
  pub publishing_interval_ms : ℕ
  pub lifetime_count : ℕ
  pub max_keep_alive_count : ℕ
  pub max_notifications_per_publish : ℕ
  pub publishing_enabled : Bool
  pub priority : ℕ

pub record CreateSubscriptionResponse : Type 0 where
  pub status : ℕ
  pub subscription_id : ℕ
  pub revised_publishing_interval_ms : ℕ
  pub revised_lifetime_count : ℕ
  pub revised_max_keep_alive_count : ℕ

pub record ModifySubscriptionRequest : Type 0 where
  pub subscription_id : ℕ
  pub parameters : SubscriptionParameters

pub record ModifySubscriptionResponse : Type 0 where
  pub status : ℕ
  pub revised_publishing_interval_ms : ℕ
  pub revised_lifetime_count : ℕ
  pub revised_max_keep_alive_count : ℕ

pub record CreateMonitoredItemsRequest : Type 0 where
  pub subscription_id : ℕ
  pub items_to_create : List MonitoredItemCreateRequest

pub record CreateMonitoredItemsResponse : Type 0 where
  pub status : ℕ
  pub results : List MonitoredItemCreateResult

pub record ModifyMonitoredItemsRequest : Type 0 where
  pub subscription_id : ℕ
  pub items_to_modify : List MonitoredItemModifyRequest

pub record ModifyMonitoredItemsResponse : Type 0 where
  pub status : ℕ
  pub results : List MonitoredItemModifyResult

pub record DeleteMonitoredItemsRequest : Type 0 where
  pub subscription_id : ℕ
  pub monitored_item_ids : List ℕ

pub record SetMonitoringModeRequest : Type 0 where
  pub subscription_id : ℕ
  pub monitoring_mode : MonitoringMode
  pub monitored_item_ids : List ℕ

-- The responses of services that answer each id with a Status.
pub record ItemStatusResponse : Type 0 where
  pub service_result : ℕ
  pub results : List ℕ

pub record SubscriptionAcknowledgement : Type 0 where
  pub subscription_id : ℕ
  pub sequence_number : ℕ

pub record MonitoredItemNotification : Type 0 where
  pub client_handle : ℕ
  pub value : DataValue

pub record EventFieldList : Type 0 where
  pub client_handle : ℕ
  pub event_fields : List Variant

pub data ItemNotification : Type 0 where
  data_change : MonitoredItemNotification → ItemNotification
  event : EventFieldList → ItemNotification

pub data NotificationData : Type 0 where
  data_change_notification : List MonitoredItemNotification → NotificationData
  event_notification_list : List EventFieldList → NotificationData
  status_change_notification : ℕ → NotificationData

pub record NotificationMessage : Type 0 where
  pub sequence_number : ℕ
  pub publish_time : ℕ
  pub notification_data : List NotificationData

pub record PublishResponse : Type 0 where
  pub status : ℕ
  pub subscription_id : ℕ
  pub results : List ℕ
  pub more_notifications : Bool
  pub notification_message : NotificationMessage
  pub available_sequence_numbers : List ℕ

pub record RepublishRequest : Type 0 where
  pub subscription_id : ℕ
  pub retransmit_sequence_number : ℕ

pub record RepublishResponse : Type 0 where
  pub status : ℕ
  pub notification_message : NotificationMessage
