-- ===== src/Session/Requests.antt =====
-- The requests of a client as a sequence, and what holds of the session whatever they are.
use opcuapp.Base.{ℕ, Bool, List, [], ◌∷◌}
use opcuapp.Types.Variant.{Doubles}
use opcuapp.Message.{SubscriptionParameters, SubscriptionAcknowledgement, ModifySubscriptionRequest}
use opcuapp.Session.State.{
  ServerSession, create_subscription, delete_subscriptions, set_publishing_mode,
  modify_subscription,
}
use opcuapp.Session.Publish.{publish}
use opcuapp.Session.Cursor.{
  IsPointed, create_subscription-IsPointed, delete_subscriptions-IsPointed, publish-IsPointed,
  set_publishing_mode-IsPointed, modify_subscription-IsPointed,
}

-- The requests that reach the subscriptions of a session and its publish order.
pub data Request : Type 0 where
  creating : SubscriptionParameters → ℕ → Request
  modifying : ModifySubscriptionRequest → Request
  deleting : List ℕ → Request
  switching : Bool → List ℕ → Request
  publishing : List SubscriptionAcknowledgement → ℕ → Request

module _ {R : Type 0} (d : Doubles) where
  unfoldable pub serve : ServerSession R → Request → ServerSession R
  serve s (creating parameters now) = (create_subscription s parameters now).0
  serve s (modifying request) = (modify_subscription s request).0
  serve s (deleting ids) = (delete_subscriptions s ids).0
  serve s (switching publishing_enabled ids) = (set_publishing_mode s publishing_enabled ids).0
  serve s (publishing acks now) = (publish d s acks now).0

  unfoldable pub serve_all : ServerSession R → List Request → ServerSession R
  unfolding serve
  serve_all s [] = s
  serve_all s (request ∷ requests) = serve_all (serve s request) requests

  serve-IsPointed :
      (s : ServerSession R) (request : Request) → IsPointed s → IsPointed (serve s request)
  unfolding serve
  serve-IsPointed s (creating parameters now) w = create_subscription-IsPointed s parameters now w
  serve-IsPointed s (modifying request) w = modify_subscription-IsPointed s request w
  serve-IsPointed s (deleting ids) w = delete_subscriptions-IsPointed s ids w
  serve-IsPointed s (switching publishing_enabled ids) w =
      set_publishing_mode-IsPointed s publishing_enabled ids w
  serve-IsPointed s (publishing acks now) w = publish-IsPointed d s acks now w

  -- Whatever requests to create, modify, delete, switch and publish subscriptions a session serves, and
  -- in whatever order, its cursor points into the publish order or is zero, if it did so before.
  pub serve_all-IsPointed :
      (s : ServerSession R) (requests : List Request)
      → IsPointed s
      → IsPointed (serve_all s requests)
  unfolding serve_all
  serve_all-IsPointed s [] w = w
  serve_all-IsPointed s (request ∷ requests) w =
      serve_all-IsPointed (serve s request) requests (serve-IsPointed s request w)
