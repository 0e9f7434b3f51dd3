-- ===== src/Subscription/Cycle.antt =====
-- When a subscription publishes: readiness, and that TryPublish answers when it is ready.
use opcuapp.Base.{ℕ, ◌*◌, ◌^◌, ◌≤◌, ◌<◌, ◌≡◌, ◌≢◌, ◌↔◌, true, none, arith}
use opcuapp.Types.Variant.{Doubles}
use opcuapp.Message.{SubscriptionParameters}
use opcuapp.Subscription.State.{
  ServerSubscription, revise_parameters, is_publish_ready, prime_publish_cycle,
}
use opcuapp.Subscription.Publishing.{try_publish}

-- Priming the cycle of a subscription that is ready leaves it ready.
pub is_publish_ready-prime :
    (d : Doubles) (s : ServerSubscription) (now : ℕ)
    → is_publish_ready d s now ≡ true
    → is_publish_ready d (prime_publish_cycle s now) now ≡ true
unfolding is_publish_ready prime_publish_cycle
is_publish_ready-prime d s now h = ground (arith, h)

-- TryPublish returns a response exactly when the subscription, its cycle primed, is ready.
pub try_publish-is_publish_ready :
    (d : Doubles) (s : ServerSubscription) (now : ℕ)
    → ((try_publish d s now).1 ≢ none) ↔ (is_publish_ready d (prime_publish_cycle s now) now ≡ true)
unfolding try_publish
try_publish-is_publish_ready d s now = (λ h. ground (arith, h), λ h. ground arith)

-- Revised parameters have a keep-alive count that is not zero, and no requested count is lowered.
pub revise_parameters_bounds :
    (p : SubscriptionParameters)
    → (1 ≤ (revise_parameters p).max_keep_alive_count)
      × (p.lifetime_count ≤ (revise_parameters p).lifetime_count)
      × (p.max_keep_alive_count ≤ (revise_parameters p).max_keep_alive_count)
unfolding revise_parameters
revise_parameters_bounds p = ground arith

-- Where three times the requested keep-alive count is a 32-bit number, the revised lifetime count is at
-- least three times the revised keep-alive count.
pub revise_parameters_lifetime :
    (p : SubscriptionParameters)
    → 3 * p.max_keep_alive_count < 2 ^ 32
    → 3 * (revise_parameters p).max_keep_alive_count ≤ (revise_parameters p).lifetime_count
unfolding revise_parameters
revise_parameters_lifetime p h = ground arith

-- Revising revised parameters changes nothing.
pub revise_parameters_idem :
    (p : SubscriptionParameters) → revise_parameters (revise_parameters p) ≡ revise_parameters p
unfolding revise_parameters
revise_parameters_idem p = ground arith
