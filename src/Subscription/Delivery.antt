-- ===== src/Subscription/Delivery.antt =====
-- What a publish delivers: the queued notifications in order, none lost and none made up, and a
-- message that can be had again.
use opcuapp.Base.{
  ℕ, zero, suc, ◌≡◌, refl, ap, true, false, not, Option, none, some, List, [], ◌∷◌, ◌++◌, arith,
  length, min, map, is_empty, ◌&&◌, ◌==◌, if◌then◌else◌,
}
use opcuapp.Types.Status.{good}
use opcuapp.Types.Variant.{Doubles}
use opcuapp.Message.{NotificationMessage, NotificationData, PublishResponse}
use opcuapp.Subscription.State.{ServerSubscription, QueuedNotification, prime_publish_cycle}
use opcuapp.Subscription.Publishing.{
  size_of, add64, sub64, find_message, drain, evict, max_entries, publish_notifications,
  publish_keep_alive, try_publish, try_publish_cases, republish, has_publishable_notifications,
}
use opcuapp.Subscription.Retransmit.{length-drain}

abbrev pub contents : List QueuedNotification → List NotificationData
contents queue = map (λ q. q.notification) queue

-- The limit on a publish that the client set, where 0 is none.
abbrev pub limit_of : ServerSubscription → ℕ
limit_of s =
    if s.parameters.max_notifications_per_publish == 0
    then length s.pending_notifications
    else s.parameters.max_notifications_per_publish

-- From the subscription before a publish to the one after it and the response.
pub record Delivers (s s' : ServerSubscription) (r : PublishResponse) : Type 0 where
  pub conserved :
      contents s.pending_notifications
      ≡ r.notification_message.notification_data ++ contents s'.pending_notifications
  pub amount : size_of r.notification_message ≡ (
      if s.parameters.publishing_enabled
      then min (limit_of s) (min 1000 (length s.pending_notifications))
      else 0)
  pub more :
      r.more_notifications
      ≡ (s.parameters.publishing_enabled && not (is_empty s'.pending_notifications))
  pub numbered : r.notification_message.sequence_number ≡ s.next_sequence_number

abbrev pub Delivery : ServerSubscription → ServerSubscription × Option PublishResponse → Type 0
Delivery s (s', none) =
    (s'.pending_notifications ≡ s.pending_notifications)
    × (s'.next_sequence_number ≡ s.next_sequence_number)
Delivery s (s', some r) = Delivers s s' r

contents-drain :
    (n : ℕ) (pending : List QueuedNotification)
    → contents pending ≡ (drain n pending).0 ++ contents (drain n pending).1
unfolding drain
contents-drain zero pending = refl
contents-drain (suc n) [] = refl
contents-drain (suc n) (q ∷ pending) = ap (◌∷◌ q.notification) (contents-drain n pending)

publish_notifications-Delivers :
    (s : ServerSubscription) (now : ℕ)
    → has_publishable_notifications s ≡ true
    → Delivers s (publish_notifications s now).0 (publish_notifications s now).1
unfolding publish_notifications max_entries
publish_notifications-Delivers s now h = record {
  conserved = contents-drain (max_entries s) s.pending_notifications;
  amount = ground (arith, length-drain (max_entries s) s.pending_notifications);
  more = ground arith;
  numbered = refl;
}

publish_keep_alive-Delivers :
    (s : ServerSubscription) (now : ℕ)
    → has_publishable_notifications s ≡ false
    → Delivers s (publish_keep_alive s now).0 (publish_keep_alive s now).1
unfolding publish_keep_alive
publish_keep_alive-Delivers s now h = ground arith

prime_kept :
    (s : ServerSubscription) (now : ℕ)
    → ((prime_publish_cycle s now).pending_notifications ≡ s.pending_notifications)
      × ((prime_publish_cycle s now).next_sequence_number ≡ s.next_sequence_number)
      × ((prime_publish_cycle s now).parameters ≡ s.parameters)
unfolding prime_publish_cycle
prime_kept s now = ground arith

Delivers-kept :
    (s t s' : ServerSubscription) (r : PublishResponse)
    → t.pending_notifications ≡ s.pending_notifications
    → t.next_sequence_number ≡ s.next_sequence_number
    → t.parameters ≡ s.parameters
    → Delivers t s' r
    → Delivers s s' r
Delivers-kept s t s' r p n k v = record {
  conserved = rw (← p) v.conserved;
  amount = rw (← k, ← p) v.amount;
  more = rw (← k) v.more;
  numbered = rw (← n) v.numbered;
}

-- A publish hands over a prefix of the queued notifications, in their order, and leaves the rest: while
-- publishing is enabled as many as there are, up to 1000 and to the subscription's limit where it has
-- one, and none while it is disabled. The response says whether publishing is enabled and any is left.
-- The message has the next sequence number. A publish without a response leaves the queue and the
-- number alone.
pub try_publish-Delivery :
    (d : Doubles) (s : ServerSubscription) (now : ℕ) → Delivery s (try_publish d s now)
try_publish-Delivery d s now =
    let k = prime_kept s now in
    try_publish_cases (Delivery s) d s now (λ _. (k.0, k.1))
      (λ _ h.
        Delivers-kept s _ _ _ k.0 k.1 k.2
          (publish_keep_alive-Delivers (prime_publish_cycle s now) now h))
      (λ _ h.
        Delivers-kept s _ _ _ k.0 k.1 k.2
          (publish_notifications-Delivers (prime_publish_cycle s now) now h))

find_last :
    (q : List NotificationMessage) (m : NotificationMessage)
    → find_message m.sequence_number q ≡ none
    → find_message m.sequence_number (q ++ m ∷ []) ≡ some m
unfolding find_message
find_last [] m e = ground arith
find_last (x ∷ q) m e = ground (arith, find_last q m)

-- The newest message survives the eviction, whatever the count says.
evict_last :
    (r : ℕ) (q : List NotificationMessage) (m : NotificationMessage)
    → find_message m.sequence_number q ≡ none
    → find_message m.sequence_number (evict (q ++ m ∷ []) r).0 ≡ some m
unfolding evict find_message
evict_last r [] m e = find_last [] m e
evict_last r (x ∷ []) m e =
    ground (arith, evict_last (sub64 r (size_of x)) [] m, find_last (x ∷ []) m e)
evict_last r (x ∷ y ∷ q) m e =
    ground (arith, evict_last (sub64 r (size_of x)) (y ∷ q) m, find_last (x ∷ y ∷ q) m e)

-- What Republish answers after a publish, for the number of its message: the message, if that has a
-- notification, and what it answered before, if it has none.
abbrev pub Republishable : ServerSubscription → ServerSubscription × Option PublishResponse → Type 0
Republishable s (s', none) = (k : ℕ) → republish s' k ≡ republish s k
Republishable s (s', some r) =
    let n = r.notification_message.sequence_number in
    republish s' n ≡ (
      if is_empty r.notification_message.notification_data
      then republish s n
      else record { status = good; notification_message = r.notification_message })

republish-prime :
    (s : ServerSubscription) (now k : ℕ) → republish (prime_publish_cycle s now) k ≡ republish s k
unfolding republish prime_publish_cycle
republish-prime s now k = ground arith

publish_notifications_some :
    (s : ServerSubscription) (now : ℕ)
    → has_publishable_notifications s ≡ true
    → is_empty (publish_notifications s now).1.notification_message.notification_data ≡ false
unfolding publish_notifications max_entries
publish_notifications_some s now h =
    ground (arith, length-drain (max_entries s) s.pending_notifications)

prime-unused :
    (s : ServerSubscription) (now : ℕ)
    → find_message s.next_sequence_number s.retransmit_queue ≡ none
    → find_message
        (prime_publish_cycle s now).next_sequence_number
        (prime_publish_cycle s now).retransmit_queue
      ≡ none
unfolding prime_publish_cycle
prime-unused s now e = ground (arith, e)

publish_notifications-Republishable :
    (s : ServerSubscription) (now : ℕ)
    → find_message s.next_sequence_number s.retransmit_queue ≡ none
    → republish
        (publish_notifications s now).0
        (publish_notifications s now).1.notification_message.sequence_number
      ≡ record {
        status = good;
        notification_message = (publish_notifications s now).1.notification_message;
      }
unfolding republish publish_notifications
publish_notifications-Republishable s now e = ground (
  arith,
  evict_last
      (add64 s.retained_notifications (length (drain (max_entries s) s.pending_notifications).0))
      s.retransmit_queue (publish_notifications s now).1.notification_message e,
)

publish_keep_alive-Republishable :
    (s t : ServerSubscription) (now : ℕ)
    → ((k : ℕ) → republish t k ≡ republish s k)
    → Republishable s ((publish_keep_alive t now).0, some (publish_keep_alive t now).1)
unfolding publish_keep_alive republish
publish_keep_alive-Republishable s t now h = h t.next_sequence_number

-- While the next sequence number is not that of a message that is kept for Republish, Republish has a
-- message with notifications under its number right after the publish, and it answers as before for
-- the number of one without, and for every number after a publish without a response.
pub republish-try_publish :
    (d : Doubles) (s : ServerSubscription) (now : ℕ)
    → find_message s.next_sequence_number s.retransmit_queue ≡ none
    → Republishable s (try_publish d s now)
republish-try_publish d s now e =
    let t = prime_publish_cycle s now in
    try_publish_cases (Republishable s) d s now (λ _. republish-prime s now)
      (λ _ _. publish_keep_alive-Republishable s t now (republish-prime s now))
      (λ _ h.
        rw (publish_notifications_some t now h)
          (publish_notifications-Republishable t now (prime-unused s now e)))
