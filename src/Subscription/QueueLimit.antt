-- ===== src/Subscription/QueueLimit.antt =====
-- The one queue of a subscription, seen item by item: each item has a queue of its own, bounded by its
-- queue size, and no item touches another's.
use mathlib.Core.List.{append-nil}
use opcuapp.Base.{
  ℕ, zero, suc, ◌+◌, ◌≤◌, ◌<◌, ◌≡◌, ◌⊎◌, refl, ap, Bool, List, [], ◌∷◌, ◌++◌, arith, length,
  length-append, max, leb, ltb, ◌==◌, if◌then◌else◌, Bool-cases, inl, inr, contains,
}
use opcuapp.Message.{NotificationData}
use opcuapp.Subscription.State.{ServerSubscription, Item, QueuedNotification}
use opcuapp.Subscription.Items.{drop_notifications}
use opcuapp.Subscription.Notifications.{
  indices_of, erase_at, front, back, enforce_queue_limit, queue_notification,
}

-- The notifications of one item, in order.
pub of_item : ℕ → List QueuedNotification → List NotificationData
of_item id [] = []
of_item id (q ∷ pending) =
    if q.source_item_id == id then q.notification ∷ of_item id pending else of_item id pending

-- A queue that holds `limit` entries: a full one loses its oldest entry, or does not take the new one.
abbrev pub tail_of : List NotificationData → List NotificationData
tail_of [] = []
tail_of (x ∷ xs) = xs

pub bounded_push : ℕ → Bool → List NotificationData → NotificationData → List NotificationData
bounded_push limit discard_oldest queue n =
    if ltb (length queue) limit
    then queue ++ n ∷ []
    else if discard_oldest
    then tail_of (queue ++ n ∷ [])
    else queue

of_item-append :
    (id : ℕ) (p q : List QueuedNotification) → of_item id (p ++ q) ≡ of_item id p ++ of_item id q
unfolding of_item
of_item-append id [] q = refl
of_item-append id (x ∷ p) q = ground (arith, of_item-append id p q)

length-indices_of :
    (id i : ℕ) (p : List QueuedNotification) → length (indices_of id i p) ≡ length (of_item id p)
unfolding indices_of of_item
length-indices_of id i [] = refl
length-indices_of id i (x ∷ p) = ground (arith, length-indices_of id (suc i) p)

front_ge :
    (id i : ℕ) (p : List QueuedNotification)
    → 0 < length (indices_of id i p)
    → i ≤ front (indices_of id i p)
unfolding indices_of
front_ge id i [] h = omega arith
front_ge id i (x ∷ p) h = ground (arith, front_ge id (suc i) p)

back_cons :
    (x : ℕ) (l : List ℕ)
    → ((l ≡ []) × (back (x ∷ l) ≡ x)) ⊎ ((0 < length l) × (back (x ∷ l) ≡ back l))
back_cons x [] = inl (refl, refl)
back_cons x (y ∷ l) = inr (omega arith, refl)

back_ge :
    (id i : ℕ) (p : List QueuedNotification)
    → 0 < length (indices_of id i p)
    → i ≤ back (indices_of id i p)
unfolding indices_of
back_ge id i [] h = omega arith
back_ge id i (x ∷ p) h = ground (arith, back_ge id (suc i) p, back_cons i (indices_of id (suc i) p))

erase_front :
    (id j i k : ℕ) (p : List QueuedNotification)
    → 0 < length (indices_of id i p)
    → front (indices_of id i p) ≡ i + k
    → of_item j (erase_at k p) ≡ (if id == j then tail_of (of_item j p) else of_item j p)
unfolding indices_of of_item erase_at
erase_front id j i k [] h e = absurd (omega arith)
erase_front id j i zero (x ∷ p) h e = ground (arith, front_ge id (suc i) p)
erase_front id j i (suc k) (x ∷ p) h e =
    ground (arith, erase_front id j (suc i) k p, front_ge id (suc i) p)

-- All but the last entry.
init_of : List NotificationData → List NotificationData
init_of [] = []
init_of (x ∷ []) = []
init_of (x ∷ y ∷ xs) = x ∷ init_of (y ∷ xs)

init_of_cons :
    (x : NotificationData) (l : List NotificationData)
    → 0 < length l
    → init_of (x ∷ l) ≡ x ∷ init_of l
unfolding init_of
init_of_cons x [] h = absurd (omega arith)
init_of_cons x (y ∷ l) h = refl

init_of-snoc : (l : List NotificationData) (n : NotificationData) → init_of (l ++ n ∷ []) ≡ l
unfolding init_of
init_of-snoc [] n = refl
init_of-snoc (x ∷ []) n = refl
init_of-snoc (x ∷ y ∷ l) n = ap (◌∷◌ x) (init_of-snoc (y ∷ l) n)

empty_of_length : (l : List NotificationData) → length l ≡ 0 → l ≡ []
empty_of_length [] e = refl
empty_of_length (x ∷ l) e = absurd (omega arith)

erase_back :
    (id j i k : ℕ) (p : List QueuedNotification)
    → 0 < length (indices_of id i p)
    → back (indices_of id i p) ≡ i + k
    → of_item j (erase_at k p) ≡ (if id == j then init_of (of_item j p) else of_item j p)
unfolding indices_of of_item erase_at
erase_back id j i k [] h e = absurd (omega arith)
erase_back id j i zero (x ∷ p) h e = ground (
  arith,
  back_ge id (suc i) p,
  back_cons i (indices_of id (suc i) p),
  length-indices_of id (suc i) p,
  empty_of_length (of_item id p),
  init_of-snoc [] x.notification,
)
erase_back id j i (suc k) (x ∷ p) h e = ground (
  arith,
  erase_back id j (suc i) k p,
  back_ge id (suc i) p,
  back_cons i (indices_of id (suc i) p),
  length-indices_of id (suc i) p,
  init_of_cons x.notification (of_item id p),
)

of_item-single :
    (j id : ℕ) (n : NotificationData)
    → of_item j (record { source_item_id = id; notification = n } ∷ [])
      ≡ (if id == j then n ∷ [] else [])
unfolding of_item
of_item-single j id n = refl

enforce_queue_limit-of_item :
    (item : Item) (p : List QueuedNotification) (j : ℕ)
    → of_item j (enforce_queue_limit item p) ≡ (
        if item.monitored_item_id == j
        then (if leb (length (of_item j p)) (max 1 item.parameters.queue_size)
            then of_item j p
            else if item.parameters.discard_oldest
            then tail_of (of_item j p)
            else init_of (of_item j p))
        else of_item j p)
unfolding enforce_queue_limit
enforce_queue_limit-of_item item p j =
    let id = item.monitored_item_id in
    ground (
      arith,
      length-indices_of id 0 p,
      erase_front id j 0 (front (indices_of id 0 p)) p,
      erase_back id j 0 (back (indices_of id 0 p)) p,
    )

-- Queuing a notification for an item pushes it on that item's bounded queue, whose limit is the
-- item's queue size or one, and leaves every other item's queue as it was.
pub queue_notification-bounded_push :
    (s : ServerSubscription) (item : Item) (n : NotificationData) (j : ℕ)
    → of_item j (queue_notification s item n).pending_notifications ≡ (
        if item.monitored_item_id == j
        then bounded_push
            (max 1 item.parameters.queue_size)
            item.parameters.discard_oldest
            (of_item j s.pending_notifications)
            n
        else of_item j s.pending_notifications)
unfolding queue_notification enforce_queue_limit
queue_notification-bounded_push s item n j =
    rw
      (
        enforce_queue_limit-of_item item (s.pending_notifications ++ queued ∷ []) j,
        of_item-append j s.pending_notifications (queued ∷ []),
        single,
      )
      (elim (Bool-cases (item.monitored_item_id == j)) [
        | inl e ↦
            rw e (
              unfold bounded_push in ground (arith, length-append old (n ∷ []), init_of-snoc old n))
        | inr e ↦ rw e (append-nil old)
      ])
  where
    old : List NotificationData
    old = of_item j s.pending_notifications

    queued : QueuedNotification
    queued = record { source_item_id = item.monitored_item_id; notification = n }

    single : of_item j (queued ∷ []) ≡ (if item.monitored_item_id == j then n ∷ [] else [])
    single = of_item-single j item.monitored_item_id n

-- A queue within a positive limit stays within it.
pub length-bounded_push :
    (limit : ℕ) (discard_oldest : Bool) (queue : List NotificationData) (n : NotificationData)
    → 0 < limit
    → length queue ≤ limit
    → length (bounded_push limit discard_oldest queue n) ≤ limit
unfolding bounded_push
length-bounded_push limit discard_oldest [] n h k = ground arith
length-bounded_push limit discard_oldest (x ∷ queue) n h k =
    ground (arith, length-append queue (n ∷ []))

-- Deleting drops the notifications of the deleted items and no others.
pub of_item-drop_notifications :
    (ids : List ℕ) (j : ℕ) (p : List QueuedNotification)
    → of_item j (drop_notifications ids p) ≡ (if contains j ids then [] else of_item j p)
unfolding of_item drop_notifications
of_item-drop_notifications ids j [] = ground arith
of_item-drop_notifications ids j (x ∷ p) = ground (arith, of_item-drop_notifications ids j p)
