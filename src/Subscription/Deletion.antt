-- ===== src/Subscription/Deletion.antt =====
-- DeleteMonitoredItems: what is gone, what is kept, and the bindings that are released.
use opcuapp.Base.{
  ℕ, ◌≡◌, ◌≢◌, ◌⊎◌, inl, inr, refl, ◌∙◌, Bool, true, false, none, some, List, [], ◌∷◌, ◌++◌, arith,
  ◌==◌, if◌then◌else◌, Option-cases, Bool-cases, contains, ==_iff,
}
use opcuapp.Base.Assoc.{lookup, lookup-erase}
use opcuapp.Types.Status.{of_code, bad_subscription_id_invalid}
use opcuapp.Message.{DeleteMonitoredItemsRequest}
use opcuapp.Subscription.State.{ServerSubscription, Item, Task, remove_item, bind_item}
use opcuapp.Subscription.Items.{
  delete_monitored_item, delete_monitored_items_loop, delete_monitored_items,
}
use opcuapp.Subscription.QueueLimit.{of_item, of_item-drop_notifications}

-- Whether the release of a backing item was started.
pub is_released : ℕ → List Task → Bool
is_released b [] = false
is_released b (remove_item c ∷ tasks) = if c == b then true else is_released b tasks
is_released b (bind_item id handle request ∷ tasks) = is_released b tasks

pub is_released-append :
    (b : ℕ) (p q : List Task) → is_released b p ≡ true → is_released b (p ++ q) ≡ true
unfolding is_released
is_released-append b [] q h = cc
is_released-append b (remove_item c ∷ p) q h = ground (arith, is_released-append b p q)
is_released-append b (bind_item id handle request ∷ p) q h = is_released-append b p q h

pub is_released-snoc : (b : ℕ) (p : List Task) → is_released b (p ++ remove_item b ∷ []) ≡ true
unfolding is_released
is_released-snoc b [] = ground arith
is_released-snoc b (remove_item c ∷ p) = ground (arith, is_released-snoc b p)
is_released-snoc b (bind_item id handle request ∷ p) = is_released-snoc b p

-- From the subscription before the deletion of some ids to the one after it, for one item.
pub record Deletes (s : ServerSubscription) (gone : Bool) (s' : ServerSubscription) (j : ℕ)
    : Type 0 where
  pub items : lookup j s'.items ≡ (if gone then none else lookup j s.items)
  pub released :
      (item : Item)
      → lookup j s.items ≡ some item
      → gone ≡ true
      → item.backing_item_id ≢ 0
      → s.backing_subscription_state ≢ none
      → is_released item.backing_item_id s'.spawned ≡ true
  pub kept_releases : (b : ℕ) → is_released b s.spawned ≡ true → is_released b s'.spawned ≡ true
  pub same_backing : s'.backing_subscription_state ≡ s.backing_subscription_state
  pub same_pending : s'.pending_notifications ≡ s.pending_notifications

delete_one_items :
    (s : ServerSubscription) (id j : ℕ)
    → lookup j (delete_monitored_item s id).0.items ≡ (if id == j then none else lookup j s.items)
unfolding delete_monitored_item
delete_one_items s id j = elim (Option-cases (lookup id s.items)) [
  | inl e ↦ rw (e, delete_monitored_item) (ground (arith, e))
  | inr (item, e) ↦ rw (e, delete_monitored_item) (ground (arith, lookup-erase id j s.items))
]

delete_one_spawned :
    (s : ServerSubscription) (id : ℕ) (item : Item)
    → lookup id s.items ≡ some item
    → item.backing_item_id ≢ 0
    → s.backing_subscription_state ≢ none
    → is_released item.backing_item_id (delete_monitored_item s id).0.spawned ≡ true
unfolding delete_monitored_item
delete_one_spawned s id item e h k = ground (arith, is_released-snoc item.backing_item_id s.spawned)

delete_one_keeps :
    (s : ServerSubscription) (id b : ℕ)
    → is_released b s.spawned ≡ true
    → is_released b (delete_monitored_item s id).0.spawned ≡ true
unfolding delete_monitored_item
delete_one_keeps s id b h = elim (Option-cases (lookup id s.items)) [
  | inl e ↦ rw (e, delete_monitored_item) h
  | inr (item, e) ↦
      rw (e, delete_monitored_item)
        (ground (arith, is_released-append b s.spawned (remove_item item.backing_item_id ∷ [])))
]

delete_one_same :
    (s : ServerSubscription) (id : ℕ)
    → ((delete_monitored_item s id).0.backing_subscription_state ≡ s.backing_subscription_state)
      × ((delete_monitored_item s id).0.pending_notifications ≡ s.pending_notifications)
unfolding delete_monitored_item
delete_one_same s id = ground arith

loop_Deletes :
    (ids : List ℕ) (s : ServerSubscription) (j : ℕ)
    → Deletes s (contains j ids) (delete_monitored_items_loop s ids).0 j
unfolding delete_monitored_items_loop contains
loop_Deletes [] s j = record {
  items = refl;
  released = λ item e g. cc;
  kept_releases = λ b h. h;
  same_backing = refl;
  same_pending = refl;
}
loop_Deletes (id ∷ ids) s j =
    let t = (delete_monitored_item s id).0 in
    let rest = loop_Deletes ids t j in
    let same = delete_one_same s id in
    record {
      items = rest.items ∙ ground (arith, delete_one_items s id j);
      released = λ item e g h k. elim (Bool-cases (id == j)) [
        | inl hit ↦
            rest.kept_releases item.backing_item_id
              (delete_one_spawned s id item (rw ((==_iff id j).0 hit) e) h k)
        | inr miss ↦
            rest.released item (delete_one_items s id j ∙ rw miss e) (rw miss at g) h (rw same.0 k)
      ];
      kept_releases = λ b h. rest.kept_releases b (delete_one_keeps s id b h);
      same_backing = rest.same_backing ∙ same.0;
      same_pending = rest.same_pending ∙ same.1;
    }

-- DeleteMonitoredItems of another subscription's id is refused and changes nothing. Otherwise a listed
-- item is gone with its queued notifications, and an item that is not listed keeps its state and its
-- notifications.
pub delete_monitored_items_lem :
    (s : ServerSubscription) (request : DeleteMonitoredItemsRequest) (j : ℕ)
    → let after = delete_monitored_items s request in
      ((request.subscription_id ≢ s.subscription_id)
        × (after.0 ≡ s)
        × (after.1.service_result ≡ of_code bad_subscription_id_invalid))
      ⊎ ((request.subscription_id ≡ s.subscription_id)
          × (lookup j after.0.items
              ≡ (if contains j request.monitored_item_ids then none else lookup j s.items))
          × (of_item j after.0.pending_notifications ≡ (
              if contains j request.monitored_item_ids
              then []
              else of_item j s.pending_notifications)))
unfolding delete_monitored_items
delete_monitored_items_lem s request j =
    let d = loop_Deletes request.monitored_item_ids s j in
    elim (Bool-cases (request.subscription_id == s.subscription_id)) [
      | inl e ↦ inr (
        (==_iff _ _).0 e,
        rw e d.items,
        rw e (rw (of_item-drop_notifications request.monitored_item_ids j, d.same_pending)),
      )
      | inr e ↦ inl (ground arith, rw e, rw e)
    ]

-- Of a listed item that was bound on the subscription's backing subscription, the release of that binding was
-- started.
pub delete_monitored_items-is_released :
    (s : ServerSubscription) (request : DeleteMonitoredItemsRequest) (j : ℕ) (item : Item)
    → request.subscription_id ≡ s.subscription_id
    → contains j request.monitored_item_ids ≡ true
    → lookup j s.items ≡ some item
    → item.backing_item_id ≢ 0
    → s.backing_subscription_state ≢ none
    → is_released item.backing_item_id (delete_monitored_items s request).0.spawned ≡ true
unfolding delete_monitored_items
delete_monitored_items-is_released s request j item same listed found bound backed =
    rw ((==_iff request.subscription_id s.subscription_id).1 same)
      ((loop_Deletes request.monitored_item_ids s j).released item found listed bound backed)
