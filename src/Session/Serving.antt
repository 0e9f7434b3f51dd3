-- ===== src/Session/Serving.antt =====
-- PollPublish serves the session's subscriptions: one that is ready is always found, those with
-- notifications come first, and its response is what TryPublish made.
use opcuapp.Base.{
  ◌%◌, List, [], ◌∷◌, is_empty, ℕ, ◌+◌, ◌<◌, ◌≡◌, ◌⊎◌, inl, inr, refl, Bool, true, false, Option,
  none, some, arith, length, get_elem?, Option-cases,
}
use native.Mathlib.Nat.{mod-lt}
use opcuapp.Types.Variant.{Doubles}
use opcuapp.Message.{PublishResponse}
use opcuapp.Subscription.State.{ServerSubscription, is_publish_ready}
use opcuapp.Subscription.Publishing.{try_publish}
use opcuapp.Subscription.Cycle.{try_publish-is_publish_ready, is_publish_ready-prime}
use opcuapp.Session.State.{ServerSession, find_subscription, set_subscription}
use opcuapp.Session.Publish.{
  is_ready_at, find_next_ready_subscription, publish_index, poll_ready, poll_wait, poll_publish,
  advance_publish_cursor_after, PublishPollResult,
}
use opcuapp.Session.Cursor.{IsPointed}
use opcuapp.Session.RoundRobin.{find_next_ready_subscription-IsFirst, IsFirst, round_trip}

get_elem?-some : (xs : List ℕ) (i x : ℕ) → get_elem? xs i ≡ some x → is_empty xs ≡ false
get_elem?-some [] i x h = cc
get_elem?-some (y ∷ xs) i x h = refl

module _ {R : Type 0} (d : Doubles) (s : ServerSession R) (now : ℕ) where
  abbrev pub Searched : Bool → Option ℕ → Type 0
  Searched require_pending none =
      (index : ℕ)
      → index < length s.publish_order
      → is_ready_at d s now require_pending index ≡ false
  Searched require_pending (some i) =
      (i < length s.publish_order) × (is_ready_at d s now require_pending i ≡ true)

  searched :
      (require_pending : Bool) (r : Option ℕ)
      → s.next_publish_index < length s.publish_order
      → IsFirst d s now require_pending 0 (length s.publish_order) r
      → Searched require_pending r
  searched p none h f = λ index k.
      let (o, lt, e) = round_trip s.next_publish_index index (length s.publish_order) h k in
      rw (← e) (f o (omega arith) lt)
  searched p (some i) h (o, lo, hi, e, ready, before) =
      rw e (mod-lt (s.next_publish_index + o) (omega arith), ready)

  find_next_ready_subscription-Searched :
      (require_pending : Bool)
      → s.next_publish_index < length s.publish_order
      → Searched require_pending (find_next_ready_subscription d s now require_pending)
  find_next_ready_subscription-Searched p h =
      searched p _ h (find_next_ready_subscription-IsFirst d s now p)

  -- What the two searches choose.
  abbrev pub Chosen : Option ℕ → Type 0
  Chosen none =
      (index : ℕ) → index < length s.publish_order → is_ready_at d s now false index ≡ false
  Chosen (some i) =
      (i < length s.publish_order)
      × (is_ready_at d s now false i ≡ true)
      × ((is_ready_at d s now true i ≡ true)
          ⊎ ((index : ℕ) → index < length s.publish_order → is_ready_at d s now true index ≡ false))

  is_ready_at_weaken :
      (i : ℕ) → is_ready_at d s now true i ≡ true → is_ready_at d s now false i ≡ true
  unfolding is_ready_at
  is_ready_at_weaken i h = ground arith

  chosen :
      (p q : Option ℕ)
      → Searched true p
      → Searched false q
      → Chosen (elim p [ none ↦ q | some i ↦ some i ])
  chosen none none f g = g
  chosen none (some j) f (g, k) = (g, k, inr f)
  chosen (some i) q (f, k) g = (f, is_ready_at_weaken i k, inl k)

  -- While the cursor points into the publish order, PollPublish chooses a ready subscription whenever
  -- there is one, and one that has notifications whenever such a one is ready.
  pub publish_index-Chosen :
      s.next_publish_index < length s.publish_order → Chosen (publish_index d s now)
  unfolding publish_index
  publish_index-Chosen h =
      chosen _ _ (find_next_ready_subscription-Searched true h)
        (find_next_ready_subscription-Searched false h)

  -- A publish of the subscription at one position of the order, with the response that TryPublish made.
  abbrev pub Served : ServerSession R × PublishPollResult → Type 0
  Served (s', result) =
      (index : ℕ) × (id : ℕ) × (t : ServerSubscription) × (r : PublishResponse) × (get_elem?
          s.publish_order index
        ≡ some id)
      × (find_subscription s id ≡ some t)
      × ((try_publish d t now).1 ≡ some r)
      × (s' ≡ record (set_subscription s id (try_publish d t now).0) {
        next_publish_index = (index + 1) % length s.publish_order;
      })
      × (result ≡ record { response = some r; wait_for = none })

  ready_subscription :
      (p : Bool) (index : ℕ)
      → is_ready_at d s now p index ≡ true
      → (id : ℕ) × (t : ServerSubscription) × (get_elem? s.publish_order index ≡ some id)
        × (find_subscription s id ≡ some t)
        × (is_publish_ready d t now ≡ true)
  unfolding is_ready_at
  ready_subscription p index h = elim (Option-cases (get_elem? s.publish_order index)) [
    | inl e ↦ ground arith
    | inr (id, e) ↦ elim (Option-cases (find_subscription s id)) [
      | inl f ↦ ground arith
      | inr (t, f) ↦ (id, t, e, f, ground arith)
    ]
  ]

  poll_ready_answer :
      (index id : ℕ) (t : ServerSubscription) (r : PublishResponse)
      → get_elem? s.publish_order index ≡ some id
      → find_subscription s id ≡ some t
      → (try_publish d t now).1 ≡ some r
      → poll_ready d s now index ≡ (
        record (set_subscription s id (try_publish d t now).0) {
          next_publish_index = (index + 1) % length s.publish_order;
        },
        record { response = some r; wait_for = none },
      )
  unfolding poll_ready advance_publish_cursor_after
  poll_ready_answer index id t r e f g =
      ground (arith, e, f, g, get_elem?-some s.publish_order index id e)

  poll_ready-Served :
      (index : ℕ) → is_ready_at d s now false index ≡ true → Served (poll_ready d s now index)
  poll_ready-Served index h =
      let (id, t, e, f, ready) = ready_subscription false index h in
      elim (Option-cases (try_publish d t now).1) [
        | inl g ↦
            absurd
              ((try_publish-is_publish_ready d t now).1 (is_publish_ready-prime d t now ready) g)
        | inr (r, g) ↦
            rw (poll_ready_answer index id t r e f g) (index, id, t, r, e, f, g, refl, refl)
      ]

  served :
      (o : Option ℕ) (index : ℕ)
      → Chosen o
      → index < length s.publish_order
      → is_ready_at d s now false index ≡ true
      → Served (elim o [ none ↦ poll_wait d s now | some i ↦ poll_ready d s now i ])
  served none index c k e = absurd (ground (arith, c index k))
  served (some i) index (k, e', p) _ _ = poll_ready-Served i e'

  points :
      (index : ℕ)
      → IsPointed s
      → index < length s.publish_order
      → s.next_publish_index < length s.publish_order
  points index (inl e) k = omega arith
  points index (inr h) k = h

  -- While the cursor points into the publish order or is zero, PollPublish with a ready subscription
  -- anywhere in the order answers at once with the response that TryPublish made for one subscription
  -- of the session; of the session it changes that subscription, and the cursor, to the position after
  -- it in the order.
  pub poll_publish-Served :
      (index : ℕ)
      → IsPointed s
      → index < length s.publish_order
      → is_ready_at d s now false index ≡ true
      → Served (poll_publish d s now)
  unfolding poll_publish
  poll_publish-Served index w k e = served _ index (publish_index-Chosen (points index w k)) k e
