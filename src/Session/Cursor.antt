-- ===== src/Session/Cursor.antt =====
-- The cursor of a session points into the publish order, whatever operations the session runs.
use opcuapp.Base.{
  ℕ, ◌+◌, ◌<◌, ◌≡◌, ◌⊎◌, inl, inr, refl, Bool, Option, none, List, [], ◌∷◌, arith, length,
  length-append, is_empty, Bool-cases, Option-cases, get_elem?,
}
use native.Mathlib.Nat.{mod-lt}
use opcuapp.Types.Variant.{Doubles}
use opcuapp.Message.{ModifySubscriptionRequest, SubscriptionParameters, SubscriptionAcknowledgement}
use opcuapp.Subscription.State.{prime_publish_cycle, next_publish_deadline, set_publishing_enabled}
use opcuapp.Session.State.{
  ServerSession, find_subscription, set_subscription, index_of, remove_at, cursor_after_erase,
  erase_subscription, create_subscription, create_subscription_with_id, delete_subscriptions,
  modify_subscription, set_publishing_mode,
}
use opcuapp.Session.Publish.{
  acknowledge_groups, acknowledge_publish_request, advance_publish_cursor_after, wait_loop,
  poll_wait, poll_ready, publish_index, poll_publish, publish, Group, numbers_of, place_results,
  group_acknowledgements,
}
use opcuapp.Subscription.Publishing.{try_publish, acknowledge_all}

-- The cursor is a position of the order, or zero.
abbrev pub IsPointed : {R : Type 0} → ServerSession R → Type 0
IsPointed s = (s.next_publish_index ≡ 0) ⊎ (s.next_publish_index < length s.publish_order)

cursor_after_erase_lem :
    (index size cursor : ℕ)
    → (cursor_after_erase index size cursor ≡ 0) ⊎ (cursor_after_erase index size cursor < size)
unfolding cursor_after_erase
cursor_after_erase_lem index size cursor = ground arith

module _ {R : Type 0} where
  erase_subscription-IsPointed :
      (s : ServerSession R) (id : ℕ) → IsPointed s → IsPointed (erase_subscription s id)
  unfolding erase_subscription
  erase_subscription-IsPointed s id w = elim (Option-cases (index_of id s.publish_order)) [
    | inl e ↦ rw (e, erase_subscription) w
    | inr (index, e) ↦
        rw (e, erase_subscription)
          (cursor_after_erase_lem index (length (remove_at index s.publish_order))
            s.next_publish_index)
  ]

  pub create_subscription-IsPointed :
      (s : ServerSession R) (parameters : SubscriptionParameters) (now : ℕ)
      → IsPointed s
      → IsPointed (create_subscription s parameters now).0
  unfolding create_subscription create_subscription_with_id
  create_subscription-IsPointed s parameters now (inl e) = inl e
  create_subscription-IsPointed s parameters now (inr h) =
      inr (omega (arith, h, length-append s.publish_order (s.next_subscription_id ∷ [])))

  pub delete_subscriptions-IsPointed :
      (s : ServerSession R) (ids : List ℕ) → IsPointed s → IsPointed (delete_subscriptions s ids).0
  unfolding delete_subscriptions
  delete_subscriptions-IsPointed s [] w = w
  delete_subscriptions-IsPointed s (id ∷ ids) w = elim (Option-cases (find_subscription s id)) [
    | inl e ↦ rw e (delete_subscriptions-IsPointed s ids w)
    | inr (t, e) ↦ rw e (
        delete_subscriptions-IsPointed (erase_subscription s id) ids
          (erase_subscription-IsPointed s id w))
  ]

  pub modify_subscription-IsPointed :
      (s : ServerSession R) (request : ModifySubscriptionRequest)
      → IsPointed s
      → IsPointed (modify_subscription s request).0
  unfolding modify_subscription
  modify_subscription-IsPointed s request w =
      elim (Option-cases (find_subscription s request.subscription_id)) [
        | inl e ↦ rw (e, modify_subscription) w
        | inr (t, e) ↦ rw (e, modify_subscription) w
      ]

  pub set_publishing_mode-IsPointed :
      (s : ServerSession R) (publishing_enabled : Bool) (ids : List ℕ)
      → IsPointed s
      → IsPointed (set_publishing_mode s publishing_enabled ids).0
  unfolding set_publishing_mode
  set_publishing_mode-IsPointed s publishing_enabled [] w = w
  set_publishing_mode-IsPointed s publishing_enabled (id ∷ ids) w =
      elim (Option-cases (find_subscription s id)) [
        | inl e ↦ rw e (set_publishing_mode-IsPointed s publishing_enabled ids w)
        | inr (t, e) ↦ rw e (
            set_publishing_mode-IsPointed
              (set_subscription s id (set_publishing_enabled t publishing_enabled))
              publishing_enabled ids w)
      ]

  -- The same publish order with the same cursor.
  abbrev pub SameOrder : ServerSession R → ServerSession R → Type 0
  SameOrder s s' =
      (s'.publish_order ≡ s.publish_order) × (s'.next_publish_index ≡ s.next_publish_index)

  SameOrder-IsPointed : (s s' : ServerSession R) → SameOrder s s' → IsPointed s → IsPointed s'
  SameOrder-IsPointed s s' (o, i) w = rw (o, i) w

  acknowledge_groups-SameOrder :
      (s : ServerSession R) (groups : List (ℕ × Group)) (results : List ℕ)
      → SameOrder s (acknowledge_groups s groups results).0
  unfolding acknowledge_groups
  acknowledge_groups-SameOrder s [] results = (refl, refl)
  acknowledge_groups-SameOrder s ((id, group) ∷ groups) results =
      elim (Option-cases (find_subscription s id)) [
        | inl e ↦ ground (arith, e, acknowledge_groups-SameOrder s groups results)
        | inr (t, e) ↦
            let (t', answers) = acknowledge_all t (numbers_of group) in
            ground (
              arith,
              e,
              acknowledge_groups-SameOrder (set_subscription s id t') groups
                  (place_results group answers results),
            )
      ]

  module _ (d : Doubles) where
    wait_loop-SameOrder :
        (s : ServerSession R) (now : ℕ) (order : List ℕ) (deadline recheck : Option ℕ)
        → SameOrder s (wait_loop d s now order deadline recheck).0
    unfolding wait_loop
    wait_loop-SameOrder s now [] deadline recheck = (refl, refl)
    wait_loop-SameOrder s now (id ∷ order) deadline recheck =
        elim (Option-cases (find_subscription s id)) [
          | inl e ↦ rw (e, wait_loop) (wait_loop-SameOrder s now order deadline recheck)
          | inr (t, e) ↦ elim (Option-cases (next_publish_deadline d (prime_publish_cycle t now))) [
            | inl f ↦
                rw (e, f, wait_loop)
                  (wait_loop-SameOrder (set_subscription s id (prime_publish_cycle t now)) now order
                    deadline recheck)
            | inr (x, f) ↦
                rw (e, f, wait_loop)
                  (wait_loop-SameOrder (set_subscription s id (prime_publish_cycle t now)) now order
                    _ _)
          ]
        ]

    advanced-IsPointed :
        (s : ServerSession R) (index : ℕ) → IsPointed (advance_publish_cursor_after s index)
    unfolding advance_publish_cursor_after
    advanced-IsPointed s index = elim (Bool-cases (is_empty s.publish_order)) [
      | inl e ↦ rw e (inl refl)
      | inr e ↦ rw e (inr (mod-lt (index + 1) (ground (arith, e))))
    ]

    poll_ready-IsPointed :
        (s : ServerSession R) (now index : ℕ) → IsPointed s → IsPointed (poll_ready d s now index).0
    unfolding poll_ready
    poll_ready-IsPointed s now index w = elim (Option-cases (get_elem? s.publish_order index)) [
      | inl e ↦ rw (e, poll_ready) w
      | inr (id, e) ↦ elim (Option-cases (find_subscription s id)) [
        | inl f ↦ rw (e, f, poll_ready) w
        | inr (t, f) ↦ elim (Option-cases (try_publish d t now).1) [
          | inl g ↦ rw (e, f, g, poll_ready) w
          | inr (r, g) ↦
              rw (e, f, g, poll_ready)
                (advanced-IsPointed (set_subscription s id (try_publish d t now).0) index)
        ]
      ]
    ]

    poll_wait-IsPointed :
        (s : ServerSession R) (now : ℕ) → IsPointed s → IsPointed (poll_wait d s now).0
    unfolding poll_wait
    poll_wait-IsPointed s now w =
        let s' = (wait_loop d s now s.publish_order none none).0 in
        let after : IsPointed s' =
          SameOrder-IsPointed s s' (wait_loop-SameOrder s now s.publish_order none none) w in
        elim (Bool-cases (is_empty s.subscriptions)) [
          | inl e ↦ rw (e, poll_wait) w
          | inr e ↦ elim (Option-cases (wait_loop d s now s.publish_order none none).1) [
            | inl f ↦ rw (e, f, poll_wait) after
            | inr (x, f) ↦ elim (Option-cases (wait_loop d s now s.publish_order none none).2) [
              | inl g ↦ rw (e, f, g, poll_wait) after
              | inr (y, g) ↦ rw (e, f, g, poll_wait) after
            ]
          ]
        ]

    poll_publish-IsPointed :
        (s : ServerSession R) (now : ℕ) → IsPointed s → IsPointed (poll_publish d s now).0
    unfolding poll_publish
    poll_publish-IsPointed s now w = elim (Option-cases (publish_index d s now)) [
      | inl e ↦ rw (e, poll_publish) (poll_wait-IsPointed s now w)
      | inr (i, e) ↦ rw (e, poll_publish) (poll_ready-IsPointed s now i w)
    ]

    pub publish-IsPointed :
        (s : ServerSession R) (acks : List SubscriptionAcknowledgement) (now : ℕ)
        → IsPointed s
        → IsPointed (publish d s acks now).0
    unfolding publish acknowledge_publish_request
    publish-IsPointed s acks now w =
        let (results, groups) = group_acknowledgements s 0 acks [] in
        let s' = (acknowledge_groups s groups results).0 in
        let kept : IsPointed s' =
          SameOrder-IsPointed s s' (acknowledge_groups-SameOrder s groups results) w in
        elim (Option-cases (poll_publish d s' now).1.response) [
          | inl e ↦
              rw (e, publish, acknowledge_publish_request) (poll_publish-IsPointed s' now kept)
          | inr (r, e) ↦
              rw (e, publish, acknowledge_publish_request) (poll_publish-IsPointed s' now kept)
        ]
