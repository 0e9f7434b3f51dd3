-- ===== src/Session/Publish.antt =====
-- The publishing side of a ServerSession: acknowledgements, the search for a subscription that is
-- ready, and PollPublish and Publish.
use opcuapp.Base.{
  ℕ, zero, suc, ◌+◌, ◌%◌, Bool, true, false, not, ◌&&◌, Option, none, some, List, [], ◌∷◌, ◌++◌,
  length, ltb, ◌==◌, if◌then◌else◌, get_elem?, is_empty,
}
use opcuapp.Types.Status.{good, bad, of_code, bad_no_subscription, bad_subscription_id_invalid}
use opcuapp.Types.Variant.{Doubles}
use opcuapp.Types.Duration.{of_nat, elapsed, min_duration, max_duration}
use opcuapp.Message.{SubscriptionAcknowledgement, PublishResponse}
use opcuapp.Subscription.State.{
  prime_publish_cycle, next_publish_deadline, publishing_interval, is_publish_ready,
  has_pending_notifications,
}
use opcuapp.Subscription.Publishing.{try_publish, acknowledge_all, no_message}
use opcuapp.Session.State.{ServerSession, find_subscription, has_subscription, set_subscription}

-- A response of which only the status is set.
abbrev pub status_response : ℕ → PublishResponse
status_response status = record {
  status = status;
  subscription_id = 0;
  results = [];
  more_notifications = false;
  notification_message = no_message;
  available_sequence_numbers = [];
}

pub record PublishPollResult : Type 0 where
  pub response : Option PublishResponse
  pub wait_for : Option ℕ

-- The acknowledgements of one subscription, each with its place in the request.
abbrev pub Group : Type 0
Group = List (ℕ × ℕ)

unfoldable pub add_to_group : ℕ → ℕ × ℕ → List (ℕ × Group) → List (ℕ × Group)
add_to_group id entry [] = (id, entry ∷ []) ∷ []
add_to_group id entry ((j, group) ∷ groups) =
    if j == id then (j, group ++ entry ∷ []) ∷ groups else (j, group) ∷ add_to_group id entry groups

unfoldable pub set_at : ℕ → ℕ → List ℕ → List ℕ
set_at i v [] = []
set_at zero v (x ∷ xs) = v ∷ xs
set_at (suc i) v (x ∷ xs) = x ∷ set_at i v xs

-- The results of a group, written to their places.
unfoldable pub place_results : Group → List ℕ → List ℕ → List ℕ
unfolding set_at
place_results [] results ack_results = ack_results
place_results (entry ∷ group) [] ack_results = ack_results
place_results ((i, n) ∷ group) (r ∷ results) ack_results =
    place_results group results (set_at i r ack_results)

abbrev pub numbers_of : Group → List ℕ
numbers_of [] = []
numbers_of ((i, n) ∷ group) = n ∷ numbers_of group

-- The offsets from `offset` on, of which `left` are left.
abbrev pub at_offset : ℕ → ℕ → ℕ → ℕ
at_offset next_publish_index offset size = (next_publish_index + offset) % size

-- The least of two optional values, the first where they are equal.
abbrev earliest : Option ℕ → ℕ → Option ℕ
earliest none x = some x
earliest (some y) x = if ltb x y then some x else some y

-- The same of two durations.
abbrev shortest : Doubles → Option ℕ → ℕ → Option ℕ
shortest d none x = some x
shortest d (some y) x = if d.lt x y then some x else some y

module _ {R : Type 0} where
  -- The first loop: the results known at once, and the groups.
  unfoldable pub group_acknowledgements :
      ServerSession R
      → ℕ
      → List SubscriptionAcknowledgement
      → List (ℕ × Group)
      → List ℕ × List (ℕ × Group)
  unfolding add_to_group
  group_acknowledgements s i [] groups = ([], groups)
  group_acknowledgements s i (a ∷ acks) groups =
      let (results, groups') = group_acknowledgements s (suc i) acks (
        if has_subscription s a.subscription_id
        then add_to_group a.subscription_id (i, a.sequence_number) groups
        else groups) in
      (
        (if has_subscription s a.subscription_id then good else bad_subscription_id_invalid)
            ∷ results,
        groups',
      )

  -- The second loop, over the groups.
  unfoldable pub acknowledge_groups :
      ServerSession R → List (ℕ × Group) → List ℕ → ServerSession R × List ℕ
  unfolding place_results
  acknowledge_groups s [] ack_results = (s, ack_results)
  acknowledge_groups s ((id, group) ∷ groups) ack_results =
      let (s', ack_results') : ServerSession R × List ℕ = elim (find_subscription s id) [
        | none ↦ (s, ack_results)
        | some t ↦
            let (t', results) = acknowledge_all t (numbers_of group) in
            (set_subscription s id t', place_results group results ack_results)
      ] in
      acknowledge_groups s' groups ack_results'

  unfoldable pub acknowledge_publish_request :
      ServerSession R → List SubscriptionAcknowledgement → ServerSession R × List ℕ
  unfolding group_acknowledgements acknowledge_groups
  acknowledge_publish_request s acks =
      let (ack_results, groups) = group_acknowledgements s 0 acks [] in
      acknowledge_groups s groups ack_results

  -- AdvancePublishCursorAfter
  unfoldable pub advance_publish_cursor_after : ServerSession R → ℕ → ServerSession R
  advance_publish_cursor_after s index = record s {
    next_publish_index =
        if is_empty s.publish_order then 0 else (index + 1) % length s.publish_order;
  }

  module _ (d : Doubles) where
    -- What the search accepts at a position of the publish order.
    unfoldable pub is_ready_at : ServerSession R → ℕ → Bool → ℕ → Bool
    is_ready_at s now require_pending index = elim (get_elem? s.publish_order index) [
      | none ↦ false
      | some id ↦ elim (find_subscription s id) [
        | none ↦ false
        | some t ↦
            not (require_pending && not (has_pending_notifications t)) && is_publish_ready d t now
      ]
    ]

    unfoldable pub find_ready_loop : ServerSession R → ℕ → Bool → ℕ → ℕ → Option ℕ
    find_ready_loop s now require_pending zero offset = none
    find_ready_loop s now require_pending (suc left) offset =
        let index = at_offset s.next_publish_index offset (length s.publish_order) in
        let rest = find_ready_loop s now require_pending left (suc offset) in
        if is_ready_at s now require_pending index then some index else rest

    unfoldable pub find_next_ready_subscription : ServerSession R → ℕ → Bool → Option ℕ
    unfolding find_ready_loop
    find_next_ready_subscription s now require_pending =
        find_ready_loop s now require_pending (length s.publish_order) 0

    -- The loop that primes the subscriptions and collects the earliest deadline and the shortest
    -- publishing interval of those that have a deadline.
    unfoldable pub wait_loop :
        ServerSession R → ℕ → List ℕ → Option ℕ → Option ℕ → ServerSession R × Option ℕ × Option ℕ
    wait_loop s now [] deadline recheck = (s, deadline, recheck)
    wait_loop s now (id ∷ order) deadline recheck =
        let (s', deadline', recheck') : ServerSession R × Option ℕ × Option ℕ =
          elim (find_subscription s id) [
            | none ↦ (s, deadline, recheck)
            | some t ↦
                let t' = prime_publish_cycle t now in
                let s' = set_subscription s id t' in
                elim (next_publish_deadline d t') [
                  | none ↦ (s', deadline, recheck)
                  | some x ↦
                      (s', earliest deadline x, shortest d recheck (publishing_interval d t'))
                ]
          ] in
        wait_loop s' now order deadline' recheck'

    -- What PollPublish does where no subscription is ready.
    unfoldable pub poll_wait : ServerSession R → ℕ → ServerSession R × PublishPollResult
    unfolding wait_loop elapsed min_duration max_duration
    poll_wait s now =
        let (s', deadline, recheck) = wait_loop s now s.publish_order none none in
        if is_empty s.subscriptions
        then (
          s,
          record {
            response = some (status_response (of_code bad_no_subscription));
            wait_for = none;
          },
        )
        else elim deadline [
          | none ↦ (s', record { response = some (status_response good); wait_for = none })
          | some x ↦
              let wait_for = max_duration d (of_nat d 0) (elapsed d x now) in
              elim recheck [
                | none ↦ (s', record { response = none; wait_for = some wait_for })
                | some y ↦
                    (s', record { response = none; wait_for = some (min_duration d wait_for y) })
              ]
        ]

    -- What it does with the subscription at a position of the publish order.
    unfoldable pub poll_ready : ServerSession R → ℕ → ℕ → ServerSession R × PublishPollResult
    unfolding advance_publish_cursor_after
    poll_ready s now index =
        let failed : ServerSession R × PublishPollResult =
          (s, record { response = some (status_response (of_code bad)); wait_for = none }) in
        elim (get_elem? s.publish_order index) [
          | none ↦ failed
          | some id ↦ elim (find_subscription s id) [
            | none ↦ failed
            | some t ↦
                let (t', published) = try_publish d t now in
                let s' = set_subscription s id t' in
                elim published [
                  | none ↦ (s', record { response = some (status_response good); wait_for = none })
                  | some r ↦ (
                    advance_publish_cursor_after s' index,
                    record { response = some r; wait_for = none },
                  )
                ]
          ]
        ]

    unfoldable pub publish_index : ServerSession R → ℕ → Option ℕ
    unfolding find_next_ready_subscription
    publish_index s now = elim (find_next_ready_subscription s now true) [
      | none ↦ find_next_ready_subscription s now false
      | some index ↦ some index
    ]

    unfoldable pub poll_publish : ServerSession R → ℕ → ServerSession R × PublishPollResult
    unfolding poll_wait poll_ready publish_index
    poll_publish s now = elim (publish_index s now) [
      | none ↦ poll_wait s now
      | some index ↦ poll_ready s now index
    ]

    unfoldable pub publish :
        ServerSession R → List SubscriptionAcknowledgement → ℕ → ServerSession R × PublishResponse
    unfolding acknowledge_publish_request poll_publish
    publish s acks now =
        let (s', ack_results) = acknowledge_publish_request s acks in
        let (s'', poll) = poll_publish s' now in
        elim poll.response [
          | none ↦ (
            s'',
            record (status_response
                (if is_empty s''.subscriptions then of_code bad_no_subscription else good)) {
                  results = ack_results;
                },
          )
          | some r ↦ (s'', record r { results = ack_results })
        ]
