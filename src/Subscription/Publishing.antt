-- ===== src/Subscription/Publishing.antt =====
-- TryPublish, Acknowledge, Republish and AvailableSequenceNumbers of a ServerSubscription.
use opcuapp.Base.{
  ℕ, zero, suc, ◌+◌, ◌-◌, ◌%◌, ◌^◌, min, Bool, true, false, ◌&&◌, not, Option, none, some, List, [],
  ◌∷◌, ◌++◌, map, length, ltb, ◌==◌, is_empty, if◌then◌else◌, ◌≡◌, Bool-cases, inl, inr,
}
use opcuapp.Types.Status.{good, of_code, bad_message_not_available, bad_sequence_number_unknown}
use opcuapp.Types.Variant.{Doubles}
use opcuapp.Message.{NotificationData, NotificationMessage, PublishResponse, RepublishResponse}
use opcuapp.Subscription.State.{
  ServerSubscription, QueuedNotification, next_uint32, prime_publish_cycle, is_publish_ready,
}

abbrev pub max_retransmit_queue_notifications : ℕ
max_retransmit_queue_notifications = 1024

abbrev pub max_notifications_per_publish_response : ℕ
max_notifications_per_publish_response = 1000

-- `+=` and `-=` on a std::size_t.
abbrev pub add64 : ℕ → ℕ → ℕ
add64 a b = (a + b) % 2 ^ 64

abbrev pub sub64 : ℕ → ℕ → ℕ
sub64 a b = (a + 2 ^ 64 - b) % 2 ^ 64

abbrev pub size_of : NotificationMessage → ℕ
size_of message = length message.notification_data

unfoldable pub find_message : ℕ → List NotificationMessage → Option NotificationMessage
find_message sequence_number [] = none
find_message sequence_number (m ∷ queue) =
    if m.sequence_number == sequence_number then some m else find_message sequence_number queue

-- `erase` of what `find_if` found.
unfoldable pub erase_message : ℕ → List NotificationMessage → List NotificationMessage
erase_message sequence_number [] = []
erase_message sequence_number (m ∷ queue) =
    if m.sequence_number == sequence_number then queue else m ∷ erase_message sequence_number queue

unfoldable pub acknowledge : ServerSubscription → ℕ → ServerSubscription × ℕ
acknowledge s sequence_number = elim (find_message sequence_number s.retransmit_queue) [
  | none ↦ (s, bad_sequence_number_unknown)
  | some m ↦ (
    record s {
      retained_notifications = sub64 s.retained_notifications (size_of m);
      retransmit_queue = erase_message sequence_number s.retransmit_queue;
    },
    good,
  )
]

unfoldable pub acknowledge_all : ServerSubscription → List ℕ → ServerSubscription × List ℕ
acknowledge_all s [] = (s, [])
acknowledge_all s (n ∷ sequence_numbers) =
    let (s', result) = acknowledge s n in
    let (s'', results) = acknowledge_all s' sequence_numbers in (s'', result ∷ results)

abbrev pub sequence_numbers_of : List NotificationMessage → List ℕ
sequence_numbers_of queue = map (λ m. m.sequence_number) queue

abbrev pub available_sequence_numbers : ServerSubscription → List ℕ
available_sequence_numbers s = sequence_numbers_of s.retransmit_queue

-- The loop that moves notifications from the front of the queue into the message.
unfoldable pub drain : ℕ → List QueuedNotification → List NotificationData × List QueuedNotification
drain zero pending = ([], pending)
drain (suc n) [] = ([], [])
drain (suc n) (q ∷ pending) = let (taken, left) = drain n pending in (q.notification ∷ taken, left)

-- The loop that drops the oldest messages while more than one is held and the bound is passed.
unfoldable pub evict : List NotificationMessage → ℕ → List NotificationMessage × ℕ
evict [] retained = ([], retained)
evict (m ∷ []) retained = (m ∷ [], retained)
evict (m ∷ m' ∷ queue) retained =
    let rest = evict (m' ∷ queue) (sub64 retained (size_of m)) in
    if ltb max_retransmit_queue_notifications retained then rest else (m ∷ m' ∷ queue, retained)

unfoldable pub max_entries : ServerSubscription → ℕ
max_entries s =
    let pending = length s.pending_notifications in
    let limit = s.parameters.max_notifications_per_publish in
    let requested = if limit == 0 then pending else limit in
    min requested (min max_notifications_per_publish_response pending)

-- The answer with no notification, which uses no sequence number.
unfoldable pub publish_keep_alive : ServerSubscription → ℕ → ServerSubscription × PublishResponse
publish_keep_alive s now = (
  record s { last_publish_time = some now; initial_message_sent = true },
  record {
    status = good;
    subscription_id = s.subscription_id;
    results = [];
    more_notifications = false;
    notification_message = record {
      sequence_number = s.next_sequence_number;
      publish_time = now;
      notification_data = [];
    };
    available_sequence_numbers = available_sequence_numbers s;
  },
)

unfoldable pub publish_notifications : ServerSubscription → ℕ → ServerSubscription × PublishResponse
unfolding max_entries drain evict
publish_notifications s now =
    let (notification_data, pending) = drain (max_entries s) s.pending_notifications in
    let message : NotificationMessage = record {
      sequence_number = s.next_sequence_number;
      publish_time = now;
      notification_data = notification_data;
    } in
    let (queue, retained) =
      evict (s.retransmit_queue ++ message ∷ [])
        (add64 s.retained_notifications (length notification_data)) in
    (
      record s {
        next_sequence_number = next_uint32 s.next_sequence_number;
        pending_notifications = pending;
        retransmit_queue = queue;
        retained_notifications = retained;
        last_publish_time = some now;
        initial_message_sent = true;
      },
      record {
        status = good;
        subscription_id = s.subscription_id;
        results = [];
        more_notifications = not (is_empty pending);
        notification_message = message;
        available_sequence_numbers = sequence_numbers_of queue;
      },
    )

abbrev pub has_publishable_notifications : ServerSubscription → Bool
has_publishable_notifications s =
    s.parameters.publishing_enabled && not (is_empty s.pending_notifications)

unfoldable pub try_publish :
    Doubles → ServerSubscription → ℕ → ServerSubscription × Option PublishResponse
try_publish d s now =
    let primed = prime_publish_cycle s now in
    let (kept, keep_alive) = publish_keep_alive primed now in
    let (sent, response) = publish_notifications primed now in
    if not (has_publishable_notifications primed)
    then (if not (is_publish_ready d primed now) then (primed, none) else (kept, some keep_alive))
    else if not (is_publish_ready d primed now)
    then (primed, none)
    else (sent, some response)

-- The three ways in which TryPublish ends, on the subscription with its cycle primed.
pub try_publish_cases {ℓ} :
    (P : ServerSubscription × Option PublishResponse → Type ℓ) (d : Doubles)
    (s : ServerSubscription) (now : ℕ)
    → let primed = prime_publish_cycle s now in
      (is_publish_ready d primed now ≡ false → P (primed, none))
      → (is_publish_ready d primed now ≡ true
          → has_publishable_notifications primed ≡ false
          → P ((publish_keep_alive primed now).0, some (publish_keep_alive primed now).1))
      → (is_publish_ready d primed now ≡ true
          → has_publishable_notifications primed ≡ true
          → P ((publish_notifications primed now).0, some (publish_notifications primed now).1))
      → P (try_publish d s now)
unfolding try_publish
try_publish_cases P d s now idle kept sent =
    elim (Bool-cases (is_publish_ready d (prime_publish_cycle s now) now)) [
      | inr not_ready ↦
          elim (Bool-cases (has_publishable_notifications (prime_publish_cycle s now))) [
            | inl some_pending ↦ rw (some_pending, not_ready) (idle not_ready)
            | inr none_pending ↦ rw (none_pending, not_ready) (idle not_ready)
          ]
      | inl ready ↦ elim (Bool-cases (has_publishable_notifications (prime_publish_cycle s now))) [
        | inl some_pending ↦ rw (some_pending, ready) (sent ready some_pending)
        | inr none_pending ↦ rw (none_pending, ready) (kept ready none_pending)
      ]
    ]

-- The message of a response that only sets its status.
abbrev pub no_message : NotificationMessage
no_message = record { sequence_number = 0; publish_time = 0; notification_data = [] }

unfoldable pub republish : ServerSubscription → ℕ → RepublishResponse
unfolding find_message
republish s sequence_number = elim (find_message sequence_number s.retransmit_queue) [
  | none ↦ record { status = of_code bad_message_not_available; notification_message = no_message }
  | some m ↦ record { status = good; notification_message = m }
]
