-- ===== src/Subscription/Retransmit.antt =====
-- The retransmission queue of a subscription: its bound, its count of notifications and its sequence
-- numbers, through publishing and acknowledging.
use opcuapp.Base.{
  ℕ, zero, suc, ◌+◌, ◌^◌, ◌≤◌, ◌<◌, ◌≡◌, refl, List, [], ◌∷◌, ◌++◌, arith, length, min,
}
use opcuapp.Types.Variant.{Doubles}
use opcuapp.Message.{NotificationMessage}
use opcuapp.Subscription.State.{
  ServerSubscription, QueuedNotification, prime_publish_cycle, next_uint32,
}
use opcuapp.Subscription.Publishing.{
  size_of, add64, sub64, drain, evict, max_entries, publish_notifications, publish_keep_alive,
  try_publish, try_publish_cases,
}

abbrev pub total : List NotificationMessage → ℕ
total [] = 0
total (m ∷ queue) = size_of m + total queue

-- Sequence numbers that rise along the queue, from `lo` on and below `hi`.
abbrev pub Between : ℕ → ℕ → List NotificationMessage → Type 0
Between lo hi [] = lo ≤ hi
Between lo hi (m ∷ queue) = (lo ≤ m.sequence_number) × Between (m.sequence_number + 1) hi queue

pub record IsWellFormed (s : ServerSubscription) : Type 0 where
  pub retained : s.retained_notifications ≡ total s.retransmit_queue
  pub bounded : total s.retransmit_queue ≤ 1024
  pub numbers : Between 1 s.next_sequence_number s.retransmit_queue

pub total-append : (p q : List NotificationMessage) → total (p ++ q) ≡ total p + total q
total-append [] q = omega arith
total-append (m ∷ p) q = omega (arith, total-append p q)

pub Between-mono :
    (lo lo' hi : ℕ) (q : List NotificationMessage) → lo' ≤ lo → Between lo hi q → Between lo' hi q
Between-mono lo lo' hi [] h b = omega arith
Between-mono lo lo' hi (m ∷ q) h b = (omega arith, b.1)

pub Between-le : (lo hi : ℕ) (q : List NotificationMessage) → Between lo hi q → lo ≤ hi
Between-le lo hi [] b = b
Between-le lo hi (m ∷ q) b = omega (arith, Between-le (m.sequence_number + 1) hi q b.1)

pub Between-snoc :
    (lo hi : ℕ) (q : List NotificationMessage) (m : NotificationMessage)
    → Between lo hi q
    → hi ≡ m.sequence_number
    → Between lo (hi + 1) (q ++ m ∷ [])
Between-snoc lo hi [] m b e = omega arith
Between-snoc lo hi (x ∷ q) m b e = (b.0, Between-snoc (x.sequence_number + 1) hi q m b.1 e)

pub length-drain :
    (n : ℕ) (pending : List QueuedNotification)
    → length (drain n pending).0 ≡ min n (length pending)
unfolding drain
length-drain zero pending = omega arith
length-drain (suc n) [] = omega arith
length-drain (suc n) (q ∷ pending) = omega (arith, length-drain n pending)

pub evict-total :
    (q : List NotificationMessage) (m : NotificationMessage)
    → size_of m ≤ 1024
    → total (q ++ m ∷ []) < 2 ^ 64
    → ((evict (q ++ m ∷ []) (total (q ++ m ∷ []))).1
        ≡ total (evict (q ++ m ∷ []) (total (q ++ m ∷ []))).0)
      × (total (evict (q ++ m ∷ []) (total (q ++ m ∷ []))).0 ≤ 1024)
unfolding evict
evict-total [] m h b = ground arith
evict-total (x ∷ []) m h b = ground (arith, evict-total [] m)
evict-total (x ∷ y ∷ q) m h b = ground (arith, evict-total (y ∷ q) m h)

pub evict-Between :
    (lo hi r : ℕ) (q : List NotificationMessage) → Between lo hi q → Between lo hi (evict q r).0
unfolding evict
evict-Between lo hi r [] b = b
evict-Between lo hi r (m ∷ []) b = b
evict-Between lo hi r (m ∷ m' ∷ q) b = ground (
  arith,
  Between-mono (m.sequence_number + 1) lo hi (evict (m' ∷ q) (sub64 r (size_of m))).0,
  evict-Between (m.sequence_number + 1) hi (sub64 r (size_of m)) (m' ∷ q) b.1,
)

-- The part of `publish_notifications` that the proofs share: the message, and what is kept.
abbrev message_of : ServerSubscription → ℕ → NotificationMessage
message_of s now = record {
  sequence_number = s.next_sequence_number;
  publish_time = now;
  notification_data = (drain (max_entries s) s.pending_notifications).0;
}

pub max_entries_le : (s : ServerSubscription) → max_entries s ≤ 1000
unfolding max_entries
max_entries_le s = ground arith

size_of_message : (s : ServerSubscription) (now : ℕ) → size_of (message_of s now) ≤ 1000
size_of_message s now =
    omega (arith, length-drain (max_entries s) s.pending_notifications, max_entries_le s)

retained_after :
    (s : ServerSubscription) (now : ℕ)
    → IsWellFormed s
    → add64 s.retained_notifications (size_of (message_of s now))
      ≡ total (s.retransmit_queue ++ message_of s now ∷ [])
retained_after s now w = omega (
  arith,
  w.retained,
  w.bounded,
  size_of_message s now,
  total-append s.retransmit_queue (message_of s now ∷ []),
)

next_uint32_lem : (n : ℕ) → n + 1 < 2 ^ 32 → next_uint32 n ≡ n + 1
next_uint32_lem n h = omega arith

publish_notifications-IsWellFormed :
    (s : ServerSubscription) (now : ℕ)
    → s.next_sequence_number + 1 < 2 ^ 32
    → IsWellFormed s
    → IsWellFormed (publish_notifications s now).0
unfolding publish_notifications
publish_notifications-IsWellFormed s now fits w =
    let t =
      evict-total s.retransmit_queue (message_of s now) (omega (arith, size_of_message s now)) (
        omega (
          arith,
          w.bounded,
          size_of_message s now,
          total-append s.retransmit_queue (message_of s now ∷ []),
        )) in
    record {
      retained = rw (retained_after s now w) t.0;
      bounded = rw (retained_after s now w) t.1;
      numbers =
          evict-Between 1 (next_uint32 s.next_sequence_number) _
            (s.retransmit_queue ++ message_of s now ∷ [])
            (rw (next_uint32_lem s.next_sequence_number fits) (
              Between-snoc 1 s.next_sequence_number s.retransmit_queue (message_of s now) w.numbers
                refl));
    }

pub prime-IsWellFormed :
    (s : ServerSubscription) (now : ℕ) → IsWellFormed s → IsWellFormed (prime_publish_cycle s now)
unfolding prime_publish_cycle
prime-IsWellFormed s now w = ground arith

keep_alive-IsWellFormed :
    (s : ServerSubscription) (now : ℕ) → IsWellFormed s → IsWellFormed (publish_keep_alive s now).0
unfolding publish_keep_alive
keep_alive-IsWellFormed s now w = ground arith

pub next_sequence_number-prime :
    (s : ServerSubscription) (now : ℕ)
    → (prime_publish_cycle s now).next_sequence_number ≡ s.next_sequence_number
unfolding prime_publish_cycle
next_sequence_number-prime s now = ground arith

-- Publishing keeps the count of retained notifications exact and within 1024, and the numbers of the
-- retained messages rising and below the next one, while that is below 2 ^ 32 - 1.
pub try_publish-IsWellFormed :
    (d : Doubles) (s : ServerSubscription) (now : ℕ)
    → s.next_sequence_number + 1 < 2 ^ 32
    → IsWellFormed s
    → IsWellFormed (try_publish d s now).0
try_publish-IsWellFormed d s now fits w =
    try_publish_cases (λ r. IsWellFormed r.0) d s now (λ _. primed)
      (λ _ _. keep_alive-IsWellFormed (prime_publish_cycle s now) now primed)
      (λ _ _.
        publish_notifications-IsWellFormed (prime_publish_cycle s now) now
          (rw (next_sequence_number-prime s now) fits) primed)
  where
    primed : IsWellFormed (prime_publish_cycle s now)
    primed = prime-IsWellFormed s now w
