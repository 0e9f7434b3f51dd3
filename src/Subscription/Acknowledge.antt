-- ===== src/Subscription/Acknowledge.antt =====
-- Acknowledging a message: the queue that it leaves, and what Republish answers after it.
use opcuapp.Base.{
  ℕ, ◌+◌, ◌≡◌, ◌⊎◌, inl, inr, refl, none, some, List, [], ◌∷◌, arith, Option-cases, ◌==◌,
  if◌then◌else◌,
}
use opcuapp.Types.Status.{good, bad_sequence_number_unknown, bad_message_not_available, of_code}
use opcuapp.Message.{NotificationMessage}
use opcuapp.Subscription.State.{ServerSubscription}
use opcuapp.Subscription.Publishing.{
  no_message, size_of, find_message, erase_message, acknowledge, republish, sequence_numbers_of,
}
use opcuapp.Subscription.Retransmit.{total, Between, Between-mono, IsWellFormed}

total-erase_message :
    (n : ℕ) (q : List NotificationMessage) (m : NotificationMessage)
    → find_message n q ≡ some m
    → total q ≡ total (erase_message n q) + size_of m
unfolding find_message erase_message
total-erase_message n [] m e = cc
total-erase_message n (x ∷ q) m e = ground (arith, total-erase_message n q m)

erase_message-Between :
    (n lo hi : ℕ) (q : List NotificationMessage)
    → Between lo hi q
    → Between lo hi (erase_message n q)
unfolding erase_message
erase_message-Between n lo hi [] b = b
erase_message-Between n lo hi (x ∷ q) b = ground (
  arith,
  erase_message-Between n (x.sequence_number + 1) hi q b.1,
  Between-mono (x.sequence_number + 1) lo hi q,
)

-- Acknowledging any number keeps the retransmission queue well-formed.
pub acknowledge-IsWellFormed :
    (s : ServerSubscription) (n : ℕ) → IsWellFormed s → IsWellFormed (acknowledge s n).0
unfolding acknowledge
acknowledge-IsWellFormed s n w = elim (Option-cases (find_message n s.retransmit_queue)) [
  | inl e ↦ rw (e, acknowledge) w
  | inr (m, e) ↦
      let t = total-erase_message n s.retransmit_queue m e in
      rw (e, acknowledge)
        (record {
          retained = omega (arith, t, w.retained, w.bounded);
          bounded = omega (arith, t, w.bounded);
          numbers = erase_message-Between n 1 s.next_sequence_number s.retransmit_queue w.numbers;
        })
]

-- No two messages of a queue have the same number.
abbrev pub Unrepeated : List NotificationMessage → Type 0
Unrepeated [] = Unit
Unrepeated (m ∷ q) = (find_message m.sequence_number q ≡ none) × Unrepeated q

find-erase_message :
    (n k : ℕ) (q : List NotificationMessage)
    → Unrepeated q
    → find_message k (erase_message n q) ≡ (if n == k then none else find_message k q)
unfolding find_message erase_message
find-erase_message n k [] u = ground arith
find-erase_message n k (x ∷ q) (fresh, u) = ground (arith, find-erase_message n k q u, fresh)

-- While no two messages that are kept for Republish have the same number, Republish no longer has a
-- message once it is acknowledged, and answers as before for every other number.
pub republish-acknowledge :
    (s : ServerSubscription) (n k : ℕ)
    → Unrepeated s.retransmit_queue
    → republish (acknowledge s n).0 k ≡ (
        if n == k
        then record {
          status = of_code bad_message_not_available;
          notification_message = no_message;
        }
        else republish s k)
unfolding republish acknowledge
republish-acknowledge s n k u = elim (Option-cases (find_message n s.retransmit_queue)) [
  | inl e ↦ rw (e, acknowledge) (ground (arith, e))
  | inr (m, e) ↦ rw (e, acknowledge) (ground (arith, find-erase_message n k s.retransmit_queue u))
]

-- A list of numbers without the first occurrence of one.
abbrev pub remove_number : ℕ → List ℕ → List ℕ
remove_number n [] = []
remove_number n (x ∷ xs) = if x == n then xs else x ∷ remove_number n xs

erase_message-numbers :
    (n : ℕ) (q : List NotificationMessage)
    → sequence_numbers_of (erase_message n q) ≡ remove_number n (sequence_numbers_of q)
unfolding erase_message
erase_message-numbers n [] = refl
erase_message-numbers n (x ∷ q) = ground (arith, erase_message-numbers n q)

-- An acknowledgement is Good exactly when Republish has the message; then the queue loses it, and
-- otherwise the subscription is as it was.
pub acknowledge_good :
    (s : ServerSubscription) (n : ℕ)
    → (((acknowledge s n).1 ≡ good)
        × ((republish s n).status ≡ good)
        × (sequence_numbers_of (acknowledge s n).0.retransmit_queue
            ≡ remove_number n (sequence_numbers_of s.retransmit_queue)))
      ⊎ (((acknowledge s n).1 ≡ bad_sequence_number_unknown)
          × ((republish s n).status ≡ of_code bad_message_not_available)
          × ((acknowledge s n).0 ≡ s))
unfolding republish acknowledge
acknowledge_good s n = elim (Option-cases (find_message n s.retransmit_queue)) [
  | inl e ↦ inr (rw (e, acknowledge), rw (e, republish), rw (e, acknowledge))
  | inr (m, e) ↦ inl (
    rw (e, acknowledge),
    rw (e, republish),
    rw (e, acknowledge) (erase_message-numbers n s.retransmit_queue),
  )
]
