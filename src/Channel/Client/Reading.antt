-- ===== src/Channel/Client/Reading.antt =====
-- How many frames the reading of a response takes, how large the response is, and what it is made of.
use opcuapp.Base.{
  Option-cases, ℕ, zero, suc, ◌≤◌, ◌≡◌, ◌≢◌, refl, Bool, true, false, Option, none, some, List, [],
  ◌∷◌, arith, length, length-append, not, inl, inr, if_known,
}
use opcuapp.Types.Status.{bind_ok, ◌>>=◌, status_known, StatusOr, ok, failed}
use opcuapp.Binary.Crypto.{Crypto}
use opcuapp.Channel.Client.{
  bad_no_communication, of_code, ClientSecureChannel, is_final, append_chunk,
  decode_service_message_chunk, read_chunk, read_loop, read_service_response, max_response_chunks,
  max_response_bytes,
}

-- The bytes so far stay below the cap.
append_chunk_small :
    (last : Bool) (reassembled : List ℕ) (chunk : ℕ × List ℕ) (next : Bool × ℕ × List ℕ)
    → append_chunk last reassembled chunk ≡ ok next
    → length next.2 ≤ max_response_bytes
unfolding append_chunk
append_chunk_small last reassembled (request_id, body) (final, r, bytes) e =
    ground (arith, e, length-append reassembled body)

-- A body that fits the cap of 64 MiB.
abbrev pub IsSmall : StatusOr (ℕ × List ℕ) → Type 0
IsSmall (failed status) = Unit {0}
IsSmall (ok (request_id, body)) = length body ≤ max_response_bytes

-- A read that is over, with its outcome.
abbrev pub Ended : Option (StatusOr (ℕ × List ℕ) × List (StatusOr (List ℕ))) → Type 0
Ended read =
    (outcome : StatusOr (ℕ × List ℕ)) × (rest : List (StatusOr (List ℕ))) × (read
      ≡ some (outcome, rest))
    × IsSmall outcome

module _ {Certificate PrivateKey : Type 0} (crypto : Crypto Certificate PrivateKey) where
  read_loop_ends :
      (n : ℕ) (frames : List (StatusOr (List ℕ))) (reassembled : List ℕ)
      (channel : ClientSecureChannel)
      → n ≤ length frames
      → read_loop crypto n frames reassembled channel ≢ none
  unfolding read_loop
  read_loop_ends zero frames reassembled channel h e = cc
  read_loop_ends (suc n) [] reassembled channel h e = absurd (omega arith)
  read_loop_ends (suc n) (failed status ∷ frames) reassembled channel h e = cc
  read_loop_ends (suc n) (ok frame ∷ frames) reassembled channel h none_eq =
      (let P : Option (StatusOr (ℕ × List ℕ) × List (StatusOr (List ℕ))) → Type 0 = λ o. o ≢ none in
          status_known P (read_chunk crypto frame reassembled channel)
            (λ status. some (failed status, frames))
            (λ (final, request_id, bytes). elim final [
              | true ↦ some (ok (request_id, bytes), frames)
              | false ↦ read_loop crypto n frames bytes channel
            ])
            (λ _ _ e. cc)
            (λ (final, request_id, bytes) _.
              elim final
                as (λ b. P (elim b [
                  | true ↦ some (ok (request_id, bytes), frames)
                  | false ↦ read_loop crypto n frames bytes channel
                ])) [
                  | true ↦ λ e. cc
                  | false ↦ read_loop_ends n frames bytes channel (omega arith)
                ]))
        none_eq

  -- The outcome of the loop, when there is one, is small.
  abbrev Small : Option (StatusOr (ℕ × List ℕ) × List (StatusOr (List ℕ))) → Type 0
  Small none = Unit {0}
  Small (some (outcome, rest)) = IsSmall outcome

  read_chunk_small :
      (frame reassembled : List ℕ) (channel : ClientSecureChannel) (next : Bool × ℕ × List ℕ)
      → read_chunk crypto frame reassembled channel ≡ ok next
      → length next.2 ≤ max_response_bytes
  unfolding read_chunk
  read_chunk_small frame reassembled channel next e =
      let (last, _, e0) =
        bind_ok (is_final frame)
          (λ last. decode_service_message_chunk crypto frame channel >>= λ chunk.
            append_chunk last reassembled chunk)
          next e in
      let (chunk, _, e1) =
        bind_ok (decode_service_message_chunk crypto frame channel)
          (λ chunk. append_chunk last reassembled chunk) next e0 in
      append_chunk_small last reassembled chunk next e1

  read_loop-Small :
      (n : ℕ) (frames : List (StatusOr (List ℕ))) (reassembled : List ℕ)
      (channel : ClientSecureChannel)
      → Small (read_loop crypto n frames reassembled channel)
  unfolding read_loop
  read_loop-Small zero frames reassembled channel = tt
  read_loop-Small (suc n) [] reassembled channel = tt
  read_loop-Small (suc n) (failed status ∷ frames) reassembled channel = tt
  read_loop-Small (suc n) (ok frame ∷ frames) reassembled channel =
      status_known Small (read_chunk crypto frame reassembled channel)
        (λ status. some (failed status, frames))
        (λ (final, request_id, bytes). elim final [
          | true ↦ some (ok (request_id, bytes), frames)
          | false ↦ read_loop crypto n frames bytes channel
        ])
        (λ _ _. tt)
        (λ (final, request_id, bytes) e.
          elim final
            as (λ b. Small (elim b [
              | true ↦ some (ok (request_id, bytes), frames)
              | false ↦ read_loop crypto n frames bytes channel
            ])) [
              | true ↦ read_chunk_small frame reassembled channel (final, request_id, bytes) e
              | false ↦ read_loop-Small n frames bytes channel
            ])

-- When the transport gives 8192 frames or more, reading a response ends: with a status, or with a
-- body of at most 64 MiB.
pub read_service_response-Ended :
    {Certificate PrivateKey : Type 0} (crypto : Crypto Certificate PrivateKey)
    (frames : List (StatusOr (List ℕ))) (channel : ClientSecureChannel)
    → max_response_chunks ≤ length frames
    → Ended (read_service_response crypto frames channel)
unfolding read_service_response
read_service_response-Ended crypto frames channel h =
    if_known Ended (not channel.opened) (some (failed (of_code bad_no_communication), frames))
      (read_loop crypto max_response_chunks frames [] channel) (λ _. (_, _, refl, tt))
      (λ _. elim (Option-cases (read_loop crypto max_response_chunks frames [] channel)) [
        | inl e ↦ absurd (read_loop_ends crypto max_response_chunks frames [] channel h e)
        | inr ((outcome, rest), e) ↦ (
          outcome,
          rest,
          e,
          rw e at (read_loop-Small crypto max_response_chunks frames [] channel),
        )
      ])
