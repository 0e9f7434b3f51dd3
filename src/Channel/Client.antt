-- ===== src/Channel/Client.antt =====
-- opcua/transport/binary/client_secure_channel.h and client_secure_channel.cpp: the client's end of a
-- channel once it is open. A call of the transport is its answer; the frames that ReadFrame gives,
-- one after the other, are a list. The time is in milliseconds.
pub mod Reading
pub mod Security
pub mod Opening
use opcuapp.Base.{
  ℕ, zero, suc, ◌+◌, ◌*◌, ◌/◌, ◌%◌, ◌^◌, Bool, true, false, Option, none, some, List, [], ◌∷◌, ◌++◌,
  length, max, get_elem?, ltb, leb, not, ◌==◌, ◌&&◌, ◌||◌, if◌then◌else◌,
}
use opcuapp.Types.Status.{
  StatusOr, ok, failed, ◌>>=◌, ◌>>◌, require, or_bad, of_code, good, bad, bad_no_communication,
}
use opcuapp.Binary.Crypto.{Crypto, DerivedKeys}
use opcuapp.Binary.Protocol.{MessageType, secure_message, secure_close}
use opcuapp.Channel.Conversation.{
  SecureConversationMessage, is_secure_message, token_message, encode_secure_conversation_message,
  decode_secure_conversation_message,
}
use opcuapp.Channel.Handshake.{only_handle, encode_close_request}
use opcuapp.Channel.Symmetric.{seal, unseal}

pub record ClientSecureChannel : Type 0 where
  pub sign_and_encrypt : Bool
  pub opened : Bool
  pub channel_id : ℕ
  pub token_id : ℕ
  pub revised_lifetime_ms : ℕ
  pub renew_at : ℕ
  pub next_sequence_number : ℕ
  pub next_request_id : ℕ
  pub client_keys : DerivedKeys
  pub server_keys : DerivedKeys
  pub client_nonce : List ℕ

abbrev pub next_word : ℕ → ℕ
next_word n = (n + 1) % 2 ^ 32

-- The id that a request gets, and the channel after it.
unfoldable pub take_request_id : ClientSecureChannel → ℕ × ClientSecureChannel
take_request_id channel = (
  channel.next_request_id,
  record channel { next_request_id = next_word channel.next_request_id },
)

unfoldable pub should_renew : ℕ → ClientSecureChannel → Bool
should_renew now channel = channel.opened && leb channel.renew_at now

-- A renewal is due after three quarters of the lifetime; `time_point{}` is 0.
unfoldable pub arm_renewal_timer : ℕ → ℕ → ClientSecureChannel → ClientSecureChannel
arm_renewal_timer now revised_lifetime_ms channel = record channel {
  revised_lifetime_ms = revised_lifetime_ms;
  renew_at = if revised_lifetime_ms == 0 then 0 else now + max 1 (revised_lifetime_ms * 3 / 4);
}

-- "MSGF" and "CLOF"; any other type is refused.
unfoldable pub type_tag : MessageType → Option (List ℕ)
type_tag secure_message = some (b'M' ∷ b'S' ∷ b'G' ∷ b'F' ∷ [])
type_tag secure_close = some (b'C' ∷ b'L' ∷ b'O' ∷ b'F' ∷ [])
type_tag _ = none

abbrev pub max_response_chunks : ℕ
max_response_chunks = 8192

abbrev pub max_response_bytes : ℕ
max_response_bytes = 64 * 1024 * 1024

-- The chunk type of a frame, which has to be 'C' or 'F': true for the last chunk.
unfoldable pub is_final : List ℕ → StatusOr Bool
is_final frame = do
  chunk_type ← or_bad (get_elem? frame 3)
  require (chunk_type == b'C' || chunk_type == b'F')
  ok (chunk_type == b'F')

-- A decoded chunk behind the bytes so far, if they stay below the cap.
unfoldable pub append_chunk : Bool → List ℕ → ℕ × List ℕ → StatusOr (Bool × ℕ × List ℕ)
append_chunk final reassembled (request_id, body) = do
  require (leb (length reassembled + length body) max_response_bytes)
  ok (final, request_id, reassembled ++ body)

module _ {Certificate PrivateKey : Type 0} (crypto : Crypto Certificate PrivateKey) where
  -- The frame of a message of a type, and the channel after its sequence number.
  unfoldable pub frame_message :
      MessageType → ℕ → List ℕ → ClientSecureChannel → ClientSecureChannel × StatusOr (List ℕ)
  unfolding type_tag seal encode_secure_conversation_message
  frame_message message_type request_id body channel =
      let n = channel.next_sequence_number in
      let sealed : StatusOr (List ℕ) = or_bad (type_tag message_type) >>= λ tag.
      seal crypto channel.client_keys tag channel.channel_id channel.token_id n request_id body in
      let plain = or_bad (
        encode_secure_conversation_message
          (token_message message_type channel.channel_id channel.token_id n request_id body)) in
      (
        record channel { next_sequence_number = next_word n },
        (if channel.sign_and_encrypt then sealed else plain),
      )

  -- The frame to write, or the status of a request that is not sent.
  unfoldable pub send_service_request :
      ℕ → List ℕ → ClientSecureChannel → ClientSecureChannel × StatusOr (List ℕ)
  unfolding frame_message
  send_service_request request_id body channel =
      if not channel.opened
      then (channel, failed (of_code bad_no_communication))
      else frame_message secure_message request_id body channel

  -- The channel is closed whether or not its frame could be built; `none` when it was not open.
  unfoldable pub close : ClientSecureChannel → ClientSecureChannel × Option (StatusOr (List ℕ))
  unfolding take_request_id frame_message encode_close_request
  close channel =
      let (request_id, numbered) = take_request_id channel in
      let (framed, frame) =
        frame_message secure_close request_id (encode_close_request (only_handle request_id))
          numbered in
      if not channel.opened then (channel, none) else (record framed { opened = false }, some frame)

  unfoldable pub decode_plain_chunk : List ℕ → ClientSecureChannel → StatusOr (ℕ × List ℕ)
  unfolding decode_secure_conversation_message
  decode_plain_chunk frame channel = do
    message ← or_bad (decode_secure_conversation_message frame)
    require (is_secure_message message.frame_header.message_type)
    require (message.secure_channel_id == channel.channel_id)
    token_id ← or_bad message.symmetric_security_header
    require (token_id == channel.token_id)
    ok (message.sequence_header.request_id, message.body)

  unfoldable pub decode_symmetric_frame : List ℕ → ClientSecureChannel → StatusOr (ℕ × List ℕ)
  unfolding unseal
  decode_symmetric_frame frame channel =
      unseal crypto channel.server_keys channel.channel_id channel.token_id frame

  unfoldable pub decode_service_message_chunk : List ℕ → ClientSecureChannel → StatusOr (ℕ × List ℕ)
  unfolding decode_symmetric_frame decode_plain_chunk
  decode_service_message_chunk frame channel =
      if channel.sign_and_encrypt
      then decode_symmetric_frame frame channel
      else decode_plain_chunk frame channel

  -- One turn of the loop: whether the chunk is the last, its request id, and the bytes so far.
  unfoldable pub read_chunk : List ℕ → List ℕ → ClientSecureChannel → StatusOr (Bool × ℕ × List ℕ)
  unfolding is_final decode_service_message_chunk append_chunk
  read_chunk frame reassembled channel = do
    final ← is_final frame
    chunk ← decode_service_message_chunk frame channel
    append_chunk final reassembled chunk

  -- The loop, with the number of chunks that may still come; `none` waits for a frame.
  unfoldable pub read_loop :
      ℕ
      → List (StatusOr (List ℕ))
      → List ℕ
      → ClientSecureChannel
      → Option (StatusOr (ℕ × List ℕ) × List (StatusOr (List ℕ)))
  unfolding read_chunk
  read_loop zero frames reassembled channel = some (failed (of_code bad), frames)
  read_loop (suc n) [] reassembled channel = none
  read_loop (suc n) (failed status ∷ frames) reassembled channel = some (failed status, frames)
  read_loop (suc n) (ok frame ∷ frames) reassembled channel =
      elim (read_chunk frame reassembled channel) [
        | failed status ↦ some (failed status, frames)
        | ok (final, request_id, bytes) ↦ elim final [
          | true ↦ some (ok (request_id, bytes), frames)
          | false ↦ read_loop n frames bytes channel
        ]
      ]

  unfoldable pub read_service_response :
      List (StatusOr (List ℕ))
      → ClientSecureChannel
      → Option (StatusOr (ℕ × List ℕ) × List (StatusOr (List ℕ)))
  unfolding read_loop
  read_service_response frames channel =
      if not channel.opened
      then some (failed (of_code bad_no_communication), frames)
      else read_loop max_response_chunks frames [] channel
