-- ===== src/Binary/Protocol/Negotiation.antt =====
-- The answer to a Hello: the limits that both sides can keep, or an error.
use opcuapp.Base.{◌≤◌, ◌<◌, ◌≡◌, ◌⊎◌, inl, inr, Option, none, some, arith, Bool-cases, ◌||◌, ◌==◌}
use opcuapp.Binary.Protocol.{
  HelloMessage, AcknowledgeMessage, TransportLimits, ErrorMessage, bad_full_code, negotiate_hello,
}

-- The limits of an answer, from the server's side: it receives what the client sends.
pub record IsAgreed (h : HelloMessage) (s : TransportLimits) (a : AcknowledgeMessage) : Type 0 where
  pub version_client : a.protocol_version ≤ h.protocol_version
  pub version_server : a.protocol_version ≤ s.protocol_version
  pub receive_client : a.receive_buffer_size ≤ h.send_buffer_size
  pub receive_server : a.receive_buffer_size ≤ s.receive_buffer_size
  pub send_client : a.send_buffer_size ≤ h.receive_buffer_size
  pub send_server : a.send_buffer_size ≤ s.send_buffer_size
  pub receive_tight :
      (a.receive_buffer_size ≡ h.send_buffer_size) ⊎ (a.receive_buffer_size ≡ s.receive_buffer_size)
  pub send_tight :
      (a.send_buffer_size ≡ h.receive_buffer_size) ⊎ (a.send_buffer_size ≡ s.send_buffer_size)
  pub message_size : a.max_message_size ≡ s.max_message_size
  pub chunk_count : a.max_chunk_count ≡ s.max_chunk_count

-- What the two fields of an answer may hold: one of them, and what it says.
abbrev pub Answers :
    HelloMessage → TransportLimits → Option AcknowledgeMessage → Option ErrorMessage → Type 0
Answers h s none (some e) =
    (e.full_code ≡ bad_full_code) × ((h.receive_buffer_size ≡ 0) ⊎ (h.send_buffer_size ≡ 0))
Answers h s (some a) none = IsAgreed h s a × (0 < h.receive_buffer_size) × (0 < h.send_buffer_size)
Answers h s _ _ = ⊥

-- The answer to a Hello holds either an error or an acknowledgement. An error is Bad, and one of the
-- client's buffers is zero. An acknowledgement comes where both are positive: its version and buffers
-- fit both sides, each buffer is that of one of the sides, and its limits on messages are the server's.
pub negotiate_hello-Answers :
    (h : HelloMessage) (s : TransportLimits)
    → Answers h s (negotiate_hello h s).acknowledge (negotiate_hello h s).error
unfolding negotiate_hello
negotiate_hello-Answers h s =
    elim (Bool-cases (h.receive_buffer_size == 0 || h.send_buffer_size == 0)) [
      | inl e ↦ rw e (ground arith)
      | inr e ↦ rw e (ground arith)
    ]
