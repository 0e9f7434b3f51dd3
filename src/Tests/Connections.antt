-- ===== src/Tests/Connections.antt =====
-- The theorems on the connection's messages at concrete inputs.
use opcuapp.Base.{◌≡◌, refl, none, some, [], ◌∷◌, ◌++◌, arith, codes}
use opcuapp.Binary.Codec.{encode_string, decode_string}
use opcuapp.Binary.Codec.RoundTrip.{decode-encode_string}
use opcuapp.Binary.Protocol.{
  HelloMessage, AcknowledgeMessage, ErrorMessage, TransportLimits, FrameHeader, hello,
  secure_message, encode_with_header, open_frame, decode_hello_message, encode_hello_message,
  negotiate_hello,
}
use opcuapp.Binary.Protocol.Frames.{open_frame-encode}
use opcuapp.Binary.Protocol.Messages.{decode-encode_hello_message}
use opcuapp.Binary.Protocol.Negotiation.{Answers, negotiate_hello-Answers}

abbrev greeting : HelloMessage
greeting = record {
  protocol_version = 0;
  receive_buffer_size = 65536;
  send_buffer_size = 8192;
  max_message_size = 0;
  max_chunk_count = 0;
  endpoint_url = codes "opc.tcp://plant:4840";
}

abbrev limits : TransportLimits
limits = record {
  protocol_version = 0;
  receive_buffer_size = 65535;
  send_buffer_size = 65535;
  max_message_size = 1000000;
  max_chunk_count = 16;
}

abbrev answer : AcknowledgeMessage
answer = record {
  protocol_version = 0;
  receive_buffer_size = 8192;
  send_buffer_size = 65535;
  max_message_size = 1000000;
  max_chunk_count = 16;
}

abbrev failure : ErrorMessage
failure = record { full_code = 0x8000_0000; reason = codes "no" }

abbrev header : FrameHeader
header = record { message_type = secure_message; chunk_type = b'C'; message_size = 8192 }

decode-encode_string_example :
    decode_string (encode_string [] (codes "ua") ++ 1 ∷ []) ≡ some (codes "ua", 1 ∷ [])
decode-encode_string_example = decode-encode_string (codes "ua") (1 ∷ []) (omega arith)

open_frame-encode_example :
    open_frame hello (encode_with_header hello (λ bytes. bytes ++ 7 ∷ 8 ∷ []) ++ 9 ∷ []) ≡ none
open_frame-encode_example =
    open_frame-encode hello (λ bytes. bytes ++ 7 ∷ 8 ∷ []) (9 ∷ []) (λ bytes. refl) (omega arith)

decode-encode_hello_message_example :
    decode_hello_message (encode_hello_message greeting ++ []) ≡ some greeting
decode-encode_hello_message_example = decode-encode_hello_message greeting [] (record {
  protocol_version = omega arith;
  receive_buffer_size = omega arith;
  send_buffer_size = omega arith;
  max_message_size = omega arith;
  max_chunk_count = omega arith;
  endpoint_url = omega arith;
})

negotiate_hello-Answers_example :
    Answers greeting limits
      (negotiate_hello greeting limits).acknowledge
      (negotiate_hello greeting limits).error
negotiate_hello-Answers_example = negotiate_hello-Answers greeting limits

negotiates : (negotiate_hello greeting limits).acknowledge ≡ some answer
unfolding negotiate_hello
negotiates = refl
