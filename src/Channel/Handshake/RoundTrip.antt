-- ===== src/Channel/Handshake/RoundTrip.antt =====
-- The bodies of the channel's services are read back as they were written.
use mathlib.Core.List.{append-nil, append_assoc}
use opcuapp.Base.{
  if◌then◌else◌, ◌==◌, refl, ℕ, ◌^◌, ◌<◌, ◌≡◌, some, List, [], ◌∷◌, ◌++◌, arith, length, ap, ◌∙◌,
}
use opcuapp.Types.Status.{severity}
use opcuapp.Binary.Codec.{decode_string, encode_uint32, encode_uint64, encode_string, encode_uint8}
use opcuapp.Binary.Codec.RoundTrip.{word_bytes, decode-encode_string}
use opcuapp.Binary.Bodies.{append_message, decode_extension_object, read_message-append_message}
use opcuapp.Binary.Identifiers.{decode_node_id, encode_node_id}
use opcuapp.Channel.Handshake.{
  open_response_encoding_id, open_request_encoding_id, close_request_encoding_id, RequestHeader,
  ResponseHeader, OpenSecureChannelRequest, OpenSecureChannelResponse, append_request_header,
  read_request_header, append_response_header, read_response_header, encode_open_request,
  decode_open_request, encode_open_response, decode_open_response, encode_close_request,
  decode_close_request,
}

pub record IsWireRequestHeader (h : RequestHeader) : Type 0 where
  pub request_handle : h.request_handle < 2 ^ 32
  pub return_diagnostics : h.return_diagnostics < 2 ^ 32
  pub audit_entry_id : length h.audit_entry_id < 2 ^ 31
  pub timeout_hint : h.timeout_hint < 2 ^ 32

-- What stands before and behind the audit entry of a request header.
abbrev hint_front : RequestHeader → List ℕ
hint_front h =
    0
    ∷ 0
    ∷ (encode_uint64 [] 0
        ++ (encode_uint32 [] h.request_handle ++ encode_uint32 [] h.return_diagnostics))

-- What stands behind the audit entry.
abbrev hint_tail : RequestHeader → List ℕ → List ℕ
hint_tail h rest = encode_uint32 [] h.timeout_hint ++ 0 ∷ 0 ∷ 0 ∷ rest

append_request_header-parts :
    (h : RequestHeader) (rest : List ℕ)
    → append_request_header [] h ++ rest
      ≡ hint_front h ++ (encode_string [] h.audit_entry_id ++ hint_tail h rest)
unfolding append_request_header encode_node_id encode_uint8 encode_uint32 encode_uint64
    encode_string
append_request_header-parts h rest = simp append_assoc

read_request_header-parts :
    (h : RequestHeader) (rest : List ℕ)
    → IsWireRequestHeader h
    → decode_string (encode_string [] h.audit_entry_id ++ hint_tail h rest)
      ≡ some (h.audit_entry_id, hint_tail h rest)
    → read_request_header (hint_front h ++ (encode_string [] h.audit_entry_id ++ hint_tail h rest))
      ≡ some (h, rest)
unfolding read_request_header decode_node_id decode_extension_object encode_uint32 encode_uint64
read_request_header-parts h rest w e = rw (
  e,
  word_bytes _ w.request_handle,
  word_bytes _ w.return_diagnostics,
  word_bytes _ w.timeout_hint,
)

read-append_request_header :
    (h : RequestHeader) (rest : List ℕ)
    → IsWireRequestHeader h
    → read_request_header (append_request_header [] h ++ rest) ≡ some (h, rest)
read-append_request_header h rest w =
    ap read_request_header (append_request_header-parts h rest)
    ∙ read_request_header-parts h rest w
        (decode-encode_string h.audit_entry_id (hint_tail h rest) w.audit_entry_id)

pub record IsWireOpenRequest (q : OpenSecureChannelRequest) : Type 0 where
  pub request_header : IsWireRequestHeader q.request_header
  pub client_protocol_version : q.client_protocol_version < 2 ^ 32
  pub request_type : q.request_type < 2 ^ 32
  pub security_mode : q.security_mode < 2 ^ 32
  pub client_nonce : length q.client_nonce < 2 ^ 31
  pub requested_lifetime : q.requested_lifetime < 2 ^ 32

-- What stands behind the header of an OpenSecureChannel request.
abbrev request_words : OpenSecureChannelRequest → List ℕ
request_words q =
    encode_uint32 [] q.client_protocol_version
    ++ (encode_uint32 [] q.request_type ++ encode_uint32 [] q.security_mode)

abbrev open_request_payload : OpenSecureChannelRequest → List ℕ
open_request_payload q =
    append_request_header [] q.request_header
    ++ (request_words q
        ++ (encode_string [] q.client_nonce ++ encode_uint32 [] q.requested_lifetime))

encode_open_request-parts :
    (q : OpenSecureChannelRequest)
    → encode_open_request q ≡ append_message [] open_request_encoding_id (open_request_payload q)
unfolding encode_open_request encode_uint32 encode_string
encode_open_request-parts q = ap (append_message [] open_request_encoding_id) (simp append_assoc)

decode_open_request-parts :
    (q : OpenSecureChannelRequest)
    → IsWireOpenRequest q
    → read_request_header (open_request_payload q)
      ≡ some (
        q.request_header,
        request_words q
            ++ (encode_string [] q.client_nonce ++ encode_uint32 [] q.requested_lifetime),
      )
    → decode_string (encode_string [] q.client_nonce ++ encode_uint32 [] q.requested_lifetime)
      ≡ some (q.client_nonce, encode_uint32 [] q.requested_lifetime)
    → decode_open_request (append_message [] open_request_encoding_id (open_request_payload q))
      ≡ some q
unfolding decode_open_request encode_uint32
decode_open_request-parts q w e f =
    rw
      (
        read_message-append_message open_request_encoding_id (open_request_payload q) (omega arith),
        e,
      )
      (rw (
        f,
        word_bytes _ w.client_protocol_version,
        word_bytes _ w.request_type,
        word_bytes _ w.security_mode,
        word_bytes _ w.requested_lifetime,
      ))

-- An OpenSecureChannel request with fields that fit the wire is read back as it was written.
pub decode-encode_open_request :
    (q : OpenSecureChannelRequest)
    → IsWireOpenRequest q
    → decode_open_request (encode_open_request q) ≡ some q
decode-encode_open_request q w =
    ap decode_open_request (encode_open_request-parts q)
    ∙ decode_open_request-parts q w (read-append_request_header q.request_header _ w.request_header)
        (decode-encode_string q.client_nonce _ w.client_nonce)

encode_close_request-parts :
    (h : RequestHeader)
    → encode_close_request h
      ≡ append_message [] close_request_encoding_id (append_request_header [] h)
unfolding encode_close_request
encode_close_request-parts h = refl

decode_close_request-parts :
    (h : RequestHeader)
    → read_request_header (append_request_header [] h) ≡ some (h, [])
    → decode_close_request
        (append_message [] close_request_encoding_id (append_request_header [] h))
      ≡ some h
unfolding decode_close_request
decode_close_request-parts h e = rw (
  read_message-append_message close_request_encoding_id (append_request_header [] h) (omega arith),
  e,
)

-- A CloseSecureChannel request with a header that fits the wire is read back as it was written.
pub decode-encode_close_request :
    (h : RequestHeader)
    → IsWireRequestHeader h
    → decode_close_request (encode_close_request h) ≡ some h
decode-encode_close_request h w =
    ap decode_close_request (encode_close_request-parts h)
    ∙ decode_close_request-parts h (rw append-nil at (read-append_request_header h [] w))

pub record IsWireOpenResponse (p : OpenSecureChannelResponse) : Type 0 where
  pub request_handle : p.response_header.request_handle < 2 ^ 32
  pub server_protocol_version : p.server_protocol_version < 2 ^ 32
  pub channel_id : p.security_token.channel_id < 2 ^ 32
  pub token_id : p.security_token.token_id < 2 ^ 32
  pub created_at : p.security_token.created_at < 2 ^ 64
  pub revised_lifetime : p.security_token.revised_lifetime < 2 ^ 32
  pub server_nonce : length p.server_nonce < 2 ^ 31

-- The result that arrives: Good, or else Bad.
abbrev sent_result : ℕ → ℕ
sent_result status = if severity status == 0 then 0 else 0x80000000

read-append_response_header :
    (h : ResponseHeader) (rest : List ℕ)
    → h.request_handle < 2 ^ 32
    → read_response_header (append_response_header [] h ++ rest)
      ≡ some (record h { service_result = sent_result h.service_result }, rest)
unfolding read_response_header append_response_header encode_node_id decode_node_id
    decode_extension_object
read-append_response_header h rest w = rw (word_bytes _ w) (ground arith)

abbrev response_words : OpenSecureChannelResponse → List ℕ
response_words p =
    encode_uint32 [] p.server_protocol_version
    ++ (encode_uint32 [] p.security_token.channel_id
        ++ (encode_uint32 [] p.security_token.token_id
            ++ (encode_uint64 [] p.security_token.created_at
                ++ encode_uint32 [] p.security_token.revised_lifetime)))

abbrev open_response_payload : OpenSecureChannelResponse → List ℕ
open_response_payload p =
    append_response_header [] p.response_header
    ++ (response_words p ++ encode_string [] p.server_nonce)

encode_open_response-parts :
    (p : OpenSecureChannelResponse)
    → encode_open_response p ≡ append_message [] open_response_encoding_id (open_response_payload p)
unfolding encode_open_response encode_uint32 encode_uint64 encode_string
encode_open_response-parts p = ap (append_message [] open_response_encoding_id) (simp append_assoc)

decode_open_response-parts :
    (p : OpenSecureChannelResponse)
    → IsWireOpenResponse p
    → read_response_header (open_response_payload p)
      ≡ some (
        record p.response_header { service_result = sent_result p.response_header.service_result },
        response_words p ++ encode_string [] p.server_nonce,
      )
    → decode_string (encode_string [] p.server_nonce) ≡ some (p.server_nonce, [])
    → decode_open_response (append_message [] open_response_encoding_id (open_response_payload p))
      ≡ some (record p {
        response_header = record p.response_header {
          service_result = sent_result p.response_header.service_result;
        };
      })
unfolding decode_open_response encode_uint32 encode_uint64
decode_open_response-parts p w e f =
    rw
      (
        read_message-append_message open_response_encoding_id (open_response_payload p)
            (omega arith),
        e,
      )
      (rw
        (
          f,
          word_bytes _ w.server_protocol_version,
          word_bytes _ w.channel_id,
          word_bytes _ w.token_id,
          word_bytes _ w.revised_lifetime,
        )
        (ground (arith, w.created_at)))

-- An OpenSecureChannel response with fields that fit the wire is read back as it was written, but
-- for a service result that is not good, which arrives as Bad.
pub decode-encode_open_response :
    (p : OpenSecureChannelResponse)
    → IsWireOpenResponse p
    → decode_open_response (encode_open_response p)
      ≡ some (record p {
        response_header = record p.response_header {
          service_result =
              (if severity p.response_header.service_result == 0 then 0 else 0x80000000);
        };
      })
decode-encode_open_response p w =
    ap decode_open_response (encode_open_response-parts p)
    ∙ decode_open_response-parts p w
        (read-append_response_header p.response_header _ w.request_handle)
        (rw append-nil at (decode-encode_string p.server_nonce [] w.server_nonce))
