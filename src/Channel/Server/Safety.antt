-- ===== src/Channel/Server/Safety.antt =====
-- Which frames a channel delivers to the services.
use opcuapp.Base.{
  sym, ap, ◌∙◌, ◌==◌, ◌&&◌, ◌||◌, guard, ◌>>◌, Bool-cases, inr, arith, ◌≢◌, inl, ◌⊎◌, Option-cases,
  if_known, option_known, ℕ, ◌≡◌, refl, Bool, true, false, Option, none, some, List, not,
  if◌then◌else◌,
}
use opcuapp.Types.Status.{status_known, ok, failed}
use opcuapp.Binary.Crypto.{Crypto}
use opcuapp.Binary.Protocol.{MessageType, secure_open, secure_message, secure_close, hello}
use opcuapp.Channel.Conversation.{
  decode_secure_conversation_message, security_policy_none, security_policy_basic256_sha256,
  SecureConversationMessage, whole_frame,
}
use opcuapp.Channel.Symmetric.{unseal}
use opcuapp.Channel.Symmetric.Authenticity.{IsSealed, unseal-IsSealed}
use opcuapp.Channel.Server.{
  same_bytes, close_result, Config, Draws, SecureChannel, Result, read_open_none, answer_open_none,
  handle_open_none, build_open_response, read_token_message, deliver, handle_secure_message,
}
use opcuapp.Channel.Server.Opening.{
  Accepted, accept_open, answer_open_secure, handle_open_secure, build_secure_open_response,
}
use opcuapp.Channel.Server.Dispatch.{
  handle_type, handle_open, handle_open_basic256, handle_frame, peek_policy, allows_none,
}

-- Where a delivered body came from: without keys, from a chunk under the channel's id and its token or
-- the one that the last renewal superseded; with keys, from a chunk that was sealed under the keys.
pub data Genuine {Certificate PrivateKey : Type 0} (crypto : Crypto Certificate PrivateKey)
    (frame : List ℕ) (channel : SecureChannel) (body : List ℕ) : Type 0 where
  under_token :
      (message : SecureConversationMessage) (token : ℕ)
      → channel.basic256_active ≡ false
      → decode_secure_conversation_message frame ≡ some message
      → message.secure_channel_id ≡ channel.channel_id
      → message.symmetric_security_header ≡ some token
      → (token ≡ channel.token_id)
        ⊎ ((token ≡ channel.previous_token_id) × (channel.previous_token_id ≢ 0))
      → message.body ≡ body
      → Genuine crypto frame channel body
  under_keys :
      channel.basic256_active ≡ true
      → IsSealed crypto channel.inbound_keys channel.channel_id channel.token_id frame body
      → Genuine crypto frame channel body

token_cases :
    (token current previous : ℕ)
    → (token == current || (not (previous == 0) && token == previous)) ≡ true
    → (token ≡ current) ⊎ ((token ≡ previous) × (previous ≢ 0))
token_cases token current previous e = elim (Bool-cases (token == current)) [
  | inl f ↦ inl (ground (arith, f))
  | inr f ↦ inr (ground (arith, e, f), λ g. ground (arith, e, f, g))
]

guards_known :
    (a b : Bool) (m message : SecureConversationMessage)
    → (do guard a; guard b; some m) ≡ some message
    → (a ≡ true) × (b ≡ true) × (m ≡ message)
guards_known true true m message e = (refl, refl, cc e)
guards_known true false m message e = absurd (cc e)
guards_known false b m message e = absurd (cc e)

read_token_message_guards :
    (frame : List ℕ) (channel : SecureChannel) (m : SecureConversationMessage) (token : ℕ)
    → decode_secure_conversation_message frame ≡ some m
    → m.symmetric_security_header ≡ some token
    → read_token_message frame channel ≡ (do
      guard (m.secure_channel_id == channel.channel_id)
      guard (
          token == channel.token_id
          || (not (channel.previous_token_id == 0) && token == channel.previous_token_id))
      some m)
unfolding read_token_message
read_token_message_guards frame channel m token f g = rw (read_token_message, f, g)

read_token_message_header :
    (frame : List ℕ) (channel : SecureChannel) (m message : SecureConversationMessage)
    → decode_secure_conversation_message frame ≡ some m
    → m.symmetric_security_header ≡ none
    → read_token_message frame channel ≡ some message
    → ⊥
unfolding read_token_message
read_token_message_header frame channel m message f g =
    elim (Bool-cases (m.secure_channel_id == channel.channel_id)) [
      | inl h ↦ λ e. cc (rw (read_token_message, f, g, h) at e)
      | inr h ↦ λ e. cc (rw (read_token_message, f, h) at e)
    ]

read_token_message_decoded :
    (frame : List ℕ) (channel : SecureChannel) (message : SecureConversationMessage)
    → decode_secure_conversation_message frame ≡ none
    → read_token_message frame channel ≡ some message
    → ⊥
unfolding read_token_message
read_token_message_decoded frame channel message f e = cc (rw (read_token_message, f) at e)

read_token_message_known :
    {Certificate PrivateKey : Type 0} (crypto : Crypto Certificate PrivateKey) (frame : List ℕ)
    (channel : SecureChannel) (message : SecureConversationMessage) (body : List ℕ)
    → channel.basic256_active ≡ false
    → read_token_message frame channel ≡ some message
    → message.body ≡ body
    → Genuine crypto frame channel body
read_token_message_known crypto frame channel message body inactive e same =
    elim (Option-cases (decode_secure_conversation_message frame)) [
      | inl f ↦ absurd (read_token_message_decoded frame channel message f e)
      | inr (m, f) ↦ elim (Option-cases m.symmetric_security_header) [
        | inl g ↦ absurd (read_token_message_header frame channel m message f g e)
        | inr (token, g) ↦
            let (named, live, read) =
              guards_known _ _ m message
                (sym (read_token_message_guards frame channel m token f g) ∙ e) in
            under_token m token inactive f (ground (arith, named)) g
              (token_cases token channel.token_id channel.previous_token_id live)
              (ap (λ x. x.body) read ∙ same)
      ]
    ]

-- The result delivers nothing.
abbrev Silent : SecureChannel × Result → Type 0
Silent outcome = outcome.1.service_payload ≡ none

not-true : (b : Bool) → not b ≡ true → b ≡ false
not-true true e = cc
not-true false e = refl

not-false : (b : Bool) → not b ≡ false → b ≡ true
not-false true e = refl
not-false false e = cc

handle_open_none-Silent :
    (draws : Draws) (frame : List ℕ) (channel : SecureChannel)
    → Silent (handle_open_none draws frame channel)
unfolding handle_open_none answer_open_none build_open_response
handle_open_none-Silent draws frame channel =
    option_known Silent (read_open_none frame) (channel, close_result)
      (λ (message, request). answer_open_none draws message request channel) (λ _. refl)
      (λ _ _. refl)

module _ {Certificate PrivateKey : Type 0} (crypto : Crypto Certificate PrivateKey) where
  answer_open_secure-Silent :
      (config : Config PrivateKey) (draws : Draws) (accepted : Accepted PrivateKey)
      (channel : SecureChannel)
      → Silent (answer_open_secure crypto config draws accepted channel)
  unfolding answer_open_secure build_secure_open_response
  answer_open_secure-Silent config draws accepted channel =
      status_known Silent _ _ _ (λ _ _. refl) (λ _ _. refl)

  handle_open_secure-Silent :
      (config : Config PrivateKey) (draws : Draws) (frame : List ℕ) (channel : SecureChannel)
      → Silent (handle_open_secure crypto config draws frame channel)
  unfolding handle_open_secure
  handle_open_secure-Silent config draws frame channel =
      status_known Silent (accept_open crypto config draws frame) (λ _. (channel, close_result))
        (λ accepted. answer_open_secure crypto config draws accepted channel) (λ _ _. refl)
        (λ accepted _. answer_open_secure-Silent config draws accepted channel)

  handle_open_basic256-Silent :
      (config : Option (Config PrivateKey)) (draws : Draws) (frame : List ℕ)
      (channel : SecureChannel)
      → Silent (handle_open_basic256 crypto config draws frame channel)
  unfolding handle_open_basic256
  handle_open_basic256-Silent none draws frame channel = refl
  handle_open_basic256-Silent (some config) draws frame channel =
      if_known Silent _ _ _ (λ _. handle_open_secure-Silent config draws frame channel) (λ _. refl)

  handle_open-Silent :
      (config : Option (Config PrivateKey)) (draws : Draws) (frame : List ℕ)
      (channel : SecureChannel)
      → Silent (handle_open crypto config draws frame channel)
  unfolding handle_open
  handle_open-Silent config draws frame channel =
      let closed : SecureChannel × Result = (channel, close_result) in
      let plain = handle_open_none draws frame channel in
      let allowed = if allows_none config then plain else closed in
      let keyed = handle_open_basic256 crypto config draws frame channel in
      let secured : List ℕ → SecureChannel × Result =
        λ policy. if same_bytes policy security_policy_basic256_sha256 then keyed else closed in
      option_known Silent (peek_policy frame) closed
        (λ policy. if same_bytes policy security_policy_none then allowed else secured policy)
        (λ _. refl)
        (λ policy _.
          if_known Silent (same_bytes policy security_policy_none) allowed (secured policy)
            (λ _.
              if_known Silent (allows_none config) plain closed
                (λ _. handle_open_none-Silent draws frame channel) (λ _. refl))
            (λ _.
              if_known Silent (same_bytes policy security_policy_basic256_sha256) keyed closed
                (λ _. handle_open_basic256-Silent config draws frame channel) (λ _. refl)))

  -- What a delivered payload says of a call's outcome.
  abbrev Sound : List ℕ → SecureChannel → List ℕ → SecureChannel × Result → Type 0
  Sound frame channel body outcome =
      outcome.1.service_payload ≡ some body
      → (channel.opened ≡ true) × (outcome.0 ≡ channel) × Genuine crypto frame channel body

  deliver-Sound :
      (frame : List ℕ) (is_close : Bool) (r : ℕ) (text body : List ℕ) (channel : SecureChannel)
      → channel.opened ≡ true
      → (text ≡ body → Genuine crypto frame channel body)
      → Sound frame channel body (deliver is_close r text channel)
  unfolding deliver
  deliver-Sound frame true r text body channel opened source e = absurd (cc e)
  deliver-Sound frame false r text body channel opened source e = (opened, refl, source (cc e))

  handle_secure_message-Sound :
      (frame : List ℕ) (is_close : Bool) (channel : SecureChannel) (body : List ℕ)
      → Sound frame channel body (handle_secure_message crypto frame is_close channel)
  unfolding handle_secure_message
  handle_secure_message-Sound frame is_close channel body =
      let closed : SecureChannel × Result = (channel, close_result) in
      let from_plain : SecureConversationMessage → SecureChannel × Result =
        λ message. deliver is_close message.sequence_header.request_id message.body channel in
      let from_keys : ℕ × List ℕ → SecureChannel × Result =
        λ opened. deliver is_close opened.0 opened.1 channel in
      let plain : SecureChannel × Result = elim (read_token_message frame channel) [
        | none ↦ closed
        | some message ↦ from_plain message
      ] in
      let keyed : SecureChannel × Result =
        elim (unseal crypto channel.inbound_keys channel.channel_id channel.token_id frame) [
          | failed status ↦ closed
          | ok opened ↦ from_keys opened
        ] in
      let P = Sound frame channel body in
      if_known P (not channel.opened) closed (if not channel.basic256_active then plain else keyed)
        (λ _ e. absurd (cc e))
        (λ opened.
          if_known P (not channel.basic256_active) plain keyed
            (λ inactive.
              option_known P (read_token_message frame channel) closed from_plain
                (λ _ e. absurd (cc e))
                (λ message f.
                  deliver-Sound frame is_close _ message.body body channel
                    (not-false channel.opened opened)
                    (λ same.
                      read_token_message_known crypto frame channel message body
                        (not-true channel.basic256_active inactive) f same)))
            (λ active.
              status_known P
                (unseal crypto channel.inbound_keys channel.channel_id channel.token_id frame)
                (λ _. closed) from_keys (λ _ _ e. absurd (cc e))
                (λ (r, text) f.
                  deliver-Sound frame is_close r text body channel (not-false channel.opened opened)
                    (λ same. under_keys (not-false channel.basic256_active active) (
                      rw same at (
                        unseal-IsSealed crypto channel.inbound_keys channel.channel_id
                          channel.token_id frame r text f))))))

  handle_type-Sound :
      (t : MessageType) (config : Option (Config PrivateKey)) (draws : Draws) (frame : List ℕ)
      (channel : SecureChannel) (body : List ℕ)
      → Sound frame channel body (handle_type crypto t config draws frame channel)
  unfolding handle_type
  handle_type-Sound secure_open config draws frame channel body e =
      absurd (cc (e, handle_open-Silent config draws frame channel))
  handle_type-Sound secure_message config draws frame channel body e =
      handle_secure_message-Sound frame false channel body e
  handle_type-Sound secure_close config draws frame channel body e =
      handle_secure_message-Sound frame true channel body e
  handle_type-Sound hello config draws frame channel body e = absurd (cc e)
  handle_type-Sound _ config draws frame channel body e = absurd (cc e)

-- A frame whose handling delivers a body to the services came to an open channel, which it left as it
-- was, and the body is genuine. Without keys it is the body of a chunk under the channel's id and its
-- token or the one that the last renewal superseded. With keys the frame names the channel and its
-- token, and the ciphertext decrypts to two words, the body, the padding that the last byte counts, and
-- the tag of the header and of all that stands before the tag.
pub handle_frame-Genuine :
    {Certificate PrivateKey : Type 0} (crypto : Crypto Certificate PrivateKey)
    (config : Option (Config PrivateKey)) (draws : Draws) (frame : List ℕ) (channel : SecureChannel)
    (body : List ℕ)
    → (handle_frame crypto config draws frame channel).1.service_payload ≡ some body
    → (channel.opened ≡ true)
      × ((handle_frame crypto config draws frame channel).0 ≡ channel)
      × Genuine crypto frame channel body
unfolding handle_frame
handle_frame-Genuine crypto config draws frame channel body =
    option_known (Sound crypto frame channel body) (whole_frame frame) (channel, close_result)
      (λ header. handle_type crypto header.message_type config draws frame channel)
      (λ _ e. absurd (cc e))
      (λ header _. handle_type-Sound crypto header.message_type config draws frame channel body)
