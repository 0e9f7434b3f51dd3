-- ===== src/Lib.antt =====
-- A verification library for opcuapp, an OPC UA stack in C++. It models the messages that open a
-- binary connection, the secure channel that carries the services' requests and responses, and the
-- part of the server that keeps subscriptions and sessions.
--
-- The program's parts and how they meet. A connection starts with the messages of
-- opcua/transport/binary/protocol.cpp, whose fields opcua/transport/binary/codec_utils.cpp encodes.
-- The secure channel (opcua/transport/binary/secure_channel.cpp on the server,
-- client_secure_channel.cpp on the client) opens with one more handshake and then delivers the
-- bodies of requests and responses, in the clear or under keys that
-- opcua/transport/binary/crypto.cpp derives. The session manager
-- (opcua/session/server_session_manager.cpp) creates, activates, expires and closes the sessions,
-- and the requests that follow are dispatched to a session. A session
-- (opcua/session/server_session.cpp) owns its subscriptions and its Browse continuation points, and
-- shares the publish responses between the subscriptions. A subscription
-- (opcua/session/server_subscription.cpp) owns its monitored items, binds them on a backing
-- subscription of the server's address space, queues the notifications that come back, and hands
-- them over when it publishes.
--
-- Base            lists, signed integers and the two maps over the native numbers, and the Boolean tests
-- Types           opcua/types/status.h, status_or.h, node_id.h, guid.h, variant.cpp, data_value.h and
--                 duration.cpp, and opcua/base/time_base.h
-- Message         opcua/message.h and opcua/monitored/monitored_item.h
-- Binary          opcua/transport/binary: Codec has the scalars and strings of codec_utils.cpp,
--                 Identifiers its Guid, NodeId and ExpandedNodeId, Bodies its DecodedExtensionObject,
--                 AppendMessage and ReadMessage, Crypto has PSha256 and DeriveBasic256Sha256Keys of
--                 crypto.cpp, and Protocol has protocol.h and protocol.cpp
-- Channel         secure_channel.h, secure_channel.cpp, client_secure_channel.h and
--                 client_secure_channel.cpp: Conversation has the frame of a message with its security
--                 and sequence headers, Handshake the bodies of the Open and Close services, Symmetric
--                 and Asymmetric the protected frames that the two ends build and read alike, Server
--                 (with Opening and Dispatch) the class SecureChannel, Client (with Security and
--                 Opening) the class ClientSecureChannel, Exchange a request from one end to the other,
--                 and Pairing the handshake between them
-- Subscription    opcua/session/server_subscription.h and server_subscription.cpp: State has the fields,
--                 the constructor and the publish cycle, Publishing has TryPublish, Acknowledge and
--                 Republish, Backing has StartBackingSubscription, AddBackingItems, RemoveBackingItem,
--                 CloseBackingSubscription and RebindItem, Items has the monitored item services, and
--                 Notifications has BindItem, OnBindResult, OnNotifications, OnSubscriptionError,
--                 PassesDeadband, the Queue functions and EnforceQueueLimit
-- Session         opcua/session/server_session.h and server_session.cpp: State has the fields and the
--                 subscription services, Publish has AcknowledgePublishRequest, PollPublish and Publish,
--                 Browse has StoreBrowseResults and BrowseNext
-- Manager         opcua/session/server_session_manager.h and server_session_manager.cpp: State has the
--                 fields, CreateSession, CloseSession, DetachSession, FindSession, PruneExpiredSessions and
--                 RemoveSessionsByUser, Password has RecoverEncryptedPassword, and Activation has
--                 ActivateSession, in two parts around the wait for the authenticator
-- Tests           runs at concrete inputs
--
-- How the state and the operations correspond to the code. A struct is a record with the source's
-- field names, an enum or a variant is a data type, and a member function is a function of the same
-- name that takes the object's record and returns the new one with the result. The loops of the
-- source run over containers and are structural recursions; two have a count: the key derivation is
-- given as many rounds as it has bytes to write, which is enough when a tag has a byte at least, and
-- the client's reading of a response counts down kMaxResponseChunks as the source does. A byte is a
-- number below 256, and a decoder is the span of bytes that is left. A Status is its 32-bit full
-- code, a StatusCode the upper 16 bits of one, and a StatusOr a value or a bad Status. A UInt32 that
-- is incremented wraps at 2 ^ 32, and a std::size_t that is added to or subtracted from at 2 ^ 64.
-- An enum that is cast from the wire without a check stays a number. A DateTime is its ticks of 100
-- nanoseconds, which are not negative, and a Duration a double of milliseconds: an elapsed time is a
-- difference of doubles, and a sum of a time and a duration is truncated and saturated, as in
-- duration.cpp. A double or a float is its bit pattern, and the arithmetic on doubles is the
-- parameter Doubles. An unordered_map is an association list whose order stands for the map's
-- iteration order. A weak pointer to an item is the item's id. What CoSpawn starts is recorded in
-- the order of the calls, and the tasks that it names are operations of their own, so that an
-- interleaving is a sequence of operations. The clock is read by the caller and passed as `now`;
-- Draws holds the clock and the nonces that one call of the secure channel draws. The cryptography
-- is the parameter Crypto, a record of the functions of crypto.h that call OpenSSL, and
-- IsSymmetricCipher states what the chunks rely on: decryption undoes encryption, the ciphertext is
-- as long as the text, and a tag has 32 bytes. The frames that a client's transport will give are a
-- list, and what it answers to the frame of a handshake is a function of the frame. The callback
-- that creates a backing subscription is a function from the number of the call to the error, if
-- any. The generated ua:: types have the fields that the services use, and a reference description
-- is a type parameter. The session manager's Context holds the cryptography and the decryption of
-- tokens as functions, the authenticator's answer is an argument of what follows the wait for it,
-- and what is handed to the two sinks of removed sessions and audit events is recorded in order.
--
-- What is not modelled: logging, tracing and metrics; the coroutine that reads the backing
-- subscription and calls the handlers of Notifications; the executor; the arrays, variants and data
-- values of the binary codec; the TCP and WebSocket transports, the JSON and service codecs, the
-- wrappers of OpenSSL, the trust store, the client's sessions and subscriptions, the event filter
-- and the address space.
pub mod Base
pub mod Types
pub mod Message
pub mod Binary
pub mod Channel
pub mod Subscription
pub mod Session
pub mod Manager
pub mod Tests
