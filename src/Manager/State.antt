-- ===== src/Manager/State.antt =====
-- The state of a ServerSessionManager, CreateSession, CloseSession, DetachSession, FindSession and
-- expiry. What is handed to on_session_removed and to on_audit_event is recorded in order. `Now()` and
-- the answer of GenerateNonce are arguments.
use opcuapp.Base.{
  ℕ, zero, suc, Bool, false, not, ◌&&◌, ◌||◌, Option, none, some, List, [], ◌∷◌, ◌++◌, leb,
  is_empty, if◌then◌else◌,
}
use opcuapp.Base.Keyed.{Key, find, assign, remove}
use opcuapp.Types.Status.{good, of_code, bad_session_id_invalid, bad_application_signature_invalid}
use opcuapp.Types.NodeId.{NodeId, null, numeric, same_node, same_node_iff, same_bytes}
use opcuapp.Types.Variant.{Doubles}
use opcuapp.Types.Duration.{is_zero, clamp, add_duration}
use opcuapp.Subscription.State.{next_uint32}

instance abbrev pub node_key : Key NodeId
node_key = record { same = same_node; same_iff = same_node_iff }

pub record AuthenticationResult : Type 0 where
  pub user_id : NodeId
  pub user_rights : ℕ
  pub multi_sessions : Bool

-- The fields that the manager sets; the others keep their defaults.
pub record ServiceContext : Type 0 where
  pub user_id : NodeId
  pub user_rights : ℕ
  pub peer : List ℕ

abbrev pub default_context : ServiceContext
default_context = record { user_id = null; user_rights = 0; peer = [] }

pub record SessionState : Type 0 where
  pub session_id : NodeId
  pub authentication_token : NodeId
  pub server_nonce : List ℕ
  pub client_certificate : List ℕ
  pub revised_timeout : ℕ
  pub expires_at : ℕ
  pub service_context : ServiceContext
  pub authentication_result : Option AuthenticationResult
  pub activated : Bool
  pub attached : Bool
  pub peer : List ℕ

pub data SessionAuditKind : Type 0 where
  activate_success activate_failure : SessionAuditKind

-- The message is left out: it is a text for people.
pub record SessionAuditEvent : Type 0 where
  pub kind : SessionAuditKind
  pub session_id : NodeId
  pub user_id : NodeId
  pub status : ℕ
  pub peer : List ℕ

-- What does not change: the settings, and the functions of the context. A loaded certificate and its
-- public key are handles of the cryptography.
pub record Context : Type 0 where
  pub doubles : Doubles
  pub server_certificate : List ℕ
  pub decrypt_user_token : Option (List ℕ → Option (List ℕ))
  pub require_encryption_for_password : Bool
  pub default_timeout : ℕ
  pub min_timeout : ℕ
  pub max_timeout : ℕ
  pub session_namespace_index : ℕ
  pub token_namespace_index : ℕ
  pub load_der_certificate : List ℕ → Option ℕ
  pub certificate_public_key : ℕ → Option ℕ
  pub rsa_pkcs1_sha256_verify : ℕ → List ℕ → List ℕ → Bool
  pub to_localized_text : List ℕ → List ℕ

pub record ServerSessionManager : Type 0 where
  pub sessions : List (NodeId × SessionState)
  pub next_session_id : ℕ
  pub next_token_id : ℕ
  pub removed : List NodeId
  pub audits : List SessionAuditEvent

pub record CreateSessionRequest : Type 0 where
  pub requested_timeout : ℕ
  pub client_certificate : List ℕ
  pub channel_secure : Bool
  pub channel_certificate : List ℕ
  pub peer : List ℕ

pub record CreateSessionResponse : Type 0 where
  pub status : ℕ
  pub session_id : NodeId
  pub authentication_token : NodeId
  pub server_nonce : List ℕ
  pub server_certificate : List ℕ
  pub revised_timeout : ℕ

pub record ServerSessionLookupResult : Type 0 where
  pub session_id : NodeId
  pub authentication_token : NodeId
  pub service_context : ServiceContext
  pub authentication_result : Option AuthenticationResult
  pub attached : Bool
  pub activated : Bool

-- `std::erase_if`: what is kept, and the tokens of what is not.
unfoldable pub erase_if :
    (SessionState → Bool)
    → List (NodeId × SessionState)
    → List (NodeId × SessionState) × List NodeId
erase_if gone [] = ([], [])
erase_if gone ((token, session) ∷ sessions) =
    let (kept, removed) = erase_if gone sessions in
    if gone session
    then (kept, session.authentication_token ∷ removed)
    else ((token, session) ∷ kept, removed)

abbrev pub is_expired : ℕ → SessionState → Bool
is_expired now session = leb session.expires_at now

unfoldable pub prune_expired_sessions : ServerSessionManager → ℕ → ServerSessionManager
unfolding erase_if
prune_expired_sessions m now =
    let (kept, removed) = erase_if (is_expired now) m.sessions in
    record m { sessions = kept; removed = m.removed ++ removed }

unfoldable pub revise_timeout : Context → ℕ → ℕ
unfolding is_zero clamp
revise_timeout c requested =
    if is_zero c.doubles requested
    then c.default_timeout
    else clamp c.doubles requested c.min_timeout c.max_timeout

-- 32 zero bytes, where no nonce could be generated.
abbrev pub zeros : ℕ → List ℕ
zeros zero = []
zeros (suc n) = 0 ∷ zeros n

abbrev pub make_server_nonce : Option (List ℕ) → List ℕ
make_server_nonce none = zeros 32
make_server_nonce (some nonce) = nonce

unfoldable pub create_session :
    Context
    → ServerSessionManager
    → CreateSessionRequest
    → Option (List ℕ)
    → ℕ
    → ServerSessionManager × CreateSessionResponse
unfolding prune_expired_sessions revise_timeout add_duration
create_session c m request nonce now =
    let m = prune_expired_sessions m now in
    let revised_timeout = revise_timeout c request.requested_timeout in
    let session_id : NodeId = record {
      identifier = numeric m.next_session_id;
      namespace_index = c.session_namespace_index;
    } in
    let authentication_token : NodeId = record {
      identifier = numeric m.next_token_id;
      namespace_index = c.token_namespace_index;
    } in
    let session : SessionState = record {
      session_id = session_id;
      authentication_token = authentication_token;
      server_nonce = make_server_nonce nonce;
      client_certificate = request.client_certificate;
      revised_timeout = revised_timeout;
      expires_at = add_duration c.doubles now revised_timeout;
      service_context = default_context;
      authentication_result = none;
      activated = false;
      attached = false;
      peer = request.peer;
    } in
    if request.channel_secure
      && (is_empty request.client_certificate
          || not (same_bytes request.client_certificate request.channel_certificate))
    then (
      m,
      record {
        status = of_code bad_application_signature_invalid;
        session_id = null;
        authentication_token = null;
        server_nonce = [];
        server_certificate = [];
        revised_timeout = 0;
      },
    )
    else (
      record m {
        sessions = assign authentication_token session m.sessions;
        next_session_id = next_uint32 m.next_session_id;
        next_token_id = next_uint32 m.next_token_id;
      },
      record {
        status = good;
        session_id = session_id;
        authentication_token = authentication_token;
        server_nonce = session.server_nonce;
        server_certificate = c.server_certificate;
        revised_timeout = revised_timeout;
      },
    )

-- CloseSession, with RemoveSessionByToken.
unfoldable pub close_session : ServerSessionManager → NodeId → ServerSessionManager × ℕ
close_session m token = elim (find token m.sessions) [
  | none ↦ (m, of_code bad_session_id_invalid)
  | some session ↦
      (record m { sessions = remove token m.sessions; removed = m.removed ++ token ∷ [] }, good)
]

unfoldable pub detach_session : ServerSessionManager → NodeId → ServerSessionManager
detach_session m token = elim (find token m.sessions) [
  | none ↦ m
  | some session ↦ record m {
    sessions = assign token (record session { attached = false }) m.sessions;
  }
]

unfoldable pub find_session : ServerSessionManager → NodeId → Option ServerSessionLookupResult
find_session m token = elim (find token m.sessions) [
  | none ↦ none
  | some session ↦ some (record {
    session_id = session.session_id;
    authentication_token = session.authentication_token;
    service_context = session.service_context;
    authentication_result = session.authentication_result;
    attached = session.attached;
    activated = session.activated;
  })
]

-- `user_id` is the user that a session was authenticated as.
abbrev pub is_session_of : NodeId → SessionState → Bool
is_session_of user_id session = elim session.authentication_result [
  | none ↦ false
  | some result ↦ same_node result.user_id user_id
]

unfoldable pub remove_sessions_by_user : ServerSessionManager → NodeId → ServerSessionManager
unfolding erase_if
remove_sessions_by_user m user_id =
    let (kept, removed) = erase_if (is_session_of user_id) m.sessions in
    record m { sessions = kept; removed = m.removed ++ removed }

unfoldable pub any_attached : NodeId → List (NodeId × SessionState) → Bool
any_attached user_id [] = false
any_attached user_id ((token, session) ∷ sessions) =
    session.attached && is_session_of user_id session || any_attached user_id sessions

unfoldable pub has_attached_session_for_user : ServerSessionManager → NodeId → Bool
unfolding any_attached
has_attached_session_for_user m user_id = any_attached user_id m.sessions
