-- ===== src/Manager/Activation.antt =====
-- ActivateSession. The authenticator is awaited, and other operations may run before it answers: what
-- comes before the wait is `begin_activation`, and what follows it `finish_activation`.
use opcuapp.Base.{
  ℕ, Bool, true, false, not, ◌&&◌, ◌||◌, Option, none, some, List, [], ◌∷◌, ◌++◌, is_empty,
  if◌then◌else◌,
}
use opcuapp.Base.Keyed.{find, assign}
use opcuapp.Types.Status.{
  good, of_code, bad_session_id_invalid, bad_application_signature_invalid,
  bad_identity_token_rejected, bad_user_is_already_logged_on,
}
use opcuapp.Types.Variant.{Doubles}
use opcuapp.Types.Duration.{add_duration}
use opcuapp.Types.NodeId.{NodeId, null}
use opcuapp.Manager.State.{
  Context, ServerSessionManager, SessionState, AuthenticationResult, ServiceContext,
  default_context, node_key, SessionAuditKind, activate_success, activate_failure,
  prune_expired_sessions, remove_sessions_by_user, has_attached_session_for_user,
}
use opcuapp.Manager.Password.{recover_encrypted_password}

pub record ActivateSessionRequest : Type 0 where
  pub authentication_token : NodeId
  pub user_name : Option (List ℕ)
  pub password : Option (List ℕ)
  pub delete_existing : Bool
  pub allow_anonymous : Bool
  pub channel_secure : Bool
  pub client_signature : List ℕ
  pub encrypted_password : List ℕ
  pub password_encryption_algorithm : List ℕ
  pub peer : List ℕ

pub record ActivateSessionResponse : Type 0 where
  pub status : ℕ
  pub service_context : ServiceContext
  pub authentication_result : Option AuthenticationResult
  pub resumed : Bool

abbrev pub refused : ℕ → ActivateSessionResponse
refused status = record {
  status = status;
  service_context = default_context;
  authentication_result = none;
  resumed = false;
}

unfoldable pub verify_application_signature : Context → List ℕ → List ℕ → List ℕ → Bool
verify_application_signature c client_certificate server_nonce signature =
    elim (c.load_der_certificate client_certificate) [
      | none ↦ false
      | some certificate ↦ elim (c.certificate_public_key certificate) [
        | none ↦ false
        | some public_key ↦
            c.rsa_pkcs1_sha256_verify public_key (c.server_certificate ++ server_nonce) signature
      ]
    ]

unfoldable pub is_signed : Context → SessionState → ActivateSessionRequest → Bool
unfolding verify_application_signature
is_signed c session request =
    is_empty session.client_certificate
    || (not (is_empty request.client_signature)
        && verify_application_signature c session.client_certificate session.server_nonce
            request.client_signature)

abbrev pub emit_session_audit :
    ServerSessionManager → SessionAuditKind → NodeId → NodeId → ℕ → List ℕ → ServerSessionManager
emit_session_audit m kind session_id user_id status peer = record m {
  audits =
      m.audits
      ++ record {
        kind = kind;
        session_id = session_id;
        user_id = user_id;
        status = status;
        peer = peer;
      }
        ∷ [];
}

-- How the part before the wait ends: with a response, without credentials to check, or with a user
-- name and a password for the authenticator.
pub data Begun : Type 0 where
  responded : ActivateSessionResponse → Begun
  anonymous : Begun
  authenticating : List ℕ → List ℕ → Begun

-- The password of the request, decrypted if it is encrypted; `none` where that failed.
unfoldable pub cleartext_password :
    Context → SessionState → ActivateSessionRequest → Option (Option (List ℕ))
unfolding recover_encrypted_password
cleartext_password c session request =
    if is_empty request.password_encryption_algorithm
    then some request.password
    else elim (recover_encrypted_password c.decrypt_user_token request.encrypted_password
        session.server_nonce) [
          | none ↦ none
          | some password ↦ some (some (c.to_localized_text password))
        ]

-- The checks on the credentials of a session that is not active yet.
unfoldable pub check_credentials :
    Context
    → ServerSessionManager
    → SessionState
    → ActivateSessionRequest
    → ServerSessionManager × Begun
unfolding cleartext_password
check_credentials c m session request =
    let refusal = of_code bad_identity_token_rejected in
    let failed =
      emit_session_audit m activate_failure session.session_id null refusal request.peer in
    if request.allow_anonymous
    then (m, anonymous)
    else if c.require_encryption_for_password
        && (not request.channel_secure && is_empty request.password_encryption_algorithm)
    then (failed, responded (refused refusal))
    else elim (cleartext_password c session request) [
      | none ↦ (m, responded (refused refusal))
      | some none ↦ (failed, responded (refused refusal))
      | some (some password) ↦ elim request.user_name [
        | none ↦ (failed, responded (refused refusal))
        | some user_name ↦ (m, authenticating user_name password)
      ]
    ]

-- An active session is attached again, to the connection of the request.
unfoldable pub resume_session :
    Doubles
    → ServerSessionManager
    → SessionState
    → ActivateSessionRequest
    → ℕ
    → ServerSessionManager × Begun
resume_session d m session request now =
    let resumed : SessionState = record session {
      attached = true;
      expires_at = add_duration d now session.revised_timeout;
      peer = request.peer;
      service_context = record session.service_context { peer = request.peer };
    } in
    (
      record m { sessions = assign request.authentication_token resumed m.sessions },
      responded (record {
        status = good;
        service_context = resumed.service_context;
        authentication_result = resumed.authentication_result;
        resumed = true;
      }),
    )

unfoldable pub begin_activation :
    Context → ServerSessionManager → ActivateSessionRequest → ℕ → ServerSessionManager × Begun
unfolding prune_expired_sessions is_signed resume_session check_credentials
begin_activation c m request now =
    let m = prune_expired_sessions m now in
    elim (find request.authentication_token m.sessions) [
      | none ↦ (m, responded (refused (of_code bad_session_id_invalid)))
      | some session ↦
          if not (is_signed c session request)
          then (m, responded (refused (of_code bad_application_signature_invalid)))
          else if session.activated
          then resume_session c.doubles m session request now
          else check_credentials c m session request
    ]

-- The session as it is once it is active.
abbrev pub activate :
    Doubles → SessionState → Option AuthenticationResult → ActivateSessionRequest → ℕ → SessionState
activate d session none request now = record session {
  service_context = record default_context { peer = request.peer };
  peer = request.peer;
  activated = true;
  attached = true;
  expires_at = add_duration d now session.revised_timeout;
}
activate d session (some result) request now = record session {
  authentication_result = some result;
  service_context = record {
    user_id = result.user_id;
    user_rights = result.user_rights;
    peer = request.peer;
  };
  peer = request.peer;
  activated = true;
  attached = true;
  expires_at = add_duration d now session.revised_timeout;
}

abbrev pub user_of : Option AuthenticationResult → NodeId
user_of none = null
user_of (some result) = result.user_id

-- From where the session is found again, after the wait.
unfoldable pub complete_activation :
    Doubles
    → ServerSessionManager
    → ActivateSessionRequest
    → Option AuthenticationResult
    → ℕ
    → ServerSessionManager × ActivateSessionResponse
complete_activation d m request auth_result now =
    elim (find request.authentication_token m.sessions) [
      | none ↦ (m, refused (of_code bad_session_id_invalid))
      | some session ↦
          let active = activate d session auth_result request now in
          (
            emit_session_audit
                (record m { sessions = assign request.authentication_token active m.sessions })
                activate_success active.session_id (user_of auth_result) good active.peer,
            record {
              status = good;
              service_context = active.service_context;
              authentication_result = active.authentication_result;
              resumed = false;
            },
          )
    ]

-- What the authenticator answered: a result, or the Status of an error.
pub data Authenticated : Type 0 where
  accepted : AuthenticationResult → Authenticated
  rejected : ℕ → Authenticated

-- What follows the wait. `session_id` is the id that was read before it.
unfoldable pub finish_activation :
    Doubles
    → ServerSessionManager
    → NodeId
    → ActivateSessionRequest
    → Authenticated
    → ℕ
    → ServerSessionManager × ActivateSessionResponse
unfolding complete_activation has_attached_session_for_user remove_sessions_by_user
finish_activation d m session_id request (rejected status) now =
    (emit_session_audit m activate_failure session_id null status request.peer, refused status)
finish_activation d m session_id request (accepted result) now =
    let logged_on = of_code bad_user_is_already_logged_on in
    if result.multi_sessions
    then complete_activation d m request (some result) now
    else if has_attached_session_for_user m result.user_id && not request.delete_existing
    then (
      emit_session_audit m activate_failure session_id result.user_id logged_on request.peer,
      refused logged_on,
    )
    else complete_activation d (remove_sessions_by_user m result.user_id) request (some result) now
