-- ===== src/Tests/Managers.antt =====
-- The session manager's theorems at concrete inputs.
use opcuapp.Base.{
  ℕ, ◌≡◌, ◌↔◌, inl, refl, true, false, none, some, Option, List, [], ◌∷◌, ◌++◌, arith,
}
use opcuapp.Base.Keyed.{find, assign}
use opcuapp.Types.Status.{of_code, bad_user_is_already_logged_on}
use opcuapp.Types.NodeId.{NodeId, numeric, same_node, same_bytes}
use opcuapp.Binary.Codec.{encode_uint32}
use opcuapp.Types.Duration.{add_duration}
use opcuapp.Tests.Data.{doubles}
use opcuapp.Manager.State.{
  Context, ServerSessionManager, SessionState, AuthenticationResult, CreateSessionRequest,
  default_context, is_expired, erase_if, prune_expired_sessions, remove_sessions_by_user,
  close_session, find_session, create_session, has_attached_session_for_user, any_attached,
}
use opcuapp.Manager.Password.{recover_encrypted_password, recover_encrypted_password-encode}
use opcuapp.Manager.Activation.{
  ActivateSessionRequest, accepted, finish_activation, complete_activation,
}
use opcuapp.Manager.Removal.{Settled, prune_expired_sessions-Settled, find_session-close_session}
use opcuapp.Manager.Exclusive.{Served, finish_activation-Served, finish_activation_exclusive}
use opcuapp.Manager.Creation.{fresh, find_session-create_session}

abbrev token : ℕ → NodeId
token n = record { identifier = numeric n; namespace_index = 3 }

abbrev session_id : ℕ → NodeId
session_id n = record { identifier = numeric n; namespace_index = 2 }

abbrev user : NodeId
user = record { identifier = numeric 77; namespace_index = 5 }

abbrev result : AuthenticationResult
result = record { user_id = user; user_rights = 1; multi_sessions = false }

-- A session that was created and not activated.
abbrev created : SessionState
created = record {
  session_id = session_id 2;
  authentication_token = token 2;
  server_nonce = 1 ∷ 2 ∷ [];
  client_certificate = [];
  revised_timeout = 500;
  expires_at = 1000;
  service_context = default_context;
  authentication_result = none;
  activated = false;
  attached = false;
  peer = [];
}

-- A session that the user's client left behind.
abbrev detached : SessionState
detached = record created {
  session_id = session_id 1;
  authentication_token = token 1;
  authentication_result = some result;
  activated = true;
  expires_at = 400;
}

abbrev manager : ServerSessionManager
manager = record {
  sessions = (token 1, detached) ∷ (token 2, created) ∷ [];
  next_session_id = 3;
  next_token_id = 3;
  removed = [];
  audits = [];
}

abbrev context : Context
context = record {
  server_certificate = [];
  doubles = doubles;
  decrypt_user_token = none;
  require_encryption_for_password = true;
  default_timeout = 600;
  min_timeout = 30;
  max_timeout = 3600;
  session_namespace_index = 2;
  token_namespace_index = 3;
  load_der_certificate = λ bytes. none;
  certificate_public_key = λ certificate. none;
  rsa_pkcs1_sha256_verify = λ key signed signature. false;
  to_localized_text = λ text. text;
}

abbrev creation : CreateSessionRequest
creation = record {
  requested_timeout = 10;
  client_certificate = [];
  channel_secure = false;
  channel_certificate = [];
  peer = [];
}

abbrev activation : ActivateSessionRequest
activation = record {
  authentication_token = token 2;
  user_name = some (1 ∷ []);
  password = some (2 ∷ []);
  delete_existing = false;
  allow_anonymous = false;
  channel_secure = true;
  client_signature = [];
  encrypted_password = [];
  password_encryption_algorithm = [];
  peer = [];
}

-- What decrypts to the password 9 9 under the nonce 1 2.
abbrev decrypt : List ℕ → Option (List ℕ)
decrypt ciphertext = some (encode_uint32 [] 4 ++ ((9 ∷ 9 ∷ []) ++ ((1 ∷ 2 ∷ []) ++ (0 ∷ []))))

prune_expired_sessions-Settled_example :
    Settled (is_expired 500) (prune_expired_sessions manager 500) (token 1, detached)
prune_expired_sessions-Settled_example =
    prune_expired_sessions-Settled manager 500 (token 1, detached) (inl refl)

find_session-close_session_example :
    find_session (close_session manager (token 1)).0 (token 1) ≡ none
unfolding same_node
find_session-close_session_example = find_session-close_session manager (token 1) (token 1)

finish_activation-Served_example :
    ((finish_activation doubles manager (session_id 2) activation (accepted result) 500).1.status
      ≡ of_code bad_user_is_already_logged_on)
    ↔ ((false ≡ false) × (false ≡ false) × Served user manager.sessions)
finish_activation-Served_example =
    finish_activation-Served doubles manager (session_id 2) activation result 500

-- The session after the activation.
abbrev activated : SessionState
activated = record created {
  authentication_result = some result;
  service_context = record { user_id = user; user_rights = 1; peer = [] };
  activated = true;
  attached = true;
  expires_at = 5000500;
}

finish_activation_exclusive_example : token 2 ≡ token 2
unfolding finish_activation complete_activation has_attached_session_for_user any_attached
    remove_sessions_by_user erase_if same_node find assign add_duration
finish_activation_exclusive_example =
    finish_activation_exclusive doubles manager (session_id 2) activation result 500
      (token 2, activated) refl refl (inl refl) refl

recover_encrypted_password-encode_example :
    recover_encrypted_password (some decrypt) [] (1 ∷ 2 ∷ []) ≡ some (9 ∷ 9 ∷ [])
unfolding same_bytes
recover_encrypted_password-encode_example =
    recover_encrypted_password-encode decrypt [] (1 ∷ 2 ∷ []) (1 ∷ 2 ∷ []) (9 ∷ 9 ∷ []) (0 ∷ [])
      refl (omega arith) refl

find_session-create_session_example :
    find_session (create_session context manager creation none 500).0 (token 3)
    ≡ some (fresh (session_id 3) (token 3))
unfolding create_session same_node
find_session-create_session_example =
    find_session-create_session context manager creation none 500 (token 3) refl
