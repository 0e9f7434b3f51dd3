-- ===== src/Manager/Credentials.antt =====
-- What ActivateSession has checked by the time that the authenticator is asked.
use opcuapp.Base.{ℕ, ◌≡◌, true, false, not, ◌&&◌, some, List, is_empty}
use opcuapp.Base.Keyed.{find}
use opcuapp.Manager.State.{Context, ServerSessionManager, SessionState, node_key}
use opcuapp.Manager.Activation.{ActivateSessionRequest, is_signed, cleartext_password}

-- The session of the request, which is signed for and not active yet.
pub record Checked (c : Context) (m : ServerSessionManager) (request : ActivateSessionRequest)
    (user_name password : List ℕ) : Type 0 where
  pub session : SessionState
  pub found : find request.authentication_token m.sessions ≡ some session
  pub signed : is_signed c session request ≡ true
  pub inactive : session.activated ≡ false
  pub named : request.allow_anonymous ≡ false
  pub user : request.user_name ≡ some user_name
  pub secret : cleartext_password c session request ≡ some (some password)
  pub protected :
      (c.require_encryption_for_password
        && (not request.channel_secure && is_empty request.password_encryption_algorithm))
      ≡ false
