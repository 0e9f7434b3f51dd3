-- ===== src/Manager/Creation.antt =====
-- CreateSession: the session that it adds.
use opcuapp.Base.{
  ℕ, ◌≡◌, inl, inr, refl, false, not, ◌&&◌, ◌||◌, Option, none, some, List, arith, Bool-cases,
  if◌then◌else◌, is_empty,
}
use opcuapp.Base.Keyed.{assign, find-assign}
use opcuapp.Types.Status.{good}
use opcuapp.Types.NodeId.{NodeId, same_node, same_bytes}
use opcuapp.Manager.State.{
  Context, ServerSessionManager, SessionState, CreateSessionRequest, ServerSessionLookupResult,
  create_session, find_session, prune_expired_sessions, default_context, node_key,
}

-- A session as CreateSession leaves it: neither active nor attached, and of no user.
abbrev pub fresh : NodeId → NodeId → ServerSessionLookupResult
fresh session_id token = record {
  session_id = session_id;
  authentication_token = token;
  service_context = default_context;
  authentication_result = none;
  attached = false;
  activated = false;
}

lookup_assigned :
    (m m' : ServerSessionManager) (token other : NodeId) (session : SessionState)
    → m'.sessions ≡ assign token session m.sessions
    → find_session m' other ≡ (
        if same_node token other
        then some (record {
          session_id = session.session_id;
          authentication_token = session.authentication_token;
          service_context = session.service_context;
          authentication_result = session.authentication_result;
          attached = session.attached;
          activated = session.activated;
        })
        else find_session m other)
unfolding find_session
lookup_assigned m m' token other session e = elim (Bool-cases (same_node token other)) [
  | inl same ↦ ground (arith, e, same, find-assign token other session m.sessions)
  | inr differs ↦ ground (arith, e, differs, find-assign token other session m.sessions)
]

-- When CreateSession succeeds, its token leads to a session that is not active, not attached and of no
-- user, and every other token leads where it led once the expired sessions were gone.
pub find_session-create_session :
    (c : Context) (m : ServerSessionManager) (request : CreateSessionRequest)
    (nonce : Option (List ℕ)) (now : ℕ) (other : NodeId)
    → (create_session c m request nonce now).1.status ≡ good
    → find_session (create_session c m request nonce now).0 other ≡ (
        if same_node (create_session c m request nonce now).1.authentication_token other
        then some (
            fresh
              (create_session c m request nonce now).1.session_id
              (create_session c m request nonce now).1.authentication_token)
        else find_session (prune_expired_sessions m now) other)
unfolding create_session
find_session-create_session c m request generated now other h =
    elim (Bool-cases (
      request.channel_secure
      && (is_empty request.client_certificate
          || not (same_bytes request.client_certificate request.channel_certificate)))) [
            | inl e ↦ absurd (ground (arith, e, h))
            | inr e ↦ rw e (lookup_assigned (prune_expired_sessions m now) _ _ other _ refl)
          ]
