-- ===== src/Manager/Exclusive.antt =====
-- The single session rule of ActivateSession.
use opcuapp.Base.{
  ℕ, ◌≡◌, ◌⊎◌, ◌↔◌, inl, inr, true, false, not, ◌&&◌, Option, some, List, [], ◌∷◌, arith,
  Bool-cases, Option-cases, In, ap, refl,
}
use mathlib.Core.Path.{subst}
use opcuapp.Base.Keyed.{find, assign}
use opcuapp.Types.Status.{good, of_code, bad_user_is_already_logged_on}
use opcuapp.Types.Variant.{Doubles}
use opcuapp.Types.NodeId.{same_node_iff, NodeId, same_node}
use opcuapp.Manager.State.{
  any_attached, ServerSessionManager, SessionState, AuthenticationResult, is_session_of, node_key,
  has_attached_session_for_user, remove_sessions_by_user,
}
use opcuapp.Manager.Activation.{
  ActivateSessionRequest, accepted, activate, complete_activation, finish_activation,
}
use opcuapp.Manager.Removal.{remove_sessions_by_user_kept}

In-replaced :
    (token : NodeId) (session : SessionState) (entry y : NodeId × SessionState)
    (sessions : List (NodeId × SessionState))
    → In entry ((token, session) ∷ sessions)
    → (entry.0 ≡ token) ⊎ In entry (y ∷ sessions)
In-replaced token session entry y sessions (inl e) = inl (ap (λ x. x.0) e)
In-replaced token session entry y sessions (inr m) = inr (inr m)

In-rest :
    (token : NodeId) (entry y : NodeId × SessionState)
    (sessions sessions' : List (NodeId × SessionState))
    → In entry (y ∷ sessions')
    → (In entry sessions' → (entry.0 ≡ token) ⊎ In entry sessions)
    → (entry.0 ≡ token) ⊎ In entry (y ∷ sessions)
In-rest token entry y sessions sessions' (inl e) rest = inr (inl e)
In-rest token entry y sessions sessions' (inr m) rest = elim (rest m) [
  | inl e ↦ inl e
  | inr k ↦ inr (inr k)
]

In-assign :
    (token : NodeId) (session : SessionState) (entry : NodeId × SessionState)
    (sessions : List (NodeId × SessionState))
    → In entry (assign token session sessions)
    → (entry.0 ≡ token) ⊎ In entry sessions
unfolding assign
In-assign token session entry [] (inl e) = inl (ap (λ x. x.0) e)
In-assign token session entry [] (inr h) = absurd h
In-assign token session entry ((t, x) ∷ sessions) h = elim (Bool-cases (same_node t token)) [
  | inl e ↦ In-replaced token session entry (t, x) sessions (rw e at h)
  | inr e ↦
      In-rest token entry (t, x) sessions (assign token session sessions) (rw e at h)
        (In-assign token session entry sessions)
]

-- Completing an activation adds no session but the one that it activates.
In-complete_activation :
    (d : Doubles) (m : ServerSessionManager) (request : ActivateSessionRequest)
    (auth_result : Option AuthenticationResult) (now : ℕ) (entry : NodeId × SessionState)
    → In entry (complete_activation d m request auth_result now).0.sessions
    → (entry.0 ≡ request.authentication_token) ⊎ In entry m.sessions
unfolding complete_activation
In-complete_activation d m request auth_result now entry h =
    elim (Option-cases (find request.authentication_token m.sessions)) [
      | inl e ↦ inr (rw (e, complete_activation) at h)
      | inr (session, e) ↦
          In-assign request.authentication_token (activate d session auth_result request now) entry
            m.sessions (rw (e, complete_activation) at h)
    ]

-- A connection serves the session, which is the user's.
abbrev pub Serves : NodeId → SessionState → Type 0
Serves user_id session =
    (session.attached ≡ true)
    × ((result : AuthenticationResult) × (session.authentication_result ≡ some result)
        × (result.user_id ≡ user_id))

is_session_of-Serves :
    (user_id : NodeId) (session : SessionState)
    → (session.attached && is_session_of user_id session) ≡ true
    → Serves user_id session
is_session_of-Serves user_id session e = elim (Option-cases session.authentication_result) [
  | inl f ↦ absurd (ground (arith, e, f))
  | inr (result, f) ↦
      let same : same_node result.user_id user_id ≡ true = ground (arith, e, f) in
      (ground (arith, e), (result, f, (same_node_iff result.user_id user_id).0 same))
]

Serves-is_session_of :
    (user_id : NodeId) (session : SessionState)
    → Serves user_id session
    → (session.attached && is_session_of user_id session) ≡ true
Serves-is_session_of user_id session (attached, (result, f, same)) =
    let e : same_node result.user_id user_id ≡ true =
      (same_node_iff result.user_id user_id).1 same in
    rw (attached, f, e)

-- A session of the user that a connection serves.
abbrev pub Served : NodeId → List (NodeId × SessionState) → Type 0
Served user_id sessions =
    (entry : NodeId × SessionState) × In entry sessions × Serves user_id entry.1

any_attached-Served :
    (user_id : NodeId) (sessions : List (NodeId × SessionState))
    → any_attached user_id sessions ≡ true
    → Served user_id sessions
unfolding any_attached
any_attached-Served user_id [] e = absurd (cc e)
any_attached-Served user_id ((t, x) ∷ sessions) e =
    elim (Bool-cases (x.attached && is_session_of user_id x)) [
      | inl f ↦ ((t, x), inl refl, is_session_of-Serves user_id x f)
      | inr f ↦
          let (entry, there, serves) = any_attached-Served user_id sessions (rw f at e) in
          (entry, inr there, serves)
    ]

Served-any_attached :
    (user_id : NodeId) (sessions : List (NodeId × SessionState)) (entry : NodeId × SessionState)
    → In entry sessions
    → Serves user_id entry.1
    → any_attached user_id sessions ≡ true
unfolding any_attached
Served-any_attached user_id [] entry there serves = absurd there
Served-any_attached user_id ((t, x) ∷ sessions) entry (inl e) serves =
    rw (Serves-is_session_of user_id x (rw e at serves))
Served-any_attached user_id ((t, x) ∷ sessions) entry (inr there) serves =
    ground (arith, Served-any_attached user_id sessions entry there serves)

logged_on :
    (d : Doubles) (m : ServerSessionManager) (session_id : NodeId)
    (request : ActivateSessionRequest) (result : AuthenticationResult) (now : ℕ)
    → ((finish_activation d m session_id request (accepted result) now).1.status
        ≡ of_code bad_user_is_already_logged_on)
      ↔ ((not result.multi_sessions
            && (any_attached result.user_id m.sessions && not request.delete_existing))
          ≡ true)
unfolding finish_activation complete_activation has_attached_session_for_user
logged_on d m session_id request result now = (λ h. ground (arith, h), λ h. ground (arith, h))

-- After the password was accepted, the answer is Bad_UserIsAlreadyLoggedOn exactly when the user may
-- have one session only, some connection serves a session of that user, and the request does not ask
-- to delete it.
pub finish_activation-Served :
    (d : Doubles) (m : ServerSessionManager) (session_id : NodeId)
    (request : ActivateSessionRequest) (result : AuthenticationResult) (now : ℕ)
    → ((finish_activation d m session_id request (accepted result) now).1.status
        ≡ of_code bad_user_is_already_logged_on)
      ↔ ((result.multi_sessions ≡ false)
          × (request.delete_existing ≡ false)
          × Served result.user_id m.sessions)
finish_activation-Served d m session_id request result now =
    let (refused, allowed) = logged_on d m session_id request result now in
    (
      λ h.
          let e = refused h in
          (
            ground (arith, e),
            ground (arith, e),
            any_attached-Served result.user_id m.sessions (ground (arith, e)),
          ),
      λ (single, kept, (entry, there, serves)).
          allowed
            (rw (single, kept, Served-any_attached result.user_id m.sessions entry there serves)),
    )

gate_open :
    (d : Doubles) (m : ServerSessionManager) (session_id : NodeId)
    (request : ActivateSessionRequest) (result : AuthenticationResult) (now : ℕ)
    → result.multi_sessions ≡ false
    → (has_attached_session_for_user m result.user_id && not request.delete_existing) ≡ false
    → finish_activation d m session_id request (accepted result) now
      ≡ complete_activation d (remove_sessions_by_user m result.user_id) request (some result) now
unfolding finish_activation
gate_open d m session_id request result now single e = ground (arith, single, e)

-- When the activation of a user who may have one session only succeeds, that session is the user's only
-- one: every session of the user stands under the token of the request.
pub finish_activation_exclusive :
    (d : Doubles) (m : ServerSessionManager) (session_id : NodeId)
    (request : ActivateSessionRequest) (result : AuthenticationResult) (now : ℕ)
    (entry : NodeId × SessionState)
    → result.multi_sessions ≡ false
    → (finish_activation d m session_id request (accepted result) now).1.status ≡ good
    → In entry (finish_activation d m session_id request (accepted result) now).0.sessions
    → is_session_of result.user_id entry.1 ≡ true
    → entry.0 ≡ request.authentication_token
unfolding finish_activation
finish_activation_exclusive d m session_id request result now entry single succeeded there owned =
    elim (Bool-cases
      (has_attached_session_for_user m result.user_id && not request.delete_existing)) [
        | inl e ↦ absurd (ground (arith, succeeded, single, e))
        | inr e ↦
            elim (In-complete_activation d (remove_sessions_by_user m result.user_id) request
              (some result) now entry
              (subst (λ r. In entry r.0.sessions)
                (gate_open d m session_id request result now single e) there)) [
                  | inl k ↦ k
                  | inr kept ↦ absurd (
                      ground
                        (arith, remove_sessions_by_user_kept m result.user_id entry kept, owned))
                ]
      ]
