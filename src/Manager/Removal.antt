-- ===== src/Manager/Removal.antt =====
-- Sessions that expire, are closed or are evicted: which ones go, and that the owner of their state is
-- told of each.
use opcuapp.Base.{
  ℕ, ◌≡◌, ◌⊎◌, inl, inr, refl, Bool, true, false, none, List, [], ◌∷◌, arith, Bool-cases,
  Option-cases, if◌then◌else◌, In, In-append_right,
}
use opcuapp.Base.Keyed.{find, find-remove}
use opcuapp.Types.NodeId.{NodeId, same_node, same_node_iff}
use opcuapp.Manager.State.{
  ServerSessionManager, SessionState, erase_if, is_expired, prune_expired_sessions, close_session,
  find_session, node_key, remove_sessions_by_user, is_session_of,
}

erase_if_kept :
    (gone : SessionState → Bool) (entry : NodeId × SessionState)
    (sessions : List (NodeId × SessionState))
    → In entry (erase_if gone sessions).0
    → (gone entry.1 ≡ false) × In entry sessions
unfolding erase_if
erase_if_kept gone entry [] h = absurd h
erase_if_kept gone entry ((t, x) ∷ sessions) h = elim (Bool-cases (gone x)) [
  | inl e ↦ let (alive, there) = erase_if_kept gone entry sessions (rw e at h) in (alive, inr there)
  | inr e ↦ kept_here gone entry (t, x) sessions e (rw e at h) (erase_if_kept gone entry sessions)
]
  where
    kept_here :
        (gone : SessionState → Bool) (entry y : NodeId × SessionState)
        (sessions : List (NodeId × SessionState))
        → gone y.1 ≡ false
        → In entry (y ∷ (erase_if gone sessions).0)
        → (In entry (erase_if gone sessions).0 → (gone entry.1 ≡ false) × In entry sessions)
        → (gone entry.1 ≡ false) × In entry (y ∷ sessions)
    kept_here gone entry y sessions e (inl p) rest = (rw p e, inl p)
    kept_here gone entry y sessions e (inr m) rest = ((rest m).0, inr (rest m).1)

erase_if_told :
    (gone : SessionState → Bool) (entry : NodeId × SessionState)
    (sessions : List (NodeId × SessionState))
    → In entry sessions
    → ((gone entry.1 ≡ false) × In entry (erase_if gone sessions).0)
      ⊎ ((gone entry.1 ≡ true) × In entry.1.authentication_token (erase_if gone sessions).1)
unfolding erase_if
erase_if_told gone entry [] h = absurd h
erase_if_told gone entry ((t, x) ∷ sessions) (inl p) = elim (Bool-cases (gone x)) [
  | inl e ↦ rw e (inr (rw p e, inl (rw p refl)))
  | inr e ↦ rw e (inl (rw p e, inl p))
]
erase_if_told gone entry ((t, x) ∷ sessions) (inr m) = elim (erase_if_told gone entry sessions m) [
  | inl (alive, there) ↦ elim (Bool-cases (gone x)) [
    | inl e ↦ rw e (inl (alive, there))
    | inr e ↦ rw e (inl (alive, inr there))
  ]
  | inr (dead, told) ↦ elim (Bool-cases (gone x)) [
    | inl e ↦ rw e (inr (dead, inr told))
    | inr e ↦ rw e (inr (dead, told))
  ]
]

-- What becomes of a session: it is not to go and stays, or it is to go and its token was handed to the
-- owner of its state.
abbrev pub Settled : (SessionState → Bool) → ServerSessionManager → NodeId × SessionState → Type 0
Settled gone m entry =
    ((gone entry.1 ≡ false) × In entry m.sessions)
    ⊎ ((gone entry.1 ≡ true) × In entry.1.authentication_token m.removed)

-- PruneExpiredSessions keeps each session that has not expired, and notifies the removal of each that
-- has.
pub prune_expired_sessions-Settled :
    (m : ServerSessionManager) (now : ℕ) (entry : NodeId × SessionState)
    → In entry m.sessions
    → Settled (is_expired now) (prune_expired_sessions m now) entry
unfolding prune_expired_sessions
prune_expired_sessions-Settled m now entry there =
    elim (erase_if_told (is_expired now) entry m.sessions there) [
      | inl kept ↦ inl kept
      | inr (dead, told) ↦ inr (dead, In-append_right _ m.removed _ told)
    ]

-- Evicting a user's sessions keeps each session of another user or of none, and notifies the removal of
-- each of that user's.
pub remove_sessions_by_user-Settled :
    (m : ServerSessionManager) (user_id : NodeId) (entry : NodeId × SessionState)
    → In entry m.sessions
    → Settled (is_session_of user_id) (remove_sessions_by_user m user_id) entry
unfolding remove_sessions_by_user
remove_sessions_by_user-Settled m user_id entry there =
    elim (erase_if_told (is_session_of user_id) entry m.sessions there) [
      | inl kept ↦ inl kept
      | inr (dead, told) ↦ inr (dead, In-append_right _ m.removed _ told)
    ]

pub remove_sessions_by_user_kept :
    (m : ServerSessionManager) (user_id : NodeId) (entry : NodeId × SessionState)
    → In entry (remove_sessions_by_user m user_id).sessions
    → (is_session_of user_id entry.1 ≡ false) × In entry m.sessions
unfolding remove_sessions_by_user
remove_sessions_by_user_kept m user_id entry =
    erase_if_kept (is_session_of user_id) entry m.sessions

find_session_after :
    (m m' : ServerSessionManager) (token other : NodeId)
    → find other m'.sessions ≡ (if same_node token other then none else find other m.sessions)
    → find_session m' other ≡ (if same_node token other then none else find_session m other)
unfolding find_session
find_session_after m m' token other h = elim (Bool-cases (same_node token other)) [
  | inl same ↦ ground (arith, h, same)
  | inr differs ↦ ground (arith, h, differs)
]

close_session_sessions :
    (m : ServerSessionManager) (token other : NodeId)
    → find other (close_session m token).0.sessions
      ≡ (if same_node token other then none else find other m.sessions)
unfolding close_session
close_session_sessions m token other = elim (Option-cases (find token m.sessions)) [
  | inl e ↦ elim (Bool-cases (same_node token other)) [
    | inl same ↦ rw (e, close_session, same, ← (same_node_iff token other).0 same) e
    | inr differs ↦ rw (e, close_session, differs) refl
  ]
  | inr (session, e) ↦ rw (e, close_session) (find-remove token other m.sessions)
]

-- After CloseSession the session is not found, and every other one is found as before.
pub find_session-close_session :
    (m : ServerSessionManager) (token other : NodeId)
    → find_session (close_session m token).0 other
      ≡ (if same_node token other then none else find_session m other)
find_session-close_session m token other =
    find_session_after m (close_session m token).0 token other
      (close_session_sessions m token other)
