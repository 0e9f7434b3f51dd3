-- ===== src/Types/Status.antt =====
-- opcua/types/status.h and status_or.h: a Status is the full 32-bit code, a StatusCode its upper 16
-- bits, and a StatusOr a value or a Status.
use opcuapp.Base.{◌≡◌, refl, ℕ, ◌*◌, ◌/◌, ◌%◌, ◌^◌, Bool, true, false, Option, none, some, ◌==◌}

-- `Status(StatusCode)`
abbrev pub of_code : ℕ → ℕ
of_code code = code * 2 ^ 16 % 2 ^ 32

abbrev pub severity : ℕ → ℕ
severity full_code = full_code / 2 ^ 30

unfoldable pub is_bad : ℕ → Bool
is_bad full_code = severity full_code == 2

abbrev pub code_of : ℕ → ℕ
code_of full_code = full_code / 2 ^ 16

abbrev pub good : ℕ
good = 0

abbrev pub bad : ℕ
bad = 0x8000

abbrev pub bad_identity_token_rejected : ℕ
bad_identity_token_rejected = 0x8021

abbrev pub bad_user_is_already_logged_on : ℕ
bad_user_is_already_logged_on = 0xa005

abbrev pub bad_no_communication : ℕ
bad_no_communication = 0x8031

abbrev pub bad_session_id_invalid : ℕ
bad_session_id_invalid = 0x8025

abbrev pub bad_subscription_id_invalid : ℕ
bad_subscription_id_invalid = 0x8028

abbrev pub bad_continuation_point_invalid : ℕ
bad_continuation_point_invalid = 0x804a

abbrev pub bad_attribute_id_invalid : ℕ
bad_attribute_id_invalid = 0x8035

abbrev pub bad_monitored_item_id_invalid : ℕ
bad_monitored_item_id_invalid = 0x8042

abbrev pub bad_message_not_available : ℕ
bad_message_not_available = 0x807b

abbrev pub bad_application_signature_invalid : ℕ
bad_application_signature_invalid = 0x8058

abbrev pub bad_too_many_monitored_items : ℕ
bad_too_many_monitored_items = 0x80db

abbrev pub bad_sequence_number_unknown : ℕ
bad_sequence_number_unknown = 0x807a

abbrev pub bad_no_continuation_points : ℕ
bad_no_continuation_points = 0x804b

abbrev pub bad_no_subscription : ℕ
bad_no_subscription = 0x8079

pub data StatusOr {ℓ} (A : Type ℓ) : Type ℓ where
  ok : A → StatusOr A
  failed : ℕ → StatusOr A

-- The early return of a status that is not good.
infixl 5 ◌>>=◌ ◌>>◌
abbrev pub ◌>>=◌ {ℓ κ} : {A : Type ℓ} {B : Type κ} → StatusOr A → (A → StatusOr B) → StatusOr B
ok a >>= f = f a
failed status >>= f = failed status

abbrev pub ◌>>◌ {ℓ} : {B : Type ℓ} → StatusOr (Unit {0}) → StatusOr B → StatusOr B
m >> k = m >>= λ _. k

-- `Status{StatusCode::Bad}` where a test fails or a decoder has no value.
abbrev pub require : Bool → StatusOr (Unit {0})
require true = ok tt
require false = failed (of_code bad)

abbrev pub or_bad {ℓ} : {A : Type ℓ} → Option A → StatusOr A
or_bad none = failed (of_code bad)
or_bad (some a) = ok a

-- A chain that ends well went well at its first step, and a test that passed was true.
pub bind_ok {ℓ κ} :
    {A : Type ℓ} {B : Type κ} (s : StatusOr A) (f : A → StatusOr B) (b : B)
    → (s >>= f) ≡ ok b
    → (a : A) × (s ≡ ok a) × (f a ≡ ok b)
bind_ok (ok a) f b e = (a, refl, e)
bind_ok (failed status) f b e = cc

pub require_ok : (b : Bool) (u : Unit {0}) → require b ≡ ok u → b ≡ true
require_ok true u e = refl
require_ok false u e = cc

pub status_known {ℓ κ μ} :
    {A : Type ℓ} {B : Type κ} (P : B → Type μ) (s : StatusOr A) (x : ℕ → B) (f : A → B)
    → ((status : ℕ) → s ≡ failed status → P (x status))
    → ((a : A) → s ≡ ok a → P (f a))
    → P (elim s [ failed status ↦ x status | ok a ↦ f a ])
status_known P (failed status) x f hx hf = hx status refl
status_known P (ok a) x f hx hf = hf a refl
