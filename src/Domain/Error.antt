-- ===== src/Domain/Error.antt =====
-- The error taxonomy of crates/reforge-domain/src/error.rs and model.rs, and results that may fail.
-- The texts of an error (message, technical_detail, context_id) pass through the redactor and are
-- left out: an envelope here is its code, its retry policy and the identifiers it is bound to.
use windows_component_harnes.Prelude.{Option, ◌⊎◌, inl, inr, Bool, true, false, ◌≡◌, refl}
use windows_component_harnes.Prelude.Text.{Text}

pub data ReforgeErrorCode : Type 0 where
  access_denied path_not_found file_locked invalid_path reparse_point : ReforgeErrorCode
  provider_unavailable provider_parse_failed source_unavailable : ReforgeErrorCode
  version_unavailable package_not_found package_corrupt package_untrusted : ReforgeErrorCode
  vault_required vault_decrypt_failed secret_not_portable manual_secret_required : ReforgeErrorCode
  schema_invalid unsupported_version architecture_conflict os_conflict : ReforgeErrorCode
  insufficient_disk dependency_cycle selection_incomplete target_conflict : ReforgeErrorCode
  security_policy manual_action_required user_action_required reboot_required : ReforgeErrorCode
  operation_failed install_failed verification_failed interrupted cancelled : ReforgeErrorCode

pub data Retryability : Type 0 where
  never safe_retry requires_user_action after_reboot : Retryability

unfoldable pub default_retryability : ReforgeErrorCode → Retryability
default_retryability file_locked = safe_retry
default_retryability provider_unavailable = safe_retry
default_retryability source_unavailable = safe_retry
default_retryability interrupted = safe_retry
default_retryability cancelled = safe_retry
default_retryability manual_action_required = requires_user_action
default_retryability user_action_required = requires_user_action
default_retryability access_denied = requires_user_action
default_retryability package_untrusted = requires_user_action
default_retryability vault_required = requires_user_action
default_retryability manual_secret_required = requires_user_action
default_retryability secret_not_portable = requires_user_action
default_retryability selection_incomplete = requires_user_action
default_retryability security_policy = requires_user_action
default_retryability target_conflict = requires_user_action
default_retryability architecture_conflict = requires_user_action
default_retryability os_conflict = requires_user_action
default_retryability reboot_required = after_reboot
default_retryability _ = never

pub record ErrorEnvelope : Type 0 where
  pub code : ReforgeErrorCode
  pub component : Option Text
  pub operation : Option Text
  pub retryability : Retryability

-- `ErrorEnvelope::new(code, message).with_ids(component, operation)`
abbrev pub coded_error : ReforgeErrorCode → Option Text → Option Text → ErrorEnvelope
unfolding default_retryability
coded_error code component operation = record {
  code = code;
  component = component;
  operation = operation;
  retryability = default_retryability code;
}

-- `stuck` is neither a value nor an error of the program: an `expect` that would panic, or a loop
-- whose fuel ran out.
pub data Result {ℓ} (A : Type ℓ) : Type ℓ where
  ok : A → Result A
  err : ErrorEnvelope → Result A
  stuck : Result A

-- `?`: an early return of whatever is no value
infixl 5 ◌>>=◌ ◌>>◌
abbrev pub ◌>>=◌ {ℓ κ} : {V : Type ℓ} {W : Type κ} → Result V → (V → Result W) → Result W
stuck >>= next = stuck
err e >>= next = err e
ok v >>= next = next v

abbrev pub ◌>>◌ {ℓ} : {W : Type ℓ} → Result (Unit {0}) → Result W → Result W
first >> second = first >>= (λ done. second)

-- `if condition { return Err(…) }`
abbrev pub reject_if : Bool → ErrorEnvelope → Result (Unit {0})
reject_if true e = err e
reject_if false e = ok tt

pub ok-injective {ℓ} : {A : Type ℓ} {a b : A} → ok a ≡ ok b → a ≡ b
ok-injective h = cc

pub >>=-eq-ok {ℓ κ} :
    {V : Type ℓ} {W : Type κ} (m : Result V) (next : V → Result W) {w : W}
    → (m >>= next) ≡ ok w
    → (v : V) × (m ≡ ok v) × (next v ≡ ok w)
>>=-eq-ok stuck next h = cc
>>=-eq-ok (err e) next h = cc
>>=-eq-ok (ok v) next h = (v, refl, h)

pub >>=-eq-stuck {ℓ κ} :
    {A : Type ℓ} {B : Type κ} (m : Result A) (f : A → Result B)
    → (m >>= f) ≡ stuck
    → (m ≡ stuck) ⊎ ((a : A) × (m ≡ ok a) × (f a ≡ stuck))
>>=-eq-stuck (ok a) f h = inr (a, refl, h)
>>=-eq-stuck (err e) f h = cc
>>=-eq-stuck stuck f h = inl refl

pub reject_if-eq-ok {ℓ} :
    {B : Type ℓ} (c : Bool) (e : ErrorEnvelope) (k : Result B) {b : B}
    → (reject_if c e >> k) ≡ ok b
    → (c ≡ false) × (k ≡ ok b)
reject_if-eq-ok true e k h = cc
reject_if-eq-ok false e k h = (refl, h)
