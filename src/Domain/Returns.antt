-- ===== src/Domain/Returns.antt =====
-- Results that are a value or an error of the program, one rule for each way to build a result.
use windows_component_harnes.Prelude.{Bool, true, false, ◌≡◌, ◌≢◌, refl, if◌then◌else◌}
use windows_component_harnes.Domain.Error.{ErrorEnvelope, Result, ok, err, stuck, ◌>>=◌, reject_if}

pub record Returns {A : Type 0} (m : Result A) : Type 0 where
  pub at : m ≢ stuck

module _ {A : Type 0} where
  pub Returns-ok : (a : A) → Returns (ok a)
  Returns-ok a = record { at = λ p. cc }

  pub Returns-err : (e : ErrorEnvelope) → Returns {A = A} (err e)
  Returns-err e = record { at = λ p. cc }

  pub Returns-if :
      (b : Bool) (m n : Result A) → Returns m → Returns n → Returns (if b then m else n)
  Returns-if true m n hm hn = hm
  Returns-if false m n hm hn = hn

pub Returns-reject_if : (b : Bool) (e : ErrorEnvelope) → Returns (reject_if b e)
Returns-reject_if true e = Returns-err e
Returns-reject_if false e = Returns-ok tt

module _ {A B : Type 0} where
  pub Returns-bind_eq :
      (m : Result A) (f : A → Result B)
      → Returns m
      → ((a : A) → m ≡ ok a → Returns (f a))
      → Returns (m >>= f)
  Returns-bind_eq (ok a) f hm hf = hf a refl
  Returns-bind_eq (err e) f hm hf = record { at = λ p. cc }
  Returns-bind_eq stuck f hm hf = absurd (hm.at refl)

  pub Returns-bind :
      (m : Result A) (f : A → Result B) → Returns m → ((a : A) → Returns (f a)) → Returns (m >>= f)
  Returns-bind m f hm hf = Returns-bind_eq m f hm (λ a _. hf a)

pub ruleset returns_rules = (Returns-ok, Returns-err, Returns-if, Returns-reject_if, Returns-bind)

-- What a stuck chain says of its rest, where the first step returns.
pub stuck_after :
    {A B : Type 0} (m : Result A) (f : A → Result B)
    → Returns m
    → (m >>= f) ≡ stuck
    → (a : A) × (m ≡ ok a) × (f a ≡ stuck)
stuck_after (ok a) f hm h = (a, refl, h)
stuck_after (err e) f hm h = cc
stuck_after stuck f hm h = absurd (hm.at refl)

pub stuck_after_reject :
    {B : Type 0} (b : Bool) (e : ErrorEnvelope) (k : Result B)
    → (reject_if b e >>= λ _. k) ≡ stuck
    → k ≡ stuck
stuck_after_reject true e k h = cc
stuck_after_reject false e k h = h
