-- ===== src/Domain/Ensures.antt =====
-- What a result establishes: one predicate holds of its value, another of its error, and it is not
-- stuck. The rules follow the ways to build a result.
use windows_component_harnes.Prelude.{◌≡◌, ◌≢◌, refl, Bool, true, false, if◌then◌else◌}
use windows_component_harnes.Domain.Error.{ErrorEnvelope, Result, ok, err, stuck, ◌>>=◌}

unfoldable pub Ensures : {A : Type 0} → (A → Type 0) → (ErrorEnvelope → Type 0) → Result A → Type 0
Ensures P E (ok a) = P a
Ensures P E (err e) = E e
Ensures P E stuck = ⊥

module _ {A : Type 0} (P : A → Type 0) (E : ErrorEnvelope → Type 0) where
  pub Ensures-ok : (a : A) → P a → Ensures P E (ok a)
  unfolding Ensures
  Ensures-ok a h = h

  pub Ensures-err : (e : ErrorEnvelope) → E e → Ensures P E (err e)
  unfolding Ensures
  Ensures-err e h = h

  pub Ensures-eq : (m : Result A) (a : A) → m ≡ ok a → P a → Ensures P E m
  unfolding Ensures
  Ensures-eq m a e h = rw e h

  pub Ensures-if :
      (b : Bool) (m n : Result A)
      → (b ≡ true → Ensures P E m)
      → (b ≡ false → Ensures P E n)
      → Ensures P E (if b then m else n)
  Ensures-if true m n hm hn = hm (cc)
  Ensures-if false m n hm hn = hn (cc)

  -- what the three kinds of result give
  pub Ensures-value : (m : Result A) (a : A) → Ensures P E m → m ≡ ok a → P a
  unfolding Ensures
  Ensures-value m a h e = rw e at h

  pub Ensures-error : (m : Result A) (e : ErrorEnvelope) → Ensures P E m → m ≡ err e → E e
  unfolding Ensures
  Ensures-error m e h p = rw p at h

  pub Ensures-ne-stuck : (m : Result A) → Ensures P E m → m ≢ stuck
  unfolding Ensures
  Ensures-ne-stuck m h p = rw p at h

  pub Ensures-weaken :
      (Q : A → Type 0) (F : ErrorEnvelope → Type 0) (m : Result A)
      → ((a : A) → P a → Q a)
      → ((e : ErrorEnvelope) → E e → F e)
      → Ensures P E m
      → Ensures Q F m
  unfolding Ensures
  Ensures-weaken Q F (ok a) f g h = f a h
  Ensures-weaken Q F (err e) f g h = g e h
  Ensures-weaken Q F stuck f g h = h

pub Ensures-bind :
    {A B : Type 0} (P : A → Type 0) (Q : B → Type 0) (E : ErrorEnvelope → Type 0) (m : Result A)
    (f : A → Result B)
    → Ensures P E m
    → ((a : A) → P a → Ensures Q E (f a))
    → Ensures Q E (m >>= f)
unfolding Ensures
Ensures-bind P Q E (ok a) f h k = k a h
Ensures-bind P Q E (err e) f h k = h
Ensures-bind P Q E stuck f h k = absurd h

-- the same, where the rest may use which value came out
pub Ensures-bind_eq :
    {A B : Type 0} (P : A → Type 0) (Q : B → Type 0) (E : ErrorEnvelope → Type 0) (m : Result A)
    (f : A → Result B)
    → Ensures P E m
    → ((a : A) → m ≡ ok a → P a → Ensures Q E (f a))
    → Ensures Q E (m >>= f)
unfolding Ensures
Ensures-bind_eq P Q E (ok a) f h k = k a refl h
Ensures-bind_eq P Q E (err e) f h k = h
Ensures-bind_eq P Q E stuck f h k = absurd h
