-- ===== src/Executor/Keeping.antt =====
-- Computations of the executor, crates/reforge-restore/src/executor.rs, that change nothing, and what
-- a value of theirs tells.
use windows_component_harnes.Prelude.{◌≡◌, refl}
use windows_component_harnes.Domain.Error.{Result, ok, err, stuck}
use windows_component_harnes.Executor.Session.{Session, Exec, continue, give, ◌>>=◌}

-- The session is as it was, and a value that is returned has the property.
abbrev pub Keeps : {W A : Type 0} → (A → Type 0) → Session W → Result A × Session W → Type 0
Keeps {A = A} P s r = (r.1 ≡ s) × ((a : A) → r.0 ≡ ok a → P a)

module _ {W : Type 0} where
  pub give-Keeps :
      {A B : Type 0} (P : B → Type 0) (r : Result A) (next : A → Exec W B) (s : Session W)
      → ((a : A) → r ≡ ok a → Keeps P s (next a s))
      → Keeps P s ((give r >>= next) s)
  give-Keeps P (ok a) next s k = k a refl
  give-Keeps P (err e) next s k = (refl, λ b h. cc (h))
  give-Keeps P stuck next s k = (refl, λ b h. cc (h))

  pub bind-Keeps :
      {A B : Type 0} (P : A → Type 0) (Q : B → Type 0) (m : Exec W A) (next : A → Exec W B)
      (s : Session W)
      → Keeps P s (m s)
      → ((a : A) → P a → Keeps Q s (next a s))
      → Keeps Q s ((m >>= next) s)
  bind-Keeps {A = A} {B = B} P Q m next s (same, holds) k = after (m s).0 (m s).1 same holds
    where
      after :
          (r : Result A) (t : Session W)
          → t ≡ s
          → ((a : A) → r ≡ ok a → P a)
          → Keeps Q s (continue r next t)
      after (ok a) t e p = rw e (k a (p a refl))
      after (err x) t e p = (e, λ b h. cc (h))
      after stuck t e p = (e, λ b h. cc (h))
