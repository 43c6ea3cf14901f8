-- ===== src/Executor/Reaching.antt =====
-- What a computation of the executor, crates/reforge-restore/src/executor.rs, establishes: it changes
-- the journal by moves, and its value has a property in the journal that it leaves.
use windows_component_harnes.Prelude.{ℕ, ◌≡◌, refl}
use windows_component_harnes.Domain.Error.{ErrorEnvelope, Result, ok, err, stuck}
use windows_component_harnes.Domain.Operation.{RestorePlan}
use windows_component_harnes.Journal.Tables.{Journal}
use windows_component_harnes.Executor.Session.{
  Session, Setting, Exec, continue, branch, committed, transact, give, ◌>>=◌,
}
use windows_component_harnes.Executor.Moves.{Charge, Moves, Moves-trans}

abbrev pub Post : {A : Type 0} → (A → Journal → Type 0) → Result A → Journal → Type 0
Post P (ok a) j = P a j
Post P (err e) j = Unit
Post P stuck j = Unit

abbrev pub Anything : {A : Type 0} → A → Journal → Type 0
Anything a j = Unit

module _ {W : Type 0} ⦃charge : Charge⦄ (plan : RestorePlan) where
  abbrev pub Reaches :
      {A : Type 0} → (A → Journal → Type 0) → Session W → Result A × Session W → Type 0
  Reaches P s r = Moves plan s.journal r.1.journal × Post P r.0 r.1.journal

  pub reached :
      {A : Type 0} (P : A → Journal → Type 0) (s : Session W) (a : A)
      → P a s.journal
      → Reaches P s (ok a, s)
  reached P s a p = (Moves.stay, p)

  pub refused :
      {A : Type 0} (P : A → Journal → Type 0) (s : Session W) (e : ErrorEnvelope)
      → Reaches P s (err e, s)
  refused P s e = (Moves.stay, tt)

  pub give-Reaches :
      {A : Type 0} (s : Session W) (r : Result A) → Reaches (λ a j. r ≡ ok a) s (give r s)
  give-Reaches s (ok a) = (Moves.stay, refl)
  give-Reaches s (err e) = (Moves.stay, tt)
  give-Reaches s stuck = (Moves.stay, tt)

  pub then_reaches :
      {A B : Type 0} (P : A → Journal → Type 0) (Q : B → Journal → Type 0) (m : Exec W A)
      (next : A → Exec W B) (s : Session W)
      → Reaches P s (m s)
      → ((a : A) (t : Session W)
          → Moves plan s.journal t.journal
          → P a t.journal
          → Reaches Q t (next a t))
      → Reaches Q s ((m >>= next) s)
  then_reaches {A = A} P Q m next s (path, post) k = after (m s).0 post
    where
      after : (r : Result A) → Post P r (m s).1.journal → Reaches Q s (continue r next (m s).1)
      after (ok a) p =
          let (onward, q) = k a (m s).1 path p in
          (Moves-trans plan s.journal (m s).1.journal (next a (m s).1).1.journal path onward, q)
      after (err e) p = (path, tt)
      after stuck p = (path, tt)

  pub give_then :
      {A B : Type 0} (Q : B → Journal → Type 0) (r : Result A) (next : A → Exec W B) (s : Session W)
      → ((a : A) → r ≡ ok a → Reaches Q s (next a s))
      → Reaches Q s ((give r >>= next) s)
  give_then Q (ok a) next s h = h a refl
  give_then Q (err e) next s h = (Moves.stay, tt)
  give_then Q stuck next s h = (Moves.stay, tt)

  pub either_reaches :
      {A B : Type 0} (P : A → Journal → Type 0) (Q : B → Journal → Type 0) (m : Exec W A)
      (handle : ErrorEnvelope → Exec W B) (next : A → Exec W B) (s : Session W)
      → Reaches P s (m s)
      → ((e : ErrorEnvelope) (t : Session W)
          → Moves plan s.journal t.journal
          → Reaches Q t (handle e t))
      → ((a : A) (t : Session W)
          → Moves plan s.journal t.journal
          → P a t.journal
          → Reaches Q t (next a t))
      → Reaches Q s (branch (m s).0 handle next (m s).1)
  either_reaches {A = A} P Q m handle next s (path, post) l k = after (m s).0 post
    where
      after : (r : Result A) → Post P r (m s).1.journal → Reaches Q s (branch r handle next (m s).1)
      after (ok a) p =
          let (onward, q) = k a (m s).1 path p in
          (Moves-trans plan s.journal (m s).1.journal (next a (m s).1).1.journal path onward, q)
      after (err e) p =
          let (onward, q) = l e (m s).1 path in
          (Moves-trans plan s.journal (m s).1.journal (handle e (m s).1).1.journal path onward, q)
      after stuck p = (path, tt)

  pub Reaches_weaken :
      {A : Type 0} (P Q : A → Journal → Type 0) (s : Session W) (r : Result A × Session W)
      → ((a : A) (j : Journal) → Moves plan s.journal j → P a j → Q a j)
      → Reaches P s r
      → Reaches Q s r
  Reaches_weaken {A = A} P Q s r f (path, post) = (path, on r.0 post)
    where
      on : (x : Result A) → Post P x r.1.journal → Post Q x r.1.journal
      on (ok a) p = f a r.1.journal path p
      on (err e) p = tt
      on stuck p = tt

  pub transact-Reaches :
      {A : Type 0} (c : Setting W) (P : A → Journal → Type 0)
      (f : ℕ → Journal → Result (Journal × A)) (s : Session W)
      → ((now : ℕ) (next : Journal) (a : A)
          → f now s.journal ≡ ok (next, a)
          → Moves plan s.journal next × P a next)
      → Reaches P s (transact c f s)
  transact-Reaches {A = A} c P f s h =
      on (f (c.now s.world).0 s.journal) (λ next a e. h (c.now s.world).0 next a e)
    where
      on :
          (r : Result (Journal × A))
          → ((next : Journal) (a : A) → r ≡ ok (next, a) → Moves plan s.journal next × P a next)
          → Reaches P s (committed r (record s { world = (c.now s.world).1 }))
      on (ok (j, a)) k = k j a refl
      on (err e) k = (Moves.stay, tt)
      on stuck k = (Moves.stay, tt)
