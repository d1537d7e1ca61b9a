-- ===== src/Common/Action.antt =====
-- A call with a state that may throw. The state comes back after a throw too, since what was
-- written stays written.
use osm_sync_tracker.Prelude.{Bool, true, false, Option, none, some}
use osm_sync_tracker.Common.Errors.{Error}

pub data Result (A : Type 0) : Type 0 where
  ok : A → Result A
  err : Error → Result A

abbrev pub Action : Type 0 → Type 0 → Type 0
Action S A = S → Result A × S

module _ {S A : Type 0} where
  abbrev pub pure : A → Action S A
  pure a s = (ok a, s)

  abbrev pub throw : Error → Action S A
  throw e s = (err e, s)

  -- A query: the state is read and stays.
  abbrev pub gets : (S → A) → Action S A
  gets f s = (ok (f s), s)

  -- A statement that is refused as a whole leaves the state alone.
  abbrev pub attempt : (S → Result (A × S)) → Action S A
  attempt f s = elim (f s) [ ok (a, s') ↦ (ok a, s') | err e ↦ (err e, s) ]

  -- `try { … } catch (error) { … }`
  abbrev pub try_catch : Action S A → (Error → Action S A) → Action S A
  try_catch m h s = let (r, s') = m s in elim r [ ok a ↦ (ok a, s') | err e ↦ h e s' ]

abbrev pub throw_if : {S : Type 0} → Bool → Error → Action S (Unit {0})
throw_if true e s = (err e, s)
throw_if false e s = (ok tt, s)

abbrev pub modify : {S : Type 0} → (S → S) → Action S (Unit {0})
modify f s = (ok tt, f s)

module _ {S A B : Type 0} where
  infixl 5 ◌>>=◌ ◌>>◌
  abbrev pub ◌>>=◌ : Action S A → (A → Action S B) → Action S B
  ◌>>=◌ m f s = let (r, s') = m s in elim r [ ok a ↦ f a s' | err e ↦ (err e, s') ]

  abbrev pub ◌>>◌ : Action S A → Action S B → Action S B
  m >> k = m >>= λ _. k

-- The value of a nullable query result, or a throw: `if (!x) { throw … }`.
abbrev pub or_throw : {S A : Type 0} → Option A → Error → Action S A
or_throw none e s = (err e, s)
or_throw (some a) e s = (ok a, s)
