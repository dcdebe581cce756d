-- ===== src/Actions.antt =====
-- How the operations of `src/alpaca_connectors` that call other parts are written: a function from
-- a hidden state to a result, the list of the calls made, and the state left.
pub mod Within
pub mod Spec
pub mod Hoare
pub mod Checked
pub mod Calls
use alpaca_connectors.Prelude.{
  Bool, true, false, Option, none, some, List, [], ◌∷◌, ◌++◌, if◌then◌else◌,
}

-- How an operation ends: normally, or with an exception.
pub data Result (E A : Type 0) : Type 0 where
  ok : A → Result E A
  raise : E → Result E A

-- Calls made before a raise stay made.
abbrev pub Action : Type 0 → Type 0 → Type 0 → Type 0 → Type 0
Action E C S A = S → Result E A × List C × S

module _ {E C S A : Type 0} where
  unfoldable pub pure : A → Action E C S A
  pure a s = (ok a, [], s)

  unfoldable pub throw : E → Action E C S A
  throw e s = (raise e, [], s)

  -- A call that leaves no entry.
  unfoldable pub ask : (S → A × S) → Action E C S A
  ask f s = let (a, s') = f s in (ok a, [], s')

  -- A call that leaves the entry that its answer gives.
  unfoldable pub tell : (A → C) → (S → A × S) → Action E C S A
  tell c f s = let (a, s') = f s in (ok a, c a ∷ [], s')

  -- The body of a `try`: its end is a value.
  unfoldable pub attempt : Action E C S A → Action E C S (Result E A)
  attempt m s = let (r, cs, s') = m s in (ok r, cs, s')

module _ {E C S A B : Type 0} where
  abbrev pub continue : Result E A → List C → S → (A → Action E C S B) → Result E B × List C × S
  continue (raise e) cs s f = (raise e, cs, s)
  continue (ok a) cs s f = let (r, ds, t) = f a s in (r, cs ++ ds, t)

  infixl 5 ◌>>=◌ ◌>>◌
  unfoldable pub ◌>>=◌ : Action E C S A → (A → Action E C S B) → Action E C S B
  ◌>>=◌ m f s = let (r, cs, s') = m s in continue r cs s' f

  abbrev pub ◌>>◌ : Action E C S A → Action E C S B → Action E C S B
  m >> k = m >>= λ _. k

module _ {E C S A : Type 0} where
  abbrev pub or_raise : E → Option A → Action E C S A
  or_raise e none = throw e
  or_raise e (some a) = pure a

  -- An end that is known.
  abbrev pub lift : Result E A → Action E C S A
  lift (ok a) = pure a
  lift (raise e) = throw e

  -- A collaborator that may raise `e`, with the entry that its answer gives, and with none.
  abbrev pub try_tell : E → (Option A → C) → (S → Option A × S) → Action E C S A
  try_tell e c f = tell c f >>= or_raise e

  abbrev pub try_ask : E → (S → Option A × S) → Action E C S A
  try_ask e f = ask f >>= or_raise e

module _ {E C S : Type 0} where
  abbrev pub raise_if : Bool → E → Action E C S (Unit {0})
  raise_if true e = throw e
  raise_if false e = pure tt
