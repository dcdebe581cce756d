-- ===== src/Actions/Within.antt =====
-- A rule for every form of an operation: which calls it may make, and which exceptions may leave it.
use alpaca_connectors.Prelude.{
  Bool, true, false, Option, none, some, List, All, All-append, if◌then◌else◌,
}
use alpaca_connectors.Actions.{
  Result, ok, raise, Action, pure, throw, ask, tell, attempt, ◌>>=◌, continue, or_raise, raise_if,
  lift,
}

-- Every exception satisfies `X`.
abbrev pub Ends : {E A : Type 0} → (E → Type 0) → Result E A → Type 0
Ends X (ok _) = Unit
Ends X (raise e) = X e

-- Every call satisfies `P`, and so does every exception `X`.
pub record Within {E C S A : Type 0} (P : C → Type 0) (X : E → Type 0) (m : Action E C S A)
    : Type 0 where
  pub calls : (s : S) → All P (m s).1
  pub ends : (s : S) → Ends X (m s).0

module _ {E C S A : Type 0} {P : C → Type 0} {X : E → Type 0} where
  pub Within-pure : (a : A) → Within {S = S} P X (pure a)
  unfolding pure
  Within-pure a = record { calls = λ s. tt; ends = λ s. tt }

  pub Within-throw : (e : E) → X e → Within {S = S} {A = A} P X (throw e)
  unfolding throw
  Within-throw e h = record { calls = λ s. tt; ends = λ s. h }

  pub Within-ask : (f : S → A × S) → Within P X (ask f)
  unfolding ask
  Within-ask f = record { calls = λ s. tt; ends = λ s. tt }

  pub Within-tell : (c : A → C) (f : S → A × S) → ((a : A) → P (c a)) → Within P X (tell c f)
  unfolding tell
  Within-tell c f h = record { calls = λ s. (h (f s).0, tt); ends = λ s. tt }

  pub Within-if :
      (b : Bool) (m n : Action E C S A)
      → Within P X m
      → Within P X n
      → Within P X (if b then m else n)
  Within-if true m n hm hn = hm
  Within-if false m n hm hn = hn

  pub Within-or_raise : (e : E) (o : Option A) → X e → Within {S = S} P X (or_raise e o)
  Within-or_raise e none h = Within-throw e h
  Within-or_raise e (some a) h = Within-pure a

  pub Within-lift : (r : Result E A) → Ends X r → Within {S = S} P X (lift r)
  Within-lift (ok a) h = Within-pure a
  Within-lift (raise e) h = Within-throw e h

module _ {E C S A : Type 0} {P : C → Type 0} {X Y : E → Type 0} where
  -- The exceptions of the body of a `try` stay inside.
  pub Within-attempt : (m : Action E C S A) → Within P Y m → Within P X (attempt m)
  unfolding attempt
  Within-attempt m h = record { calls = λ s. h.calls s; ends = λ s. tt }

module _ {E C S A B : Type 0} {P : C → Type 0} {X : E → Type 0} where
  calls-continue :
      (r : Result E A) (cs : List C) (s : S) (f : A → Action E C S B)
      → All P cs
      → ((a : A) → Within P X (f a))
      → All P (continue r cs s f).1
  calls-continue (ok a) cs s f h k = All-append P cs _ h ((k a).calls s)
  calls-continue (raise e) cs s f h k = h

  Ends-continue :
      (r : Result E A) (cs : List C) (s : S) (f : A → Action E C S B)
      → Ends X r
      → ((a : A) → Within P X (f a))
      → Ends X (continue r cs s f).0
  Ends-continue (ok a) cs s f h k = (k a).ends s
  Ends-continue (raise e) cs s f h k = h

  pub Within-bind :
      (m : Action E C S A) (f : A → Action E C S B)
      → Within P X m
      → ((a : A) → Within P X (f a))
      → Within P X (m >>= f)
  unfolding ◌>>=◌
  Within-bind m f hm hf = record {
    calls = λ s. calls-continue (m s).0 (m s).1 (m s).2 f (hm.calls s) hf;
    ends = λ s. Ends-continue (m s).0 (m s).1 (m s).2 f (hm.ends s) hf;
  }

module _ {E C S : Type 0} {P : C → Type 0} {X : E → Type 0} where
  pub Within-raise_if : (b : Bool) (e : E) → X e → Within {S = S} P X (raise_if b e)
  Within-raise_if true e h = Within-throw e h
  Within-raise_if false e h = Within-pure tt

pub ruleset within_rules = (
  Within-pure, Within-throw, Within-ask, Within-tell, Within-if, Within-or_raise, Within-bind,
  Within-raise_if, Within-lift,
)
