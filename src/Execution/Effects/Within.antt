-- ===== src/Execution/Effects/Within.antt =====
-- A rule for every form of an operation: which calls it may make, and which exceptions may leave it.
use alpaca_connectors.Prelude.{
  ◌≡◌, refl, Bool, true, false, Option, none, some, List, All, All-append, if◌then◌else◌,
}
use alpaca_connectors.Execution.Effects.{
  Call, Result, ok, raise, Action, Fault, pure, throw, ask, tell, ◌>>=◌, continue, or_raise,
  raise_if,
}

-- Every call satisfies `P`, and so does every exception `E`.
abbrev pub Ends : {A : Type 0} → (Fault → Type 0) → Result A → Type 0
Ends E (ok _) = Unit
Ends E (raise e) = E e

pub record Within {S A : Type 0} (P : Call → Type 0) (E : Fault → Type 0) (m : Action S A)
    : Type 0 where
  pub calls : (s : S) → All P (m s).1
  pub ends : (s : S) → Ends E (m s).0

module _ {S A : Type 0} {P : Call → Type 0} {E : Fault → Type 0} where
  pub Within-pure : (a : A) → Within {S = S} P E (pure a)
  unfolding pure
  Within-pure a = record { calls = λ s. tt; ends = λ s. tt }

  pub Within-throw : (e : Fault) → E e → Within {S = S} {A = A} P E (throw e)
  unfolding throw
  Within-throw e h = record { calls = λ s. tt; ends = λ s. h }

  pub Within-ask : (f : S → A × S) → Within P E (ask f)
  unfolding ask
  Within-ask f = record { calls = λ s. tt; ends = λ s. tt }

  pub Within-tell : (c : A → Call) (f : S → A × S) → ((a : A) → P (c a)) → Within P E (tell c f)
  unfolding tell
  Within-tell c f h = record { calls = λ s. (h (f s).0, tt); ends = λ s. tt }

  pub Within-if :
      (b : Bool) (m n : Action S A) → Within P E m → Within P E n → Within P E (if b then m else n)
  Within-if true m n hm hn = hm
  Within-if false m n hm hn = hn

  -- The two ends of an `elim` on a test.
  pub Within-choice :
      (b : Bool) {m n : Action S A}
      → Within P E m
      → (b ≡ false → Within P E n)
      → Within P E (elim b [ true ↦ m | false ↦ n ])
  Within-choice true hm hn = hm
  Within-choice false hm hn = hn refl

  pub Within-or_raise : (e : Fault) (o : Option A) → E e → Within {S = S} P E (or_raise e o)
  Within-or_raise e none h = Within-throw e h
  Within-or_raise e (some a) h = Within-pure a

module _ {S A B : Type 0} {P : Call → Type 0} {E : Fault → Type 0} where
  calls-continue :
      (r : Result A) (cs : List Call) (s : S) (f : A → Action S B)
      → All P cs
      → ((a : A) → Within P E (f a))
      → All P (continue r cs s f).1
  calls-continue (ok a) cs s f h k = All-append P cs _ h ((k a).calls s)
  calls-continue (raise e) cs s f h k = h

  Ends-continue :
      (r : Result A) (cs : List Call) (s : S) (f : A → Action S B)
      → Ends E r
      → ((a : A) → Within P E (f a))
      → Ends E (continue r cs s f).0
  Ends-continue (ok a) cs s f h k = (k a).ends s
  Ends-continue (raise e) cs s f h k = h

  pub Within-bind :
      (m : Action S A) (f : A → Action S B)
      → Within P E m
      → ((a : A) → Within P E (f a))
      → Within P E (m >>= f)
  unfolding ◌>>=◌
  Within-bind m f hm hf = record {
    calls = λ s. calls-continue (m s).0 (m s).1 (m s).2 f (hm.calls s) hf;
    ends = λ s. Ends-continue (m s).0 (m s).1 (m s).2 f (hm.ends s) hf;
  }

module _ {S : Type 0} {P : Call → Type 0} {E : Fault → Type 0} where
  pub Within-raise_if : (b : Bool) (e : Fault) → E e → Within {S = S} P E (raise_if b e)
  Within-raise_if true e h = Within-throw e h
  Within-raise_if false e h = Within-pure tt

pub ruleset within_rules = (
  Within-pure, Within-throw, Within-ask, Within-tell, Within-if, Within-or_raise, Within-bind,
  Within-raise_if,
)
