-- ===== src/Actions/Calls.antt =====
-- That every call of an operation satisfies a predicate, where the rest depends on a check.
use alpaca_connectors.Prelude.{◌≡◌, refl, List, [], All, All-append}
use alpaca_connectors.Actions.{Result, ok, raise, Action, lift, ◌>>=◌}
use alpaca_connectors.Actions.Spec.{Spec, Spec-bind, Spec-lift, Spec-weaken}
use alpaca_connectors.Actions.Within.{Within}
use alpaca_connectors.Actions.Checked.{Passes}

abbrev pub Calls : {E C A : Type 0} → (C → Type 0) → Result E A → List C → Type 0
Calls P r cs = All P cs

abbrev Checks : {E C A : Type 0} → (A → Type 0) → Result E A → List C → Type 0
Checks Q (ok a) cs = (cs ≡ []) × Q a
Checks Q (raise _) cs = cs ≡ []

module _ {E C S A : Type 0} {P : C → Type 0} where
  pub Calls-Within : {X : E → Type 0} {m : Action E C S A} → Within P X m → Spec (Calls P) m
  Calls-Within h = record { at = λ s. h.calls s }

module _ {E C S A B : Type 0} {P : C → Type 0} where
  pub Calls-bind :
      (m : Action E C S A) (f : A → Action E C S B)
      → Spec (Calls P) m
      → ((a : A) → Spec (Calls P) (f a))
      → Spec (Calls P) (m >>= f)
  Calls-bind m f h k =
      Spec-bind (Calls P) m f h
        (λ a cs hc. Spec-weaken (Calls P) (f a) (k a) (λ r ds hd. All-append P cs ds hc hd))
        (λ e cs hc. hc)

  -- What follows a check may use what it lets through.
  pub Calls-checked :
      {Q : A → Type 0} (r : Result E A) (f : A → Action E C S B)
      → Passes Q r
      → ((a : A) → Q a → Spec (Calls P) (f a))
      → Spec (Calls P) (lift r >>= f)
  Calls-checked {Q} r f h k =
      Spec-bind (Checks Q) (lift r) f (Spec-lift r checked)
        (λ a cs c. Spec-weaken (Calls P) (f a) (k a c.1) (λ q ds hd. rw c.0 hd))
        (λ e cs empty. rw empty tt)
    where
      checked : (q : Result E A) → r ≡ q → Checks {C = C} Q q []
      checked (ok a) e = (refl, h.passed a e)
      checked (raise x) e = refl
