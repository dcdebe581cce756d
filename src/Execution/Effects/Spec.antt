-- ===== src/Execution/Effects/Spec.antt =====
-- What the end of an operation and the list of its calls satisfy together.
use alpaca_connectors.Prelude.{Bool, true, false, List, [], ◌++◌, if◌then◌else◌}
use alpaca_connectors.Execution.Effects.{
  Call, Fault, Result, ok, raise, Action, ◌>>=◌, continue, pure, throw,
}

pub record Spec {S A : Type 0} (Φ : Result A → List Call → Type 0) (m : Action S A) : Type 0 where
  pub at : (s : S) → Φ (m s).0 (m s).1

module _ {S A B : Type 0} where
  pub Spec-continue :
      (Φ : Result A → List Call → Type 0) (Ψ : Result B → List Call → Type 0) (r : Result A)
      (cs : List Call) (s : S) (f : A → Action S B)
      → ((a : A) (ds : List Call) → Φ (ok a) ds → Spec (λ q es. Ψ q (ds ++ es)) (f a))
      → ((e : Fault) (ds : List Call) → Φ (raise e) ds → Ψ (raise e) ds)
      → Φ r cs
      → Ψ (continue r cs s f).0 (continue r cs s f).1
  Spec-continue Φ Ψ (ok a) cs s f k l h = (k a cs h).at s
  Spec-continue Φ Ψ (raise e) cs s f k l h = l e cs h

  -- The rest of the operation may use what the first part has established.
  pub Spec-bind :
      (Φ : Result A → List Call → Type 0) {Ψ : Result B → List Call → Type 0} (m : Action S A)
      (f : A → Action S B)
      → Spec Φ m
      → ((a : A) (cs : List Call) → Φ (ok a) cs → Spec (λ r ds. Ψ r (cs ++ ds)) (f a))
      → ((e : Fault) (cs : List Call) → Φ (raise e) cs → Ψ (raise e) cs)
      → Spec Ψ (m >>= f)
  unfolding ◌>>=◌
  Spec-bind Φ {Ψ} m f h k l = record {
    at = λ s. Spec-continue Φ Ψ (m s).0 (m s).1 (m s).2 f k l (h.at s);
  }

module _ {S A : Type 0} {Φ Ψ : Result A → List Call → Type 0} where
  -- A weaker property.
  pub Spec-weaken :
      (m : Action S A) → Spec Φ m → ((r : Result A) (cs : List Call) → Φ r cs → Ψ r cs) → Spec Ψ m
  Spec-weaken m h k = record { at = λ s. k (m s).0 (m s).1 (h.at s) }

module _ {S A : Type 0} {Φ : Result A → List Call → Type 0} where
  pub Spec-pure : (a : A) → Φ (ok a) [] → Spec {S = S} Φ (pure a)
  unfolding pure
  Spec-pure a h = record { at = λ s. h }

-- Nothing is asked.
abbrev pub Anyhow : {A : Type 0} → Result A → List Call → Type 0
Anyhow _ _ = Unit

pub Spec-any : {S A : Type 0} {m : Action S A} → Spec Anyhow m
Spec-any = record { at = λ s. tt }

module _ {S A : Type 0} {Φ : Result A → List Call → Type 0} where
  pub Spec-throw : (e : Fault) → Φ (raise e) [] → Spec {S = S} Φ (throw e)
  unfolding throw
  Spec-throw e h = record { at = λ s. h }

  pub Spec-if : (b : Bool) (m n : Action S A) → Spec Φ m → Spec Φ n → Spec Φ (if b then m else n)
  Spec-if true m n hm hn = hm
  Spec-if false m n hm hn = hn

  -- The two ends of an `elim` on a test.
  pub Spec-choice :
      (b : Bool) (m n : Action S A) → Spec Φ m → Spec Φ n → Spec Φ (elim b [ true ↦ m | false ↦ n ])
  Spec-choice true m n hm hn = hm
  Spec-choice false m n hm hn = hn
