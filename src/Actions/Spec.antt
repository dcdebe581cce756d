-- ===== src/Actions/Spec.antt =====
-- What the end of an operation and the list of its calls satisfy together.
use alpaca_connectors.Prelude.{
  ◌≡◌, refl, sym, subst, Bool, true, false, Option, none, some, List, [], ◌∷◌, ◌++◌, if◌then◌else◌,
}
use alpaca_connectors.Actions.{
  Result, ok, raise, Action, ◌>>=◌, continue, lift, pure, throw, ask, tell, attempt, or_raise,
  try_tell, try_ask,
}

pub record Spec {E C S A : Type 0} (Φ : Result E A → List C → Type 0) (m : Action E C S A)
    : Type 0 where
  pub at : (s : S) → Φ (m s).0 (m s).1

module _ {E C S A B : Type 0} where
  Spec-continue :
      (Φ : Result E A → List C → Type 0) (Ψ : Result E B → List C → Type 0) (r : Result E A)
      (cs : List C) (s : S) (f : A → Action E C S B)
      → ((a : A) (ds : List C) → Φ (ok a) ds → Spec (λ q es. Ψ q (ds ++ es)) (f a))
      → ((e : E) (ds : List C) → Φ (raise e) ds → Ψ (raise e) ds)
      → Φ r cs
      → Ψ (continue r cs s f).0 (continue r cs s f).1
  Spec-continue Φ Ψ (ok a) cs s f k l h = (k a cs h).at s
  Spec-continue Φ Ψ (raise e) cs s f k l h = l e cs h

  -- The rest of the operation may use what the first part has established.
  pub Spec-bind :
      (Φ : Result E A → List C → Type 0) {Ψ : Result E B → List C → Type 0} (m : Action E C S A)
      (f : A → Action E C S B)
      → Spec Φ m
      → ((a : A) (cs : List C) → Φ (ok a) cs → Spec (λ r ds. Ψ r (cs ++ ds)) (f a))
      → ((e : E) (cs : List C) → Φ (raise e) cs → Ψ (raise e) cs)
      → Spec Ψ (m >>= f)
  unfolding ◌>>=◌
  Spec-bind Φ {Ψ} m f h k l = record {
    at = λ s. Spec-continue Φ Ψ (m s).0 (m s).1 (m s).2 f k l (h.at s);
  }

module _ {E C S A : Type 0} {Φ : Result E A → List C → Type 0} where
  pub Spec-pure : (a : A) → Φ (ok a) [] → Spec {S = S} Φ (pure a)
  unfolding pure
  Spec-pure a h = record { at = λ s. h }

  pub Spec-throw : (e : E) → Φ (raise e) [] → Spec {S = S} Φ (throw e)
  unfolding throw
  Spec-throw e h = record { at = λ s. h }

  pub Spec-if :
      (b : Bool) (m n : Action E C S A)
      → (b ≡ true → Spec Φ m)
      → (b ≡ false → Spec Φ n)
      → Spec Φ (if b then m else n)
  Spec-if true m n hm hn = hm refl
  Spec-if false m n hm hn = hn refl

  pub Spec-ask : (f : S → A × S) → ((a : A) → Φ (ok a) []) → Spec Φ (ask f)
  unfolding ask
  Spec-ask f h = record { at = λ s. h (f s).0 }

  pub Spec-tell : (c : A → C) (f : S → A × S) → ((a : A) → Φ (ok a) (c a ∷ [])) → Spec Φ (tell c f)
  unfolding tell
  Spec-tell c f h = record { at = λ s. h (f s).0 }

  pub Spec-or_raise :
      (e : E) (o : Option A)
      → Φ (raise e) []
      → ((a : A) → Φ (ok a) [])
      → Spec {S = S} Φ (or_raise e o)
  Spec-or_raise e none h k = Spec-throw e h
  Spec-or_raise e (some a) h k = Spec-pure a (k a)

  pub Spec-weaken :
      (Ψ : Result E A → List C → Type 0) (m : Action E C S A)
      → Spec Ψ m
      → ((r : Result E A) (cs : List C) → Ψ r cs → Φ r cs)
      → Spec Φ m
  Spec-weaken Ψ m h k = record { at = λ s. k (m s).0 (m s).1 (h.at s) }

module _ {E C S A : Type 0} {Φ : Result E (Result E A) → List C → Type 0} where
  -- A `try` ends normally, with the end of its body.
  pub Spec-attempt : (m : Action E C S A) → Spec (λ r cs. Φ (ok r) cs) m → Spec Φ (attempt m)
  unfolding attempt
  Spec-attempt m h = record { at = λ s. h.at s }

module _ {E C S A : Type 0} where
  after_answer :
      (Φ : Result E A → List C → Type 0) (e : E) (cs : List C) (o : Option A) (s : S)
      → (o ≡ none → Φ (raise e) (cs ++ []))
      → ((a : A) → o ≡ some a → Φ (ok a) (cs ++ []))
      → Φ (continue (ok o) cs s (or_raise e)).0 (continue (ok o) cs s (or_raise e)).1
  unfolding throw pure
  after_answer Φ e cs none s h k = h refl
  after_answer Φ e cs (some a) s h k = k a refl

module _ {E C S A : Type 0} {Φ : Result E A → List C → Type 0} where
  pub Spec-try_tell :
      (e : E) (c : Option A → C) (f : S → Option A × S)
      → Φ (raise e) (c none ∷ [])
      → ((a : A) → Φ (ok a) (c (some a) ∷ []))
      → Spec Φ (try_tell e c f)
  unfolding tell ◌>>=◌
  Spec-try_tell e c f h k = record {
    at = λ s.
        after_answer Φ e (c (f s).0 ∷ []) (f s).0 (f s).1
          (λ q. subst (λ o. Φ (raise e) (c o ∷ [])) (sym q) h)
          (λ a q. subst (λ o. Φ (ok a) (c o ∷ [])) (sym q) (k a));
  }

  -- The rest may use which state gave the answer.
  pub Spec-try_ask_from :
      (e : E) (f : S → Option A × S)
      → Φ (raise e) []
      → ((s : S) (a : A) → (f s).0 ≡ some a → Φ (ok a) [])
      → Spec Φ (try_ask e f)
  unfolding ask ◌>>=◌
  Spec-try_ask_from e f h k = record {
    at = λ s. after_answer Φ e [] (f s).0 (f s).1 (λ _. h) (k s);
  }

  pub Spec-try_ask :
      (e : E) (f : S → Option A × S)
      → Φ (raise e) []
      → ((a : A) → Φ (ok a) [])
      → Spec Φ (try_ask e f)
  Spec-try_ask e f h k = Spec-try_ask_from e f h (λ s a q. k a)

module _ {E C S A : Type 0} {Φ : Result E A → List C → Type 0} where
  pub Spec-lift : (r : Result E A) → ((q : Result E A) → r ≡ q → Φ q []) → Spec {S = S} Φ (lift r)
  Spec-lift (ok a) h = Spec-pure a (h (ok a) refl)
  Spec-lift (raise e) h = Spec-throw e (h (raise e) refl)
