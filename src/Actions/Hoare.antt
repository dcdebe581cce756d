-- ===== src/Actions/Hoare.antt =====
-- What an operation brings about from the states that satisfy a condition.
use alpaca_connectors.Prelude.{◌≡◌, refl, Option, none, some, List, [], ◌∷◌, ◌++◌}
use alpaca_connectors.Actions.{
  Result, ok, raise, Action, ◌>>=◌, continue, lift, pure, throw, ask, tell, or_raise, try_tell,
  try_ask,
}

-- The end, the calls and the state left satisfy `Q`, from every state that satisfies `P`.
pub record Hoare {E C S A : Type 0} (P : S → Type 0) (Q : Result E A → List C → S → Type 0)
    (m : Action E C S A) : Type 0 where
  pub at : (s : S) → P s → Q (m s).0 (m s).1 (m s).2

-- Of a normal end only.
abbrev pub Then : {E C S A : Type 0} → (A → S → Type 0) → Result E A → List C → S → Type 0
Then Q (ok a) cs t = Q a t
Then Q (raise e) cs t = Unit

module _ {E C S A B : Type 0} where
  Hoare-continue :
      (Φ : Result E A → List C → S → Type 0) (Q : Result E B → List C → S → Type 0) (r : Result E A)
      (cs : List C) (s : S) (f : A → Action E C S B)
      → ((a : A) (ds : List C) → Hoare (λ t. Φ (ok a) ds t) (λ q es t. Q q (ds ++ es) t) (f a))
      → ((e : E) (ds : List C) (t : S) → Φ (raise e) ds t → Q (raise e) ds t)
      → Φ r cs s
      → Q (continue r cs s f).0 (continue r cs s f).1 (continue r cs s f).2
  Hoare-continue Φ Q (ok a) cs s f k l h = (k a cs).at s h
  Hoare-continue Φ Q (raise e) cs s f k l h = l e cs s h

  pub Hoare-bind :
      {P : S → Type 0} (Φ : Result E A → List C → S → Type 0) {Q : Result E B → List C → S → Type 0}
      (m : Action E C S A) (f : A → Action E C S B)
      → Hoare P Φ m
      → ((a : A) (cs : List C) → Hoare (λ t. Φ (ok a) cs t) (λ r ds t. Q r (cs ++ ds) t) (f a))
      → ((e : E) (cs : List C) (t : S) → Φ (raise e) cs t → Q (raise e) cs t)
      → Hoare P Q (m >>= f)
  unfolding ◌>>=◌
  Hoare-bind Φ {Q} m f h k l = record {
    at = λ s p. Hoare-continue Φ Q (m s).0 (m s).1 (m s).2 f k l (h.at s p);
  }

module _ {E C S A : Type 0} {P : S → Type 0} {Q : Result E A → List C → S → Type 0} where
  pub Hoare-pure : (a : A) → ((s : S) → P s → Q (ok a) [] s) → Hoare P Q (pure a)
  unfolding pure
  Hoare-pure a h = record { at = h }

  pub Hoare-throw : (e : E) → ((s : S) → P s → Q (raise e) [] s) → Hoare P Q (throw e)
  unfolding throw
  Hoare-throw e h = record { at = h }

  pub Hoare-ask : (f : S → A × S) → ((s : S) → P s → Q (ok (f s).0) [] (f s).1) → Hoare P Q (ask f)
  unfolding ask
  Hoare-ask f h = record { at = h }

  pub Hoare-weaken :
      (P' : S → Type 0) (m : Action E C S A) → Hoare P' Q m → ((s : S) → P s → P' s) → Hoare P Q m
  Hoare-weaken P' m h k = record { at = λ s p. h.at s (k s p) }

  -- The condition may be a fact beside the state.
  pub Hoare-given : (m : Action E C S A) → ((s : S) → P s → Hoare P Q m) → Hoare P Q m
  Hoare-given m h = record { at = λ s p. (h s p).at s p }

module _ {E C S A : Type 0} where
  answered :
      (Q : Result E A → List C → S → Type 0) (e : E) (cs : List C) (o : Option A) (s : S)
      → (o ≡ none → Q (raise e) (cs ++ []) s)
      → ((a : A) → o ≡ some a → Q (ok a) (cs ++ []) s)
      → let end = continue (ok o) cs s (or_raise e) in Q end.0 end.1 end.2
  unfolding throw pure
  answered Q e cs none s h k = h refl
  answered Q e cs (some a) s h k = k a refl

module _ {E C S A : Type 0} {P : S → Type 0} {Q : Result E A → List C → S → Type 0} where
  pub Hoare-try_ask :
      (e : E) (f : S → Option A × S)
      → ((s : S) → P s → (f s).0 ≡ none → Q (raise e) [] (f s).1)
      → ((s : S) (a : A) → P s → (f s).0 ≡ some a → Q (ok a) [] (f s).1)
      → Hoare P Q (try_ask e f)
  unfolding ask ◌>>=◌
  Hoare-try_ask e f h k = record {
    at = λ s p. answered Q e [] (f s).0 (f s).1 (h s p) (λ a. k s a p);
  }

module _ {E C S A : Type 0} {P : S → Type 0} {Q : A → S → Type 0} where
  -- A collaborator that may raise, and what its answer says of the state it leaves.
  pub Then-try_ask :
      (e : E) (f : S → Option A × S)
      → ((s : S) (a : A) → P s → (f s).0 ≡ some a → Q a (f s).1)
      → Hoare {C = C} P (Then Q) (try_ask e f)
  Then-try_ask e f h = Hoare-try_ask e f (λ s p q. tt) h

  pub Then-try_tell :
      (e : E) (c : Option A → C) (f : S → Option A × S)
      → ((s : S) (a : A) → P s → (f s).0 ≡ some a → Q a (f s).1)
      → Hoare P (Then Q) (try_tell e c f)
  unfolding tell ◌>>=◌
  Then-try_tell e c f h = record {
    at = λ s p. answered (Then Q) e (c (f s).0 ∷ []) (f s).0 (f s).1 (λ _. tt) (λ a q. h s a p q);
  }

  pub Then-lift :
      (r : Result E A)
      → ((s : S) (a : A) → P s → r ≡ ok a → Q a s)
      → Hoare {C = C} P (Then Q) (lift r)
  Then-lift (ok a) h = Hoare-pure a (λ s p. h s a p refl)
  Then-lift (raise e) h = Hoare-throw e (λ s p. tt)

  pub Then-or_raise :
      (e : E) (o : Option A)
      → ((s : S) (a : A) → P s → o ≡ some a → Q a s)
      → Hoare {C = C} P (Then Q) (or_raise e o)
  Then-or_raise e none h = Hoare-throw e (λ s p. tt)
  Then-or_raise e (some a) h = Hoare-pure a (λ s p. h s a p refl)

module _ {E C S A B : Type 0} {P : S → Type 0} {Q : B → S → Type 0} where
  -- Two operations in turn, each under what the one before has brought about.
  pub Then-bind :
      (R : A → S → Type 0) (m : Action E C S A) (f : A → Action E C S B)
      → Hoare P (Then R) m
      → ((a : A) → Hoare (R a) (Then Q) (f a))
      → Hoare P (Then Q) (m >>= f)
  Then-bind R m f h k = Hoare-bind (Then R) m f h (λ a cs. later cs (f a) (k a)) (λ e cs t _. tt)
    where
      same : (r : Result E B) (cs ds : List C) (t : S) → Then Q r ds t → Then Q r (cs ++ ds) t
      same (ok a) cs ds t h = h
      same (raise e) cs ds t h = tt

      later :
          {R' : S → Type 0} (cs : List C) (m' : Action E C S B)
          → Hoare R' (Then Q) m'
          → Hoare R' (λ r ds t. Then Q r (cs ++ ds) t) m'
      later cs m' h = record { at = λ s p. same (m' s).0 cs (m' s).1 (m' s).2 (h.at s p) }
