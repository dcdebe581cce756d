-- ===== src/Actions/Checked.antt =====
-- Checks in turn, with no state: the first that raises ends them.
use alpaca_connectors.Prelude.{
  Bool, true, false, ◌≡◌, refl, subst, Option, none, some, if◌then◌else◌,
}
use alpaca_connectors.Actions.{Result, ok, raise}

module _ {E A B : Type 0} where
  infixl 5 ◌>>?◌
  abbrev pub ◌>>?◌ : Result E A → (A → Result E B) → Result E B
  ok a >>? f = f a
  raise e >>? f = raise e

module _ {E A B : Type 0} where
  -- `if value is not None: values[key] = check(value)`
  abbrev pub check_given : (A → Result E B) → Option A → Result E (Option B)
  check_given check none = ok none
  check_given check (some a) = check a >>? λ b. ok (some b)

-- What a check lets through satisfies `P`.
pub record Passes {E A : Type 0} (P : A → Type 0) (r : Result E A) : Type 0 where
  pub passed : (a : A) → r ≡ ok a → P a

module _ {E A : Type 0} where
  ok_eq : (a b : A) → ◌≡◌ {A = Result E A} (ok a) (ok b) → a ≡ b
  ok_eq a b h = cc

module _ {E A : Type 0} {P : A → Type 0} where
  pub Passes-ok : (a : A) → P a → Passes {E = E} P (ok a)
  Passes-ok a h = record { passed = λ b e. subst P (ok_eq a b e) h }

  pub Passes-raise : (e : E) → Passes P (raise e)
  Passes-raise e = record { passed = λ b h. cc }

  -- A check that is one test.
  pub Passes-test :
      (b : Bool) (a : A) (e : E) → (b ≡ true → P a) → Passes P (if b then ok a else raise e)
  Passes-test true a e h = Passes-ok a (h refl)
  Passes-test false a e h = Passes-raise e

module _ {E A B : Type 0} {P : A → Type 0} {Q : B → Type 0} where
  pub Passes-bind :
      (r : Result E A) (f : A → Result E B)
      → Passes P r
      → ((a : A) → P a → Passes Q (f a))
      → Passes Q (r >>? f)
  Passes-bind (ok a) f h k = k a (h.passed a refl)
  Passes-bind (raise e) f h k = Passes-raise e

-- Of a value that may be missing.
abbrev pub Given : {A : Type 0} → (A → Type 0) → Option A → Type 0
Given P none = Unit
Given P (some a) = P a

module _ {E A B : Type 0} {P : B → Type 0} where
  pub Passes-Given :
      (check : A → Result E B) (o : Option A)
      → ((a : A) → Passes P (check a))
      → Passes (Given P) (check_given check o)
  Passes-Given check none h = Passes-ok none tt
  Passes-Given check (some a) h = Passes-bind (check a) _ (h a) (λ b k. Passes-ok (some b) k)
