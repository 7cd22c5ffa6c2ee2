-- ===== src/Exec/Yields.antt =====
-- What holds of the values that an action returns, whatever the state.
use ai_forge_memory.Prelude.{Option, some, some-injective, ◌≡◌, subst, Option-cases, inl, inr}
use ai_forge_memory.Exec.{Exec, pure, lift, ◌>>=◌}

-- What holds of every value that an action returns.
pub record Yields {S A : Type 0} (m : Exec S A) (P : A → Type 0) : Type 0 where
  pub at : (s : S) (a : A) → (m s).0 ≡ some a → P a

module _ {S A : Type 0} where
  pub Yields-pure : (a : A) (P : A → Type 0) → P a → Yields (pure {S = S} a) P
  unfolding pure
  Yields-pure a P h = record { at = λ s b e. subst P (some-injective a b e) h }

  pub Yields-lift : (o : Option A) → Yields (lift {S = S} o) (λ a. o ≡ some a)
  unfolding lift
  Yields-lift o = record { at = λ s a e. e }

  pub Yields-any : (m : Exec S A) → Yields m (λ a. Unit)
  Yields-any m = record { at = λ s a e. tt }

module _ {S A B : Type 0} where
  pub Yields-bind :
      (m : Exec S A) (f : A → Exec S B) (P : A → Type 0) (Q : B → Type 0)
      → Yields m P
      → ((a : A) → P a → Yields (f a) Q)
      → Yields (m >>= f) Q
  unfolding ◌>>=◌
  Yields-bind m f P Q h k = record {
    at = λ s b e. elim (Option-cases (m s).0) [
      | inl n ↦ cc (rw (n, ◌>>=◌) at e)
      | inr (a, p) ↦ (k a (h.at s a p)).at (m s).1 b (rw (p, ◌>>=◌) at e)
    ];
  }
