-- ===== src/Exec.antt =====
-- Code that works on a state and may raise: what was written before an exception stays written.
pub mod Yields
use ai_forge_memory.Prelude.{Option, none, some}

abbrev pub Exec : Type 0 → Type 0 → Type 0
Exec S A = S → Option A × S

module _ {S A : Type 0} where
  unfoldable pub pure : A → Exec S A
  pure a s = (some a, s)

  -- A call that may raise and touches nothing.
  unfoldable pub lift : Option A → Exec S A
  lift o s = (o, s)

  -- `try: … except Exception: pass`
  unfoldable pub attempt : Exec S A → Exec S (Unit {0})
  attempt m s = (some tt, (m s).1)

  -- `try: return … except Exception: return a`
  unfoldable pub rescue : A → Exec S A → Exec S A
  rescue a m s = let (r, s') = m s in elim r [ none ↦ (some a, s') | some b ↦ (some b, s') ]

abbrev pub modify : {S : Type 0} → (S → S) → Exec S (Unit {0})
modify f s = (some tt, f s)

infixl 5 ◌>>=◌ ◌>>◌
unfoldable pub ◌>>=◌ : {S A B : Type 0} → Exec S A → (A → Exec S B) → Exec S B
◌>>=◌ m f s = let (r, s') = m s in elim r [ none ↦ (none, s') | some a ↦ f a s' ]

abbrev pub ◌>>◌ : {S A B : Type 0} → Exec S A → Exec S B → Exec S B
m >> k = m >>= λ _. k
