-- ===== src/Query.antt =====
-- query/: from a question to the context that answers it.
pub mod Fastpath
pub mod Translate
pub mod Bundle
use ai_forge_memory.Prelude.{String, List, [], ◌∷◌, ◌≡◌, refl, ◌⊎◌, inl, inr}
use ai_forge_memory.Prelude.Text.{◌&◌}

-- What a call of the graph database, of a service or of the model gives: a value, or the text of
-- the exception that it raises.
pub data Reply (A : Type 0) : Type 0 where
  replied : A → Reply A
  raised : String → Reply A

module _ {A : Type 0} where
  -- `errors.append(f"{name}: {exc}")`, for a call that raised.
  abbrev pub failure : String → Reply A → List String
  failure name (replied a) = []
  failure name (raised exc) = name & ": " & exc ∷ []

  -- What is kept of a guarded call: its value, or what stood there before.
  abbrev pub or_else : A → Reply A → A
  or_else a (replied b) = b
  or_else a (raised exc) = a

  -- The name of a source that was read.
  abbrev pub success : String → Reply A → List String
  success name (replied a) = name ∷ []
  success name (raised exc) = []

pub Reply-cases :
    {A : Type 0} (r : Reply A) → ((a : A) × (r ≡ replied a)) ⊎ ((exc : String) × (r ≡ raised exc))
Reply-cases (replied a) = inl (a, refl)
Reply-cases (raised exc) = inr (exc, refl)
