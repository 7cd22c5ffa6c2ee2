-- ===== src/Prelude/Map.antt =====
-- Maps as functions of their key (a Python dict or a table that is read by key only): a write
-- replaces the value at one key.
use Prim.Native.Nat.{ℕ}
use Prim.Native.String.{String}
use mathlib.Core.Path.{◌≡◌}
use mathlib.Core.Logic.{◌≢◌}
use native.Mathlib.Omega.{arith}
use text.Mathlib.Text.{◌==◌}
use text.Mathlib.TextEquality.{eq_iff}
use ai_forge_memory.Prelude.Tests.{eqb, if◌then◌else◌}

module _ {ℓ} {V : Type ℓ} where
  -- `m[k] = v`
  abbrev pub put : String → V → (String → V) → String → V
  put k v m j = if k == j then v else m j

  -- The same for a map whose keys are numbers.
  abbrev pub put_at : ℕ → V → (ℕ → V) → ℕ → V
  put_at k v m j = if eqb k j then v else m j

  pub put_self : (k : String) (v : V) (m : String → V) → put k v m k ≡ v
  put_self k v m = ground (arith, eq_iff k k)

  pub put_ne : (k j : String) (v : V) (m : String → V) → k ≢ j → put k v m j ≡ m j
  put_ne k j v m h = ground (arith, eq_iff k j)
