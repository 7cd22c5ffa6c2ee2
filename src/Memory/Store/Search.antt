-- ===== src/Memory/Store/Search.antt =====
-- features/memory/store.py: the search for a duplicate among the nodes, when some of them are written.
use ai_forge_memory.Prelude.{
  Bool, ◌||◌, is_some, List, [], ◌∷◌, length, ◌≡◌, refl, arith, if◌then◌else◌, Bool-cases, inl, inr,
}
use ai_forge_memory.Memory.Store.{Node, set_where, find_dup}

abbrev pub has_dup : (Node → Bool) → List Node → Bool
has_dup p ns = is_some (find_dup p ns)

pub has_dup-cons :
    (p : Node → Bool) (n : Node) (ns : List Node) → has_dup p (n ∷ ns) ≡ (p n || has_dup p ns)
unfolding find_dup
has_dup-cons p n ns = elim (Bool-cases (p n)) [ inl t ↦ rw t refl | inr f ↦ rw f refl ]

-- A change that keeps what the search looks at keeps its success.
pub has_dup-set_where :
    (p q : Node → Bool) (f : Node → Node)
    → ((n : Node) → p (f n) ≡ p n)
    → (ns : List Node) → has_dup p (set_where q f ns) ≡ has_dup p ns
has_dup-set_where p q f keeps [] = refl
has_dup-set_where p q f keeps (n ∷ ns) =
    rw
      (
        has_dup-cons p (if q n then f n else n) (set_where q f ns),
        has_dup-cons p n ns,
        has_dup-set_where p q f keeps ns,
      )
      (elim (Bool-cases (q n)) [ inl t ↦ rw (t, keeps n) refl | inr u ↦ rw u refl ])

pub length-set_where :
    (q : Node → Bool) (f : Node → Node) (ns : List Node) → length (set_where q f ns) ≡ length ns
length-set_where q f [] = refl
length-set_where q f (n ∷ ns) = omega (arith, length-set_where q f ns)
