-- ===== src/Lsp/Client/Total.antt =====
-- features/lsp/client.py: the loop of the reader ends on every stream that does.
use ai_forge_memory.Prelude.{
  ℕ, zero, suc, ◌+◌, ◌≤◌, ◌<◌, Option, none, some, List, [], ◌∷◌, ◌≡◌, inl, inr, length,
  length-append, length-drop, leb, eqb, arith, Bool-cases,
}
use mathlib.Core.Option
use ai_forge_memory.Prelude.Text.{Text}
use ai_forge_memory.Lsp.Client.{
  Stream, size, newline, break_line, join_line, readline, read, add_header, header_of,
  is_blank_line, Headers, at_end, complete, step_headers, read_headers, parsed, read_body,
  after_headers, read_one, step_loop, read_loop, received,
}

left_of : Option Text → ℕ
left_of none = 0
left_of (some r) = length r

break_line-length : (p : Text) → length (break_line p).0 + left_of (break_line p).1 ≡ length p
unfolding left_of
break_line-length [] = omega arith
break_line-length (c ∷ s) = elim (Bool-cases (eqb c newline)) [
  | inl t ↦ rw t (omega arith)
  | inr f ↦ rw f (omega (arith, break_line-length s))
]

join_line-size :
    (b : Text × Option Text) (ps : Stream) (next : Text × Stream)
    → length next.0 + size next.1 ≡ size ps
    → length (join_line b ps next).0 + size (join_line b ps next).1
      ≡ length b.0 + left_of b.1 + size ps
unfolding left_of
join_line-size (l, some r) ps next h = omega arith
join_line-size (l, none) ps next h = omega (arith, h, length-append l next.0)

readline-size : (s : Stream) → length (readline s).0 + size (readline s).1 ≡ size s
unfolding readline
readline-size [] = omega arith
readline-size (p ∷ ps) =
    omega (
      arith,
      join_line-size (break_line p) ps (readline ps) (readline-size ps),
      break_line-length p,
    )

read-size : (n : ℕ) (s : Stream) → size (read n s).1 ≤ size s
unfolding read
read-size n [] = omega arith
read-size n ([] ∷ ps) = omega (arith, read-size n ps)
read-size n ((c ∷ p) ∷ ps) = omega (arith, length-drop n (c ∷ p))

-- What is left is smaller, unless the stream is at its end; and the fuel does not run out.
abbrev Shrinks : ℕ → Option Headers → Type 0
Shrinks n none = ⊥
Shrinks n (some at_end) = Unit
Shrinks n (some (complete hs rest)) = size rest < n

step_headers-Shrinks :
    (more : List (Text × Text) → Stream → Option Headers) (hs : List (Text × Text))
    (r : Text × Stream) (n : ℕ)
    → length r.0 + size r.1 ≡ n
    → ((hs' : List (Text × Text)) (s : Stream) → size s < n → Shrinks n (more hs' s))
    → Shrinks n (step_headers more hs r)
step_headers-Shrinks more hs ([], rest) n e k = tt
step_headers-Shrinks more hs (c ∷ l, rest) n e k = elim (Bool-cases (is_blank_line (c ∷ l))) [
  | inl t ↦ rw t (omega (arith, e))
  | inr f ↦ rw f (k (add_header (header_of (c ∷ l)) hs) rest (omega (arith, e)))
]

Shrinks-le : (m n : ℕ) (o : Option Headers) → m ≤ n → Shrinks m o → Shrinks n o
Shrinks-le m n none le h = h
Shrinks-le m n (some at_end) le h = tt
Shrinks-le m n (some (complete hs rest)) le h = omega (arith, le, h)

read_headers-Shrinks :
    (fuel : ℕ) (hs : List (Text × Text)) (s : Stream)
    → size s < fuel
    → Shrinks (size s) (read_headers fuel hs s)
unfolding read_headers
read_headers-Shrinks zero hs s h = absurd (omega arith)
read_headers-Shrinks (suc fuel) hs s h =
    step_headers-Shrinks (read_headers fuel) hs (readline s) (size s) (readline-size s) λ hs' s' lt.
      Shrinks-le (size s') (size s) (read_headers fuel hs' s') (omega (arith, lt))
        (read_headers-Shrinks fuel hs' s' (omega (arith, lt, h)))

module _ {M : Type 0} (dumps : M → Text) (loads : Text → Option M) where
  abbrev Advances : ℕ → Option (M × Stream) → Type 0
  Advances n none = Unit
  Advances n (some (m, rest)) = size rest < n

  abbrev AdvancesOne : ℕ → Option (Option (M × Stream)) → Type 0
  AdvancesOne n none = ⊥
  AdvancesOne n (some r) = Advances n r

  kept :
      (n : ℕ) (o : Option M) (rest : Stream)
      → size rest < n
      → Advances n (Option.map (λ m. (m, rest)) o)
  kept n none rest h = tt
  kept n (some m) rest h = h

  read_body-Advances :
      (n : ℕ) (l : Option ℕ) (s : Stream) → size s < n → Advances n (read_body dumps loads l s)
  unfolding read_body
  read_body-Advances n none s h = tt
  read_body-Advances n (some k) s h = elim (Bool-cases (leb k 0)) [
    | inl t ↦ rw t tt
    | inr f ↦
        rw f
          (kept n (parsed dumps loads (read k s).0) (read k s).1 (omega (arith, h, read-size k s)))
  ]

  after_headers-Advances :
      (n : ℕ) (o : Option Headers)
      → Shrinks n o
      → AdvancesOne n (Option.map (after_headers dumps loads) o)
  after_headers-Advances n none h = h
  after_headers-Advances n (some at_end) h = tt
  after_headers-Advances n (some (complete hs rest)) h = read_body-Advances n _ rest h

  read_one-Advances : (s : Stream) → AdvancesOne (size s) (read_one dumps loads s)
  unfolding read_one
  read_one-Advances s =
      after_headers-Advances (size s) (read_headers (suc (size s)) [] s)
        (read_headers-Shrinks (suc (size s)) [] s (omega arith))

  abbrev pub Ends : Option (List M) → Type 0
  Ends none = ⊥
  Ends (some ms) = Unit

  step_loop-Ends :
      (more : Stream → Option (List M)) (n : ℕ) (r : Option (Option (M × Stream)))
      → AdvancesOne n r
      → ((s : Stream) → size s < n → Ends (more s))
      → Ends (step_loop dumps loads more r)
  step_loop-Ends more n none h k = h
  step_loop-Ends more n (some none) h k = tt
  step_loop-Ends more n (some (some (m, rest))) h k = one_more m (more rest) (k rest h)
    where
      one_more : (m : M) (o : Option (List M)) → Ends o → Ends (Option.map (λ ms. m ∷ ms) o)
      one_more m none h = h
      one_more m (some ms) h = tt

  read_loop-Ends : (fuel : ℕ) (s : Stream) → size s < fuel → Ends (read_loop dumps loads fuel s)
  unfolding read_loop
  read_loop-Ends zero s h = absurd (omega arith)
  read_loop-Ends (suc fuel) s h =
      step_loop-Ends (read_loop dumps loads fuel) (size s) (read_one dumps loads s)
        (read_one-Advances s) λ s' lt. read_loop-Ends fuel s' (omega (arith, lt, h))

  -- On every finite stream the loop of the reader ends within the fuel that it is given.
  pub received-Ends : (s : Stream) → Ends (received dumps loads s)
  unfolding received
  received-Ends s = read_loop-Ends (suc (size s)) s (omega arith)
