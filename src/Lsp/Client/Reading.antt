-- ===== src/Lsp/Client/Reading.antt =====
-- features/lsp/client.py: what the loop of the reader gets from the frames of a server.
use ai_forge_memory.Prelude.{
  ℕ, zero, suc, ◌≤◌, ◌<◌, false, Option, none, some, List, [], ◌∷◌, ◌++◌, ◌≡◌, ◌≢◌, refl, ap, ◌∙◌,
  length, length-append, map, leb, arith, take_all, drop_all,
}
use mathlib.Core.Option
use mathlib.Core.List.{append-nil}
use native.Mathlib.Nat.{zero-add}
use ai_forge_memory.Prelude.Text.{Text}
use ai_forge_memory.Lsp.Client.{
  Stream, size, readline, read, read_headers, send, read_body, read_one, after_headers, step_loop,
  read_loop, received,
}
use ai_forge_memory.Lsp.Client.Framing.{header, read_one-header}

positive : (b : Text) → b ≢ [] → leb (length b) 0 ≡ false
positive [] h = absurd (h refl)
positive (c ∷ b) h = ground arith

-- A read that asks for more than the piece has gives the piece alone.
read_short :
    (n : ℕ) (p : Text) (ps : Stream) → p ≢ [] → length p ≤ n → read n (p ∷ ps) ≡ (p, [] ∷ ps)
unfolding read
read_short n [] ps h le = absurd (h refl)
read_short n (c ∷ p) ps h le = λ i. (take_all n (c ∷ p) le i, drop_all n (c ∷ p) le i ∷ ps)

readline-empty : (s : Stream) → readline ([] ∷ s) ≡ readline s
unfolding readline
readline-empty s = refl

read_headers-empty :
    (fuel : ℕ) (s : Stream) → read_headers fuel [] ([] ∷ s) ≡ read_headers fuel [] s
unfolding read_headers
read_headers-empty zero s = refl
read_headers-empty (suc fuel) s = rw (readline-empty s)

module _ {M : Type 0} (dumps : M → Text) (loads : Text → Option M) where
  read_one-empty : (s : Stream) → read_one dumps loads ([] ∷ s) ≡ read_one dumps loads s
  unfolding read_one
  read_one-empty s =
      ap (λ k. Option.map (after_headers dumps loads) (read_headers (suc k) [] ([] ∷ s)))
        (zero-add (size s))
      ∙ ap (Option.map (after_headers dumps loads)) (read_headers-empty (suc (size s)) s)

  read_one-nil : read_one dumps loads [] ≡ some none
  unfolding read_one read_headers readline
  read_one-nil = refl

  read_loop-empty :
      (fuel : ℕ) (s : Stream) → read_loop dumps loads fuel ([] ∷ s) ≡ read_loop dumps loads fuel s
  unfolding read_loop
  read_loop-empty zero s = refl
  read_loop-empty (suc fuel) s =
      ap (step_loop dumps loads (read_loop dumps loads fuel)) (read_one-empty s)

  read_loop-nil : (fuel : ℕ) → read_loop dumps loads (suc fuel) [] ≡ some []
  unfolding read_loop
  read_loop-nil fuel = ap (step_loop dumps loads (read_loop dumps loads fuel)) read_one-nil

  read_body-piece :
      (n : ℕ) (p : Text) (ps : Stream)
      → leb n 0 ≡ false
      → p ≢ []
      → length p ≤ n
      → read_body dumps loads (some n) (p ∷ ps) ≡ Option.map (λ m. (m, [] ∷ ps)) (loads p)
  unfolding read_body
  read_body-piece n [] ps pos h le = absurd (h refl)
  read_body-piece n (c ∷ p) ps pos h le = rw (pos, read_short n (c ∷ p) ps h le)

  -- A body of which only a first part has arrived, and is no JSON.
  read_loop-split :
      (n : ℕ) (p : Text) (rest : Stream)
      → leb n 0 ≡ false
      → p ≢ []
      → length p ≤ n
      → loads p ≡ none
      → (fuel : ℕ) → read_loop dumps loads (suc fuel) (header n p ∷ rest) ≡ some []
  unfolding read_loop
  read_loop-split n p rest pos h le e fuel =
      ap (step_loop dumps loads (read_loop dumps loads fuel)) (
        read_one-header dumps loads n p rest
        ∙ ap some (read_body-piece n p rest pos h le ∙ ap (Option.map (λ x. (x, [] ∷ rest))) e))

  module _ (reads_back : (m : M) → loads (dumps m) ≡ some m)
      (not_empty : (m : M) → dumps m ≢ []) where
    read_one-send :
        (m : M) (ps : Stream)
        → read_one dumps loads (send dumps loads m ∷ ps) ≡ some (some (m, [] ∷ ps))
    unfolding send
    read_one-send m ps =
        read_one-header dumps loads (length (dumps m)) (dumps m) ps
        ∙ ap some (
            read_body-piece (length (dumps m)) (dumps m) ps (positive (dumps m) (not_empty m))
              (not_empty m) (omega arith)
            ∙ ap (Option.map (λ x. (x, [] ∷ ps))) (reads_back m))

    -- The frames of some messages, before a stream that ends the loop.
    read_loop-frames :
        (ms : List M) (rest : Stream) (fuel : ℕ)
        → ((k : ℕ) → read_loop dumps loads (suc k) rest ≡ some [])
        → length ms < fuel
        → read_loop dumps loads fuel (map (send dumps loads) ms ++ rest) ≡ some ms
    unfolding read_loop
    read_loop-frames ms rest zero ends h = absurd (omega arith)
    read_loop-frames [] rest (suc fuel) ends h = ends fuel
    read_loop-frames (m ∷ ms) rest (suc fuel) ends h =
        ap (step_loop dumps loads (read_loop dumps loads fuel))
          (read_one-send m (map (send dumps loads) ms ++ rest))
        ∙ ap (Option.map (λ xs. m ∷ xs)) (
            read_loop-empty fuel (map (send dumps loads) ms ++ rest)
            ∙ read_loop-frames ms rest fuel ends (omega arith))

    size-frames :
        (ms : List M) (rest : Stream) → length ms ≤ size (map (send dumps loads) ms ++ rest)
    unfolding send
    size-frames [] rest = omega arith
    size-frames (m ∷ ms) rest = omega (arith, size-frames ms rest)

    received-frames :
        (ms : List M) (rest : Stream)
        → ((k : ℕ) → read_loop dumps loads (suc k) rest ≡ some [])
        → received dumps loads (map (send dumps loads) ms ++ rest) ≡ some ms
    unfolding received
    received-frames ms rest ends =
        read_loop-frames ms rest (suc (size (map (send dumps loads) ms ++ rest))) ends
          (omega (arith, size-frames ms rest))

    -- Where every message arrives in one piece, and JSON reads what it writes and writes no empty text,
    -- the loop of the reader gets the messages that `_send` frames, in their order.
    pub received-send : (ms : List M) → received dumps loads (map (send dumps loads) ms) ≡ some ms
    received-send ms =
        rw⁻¹ (append-nil (map (send dumps loads) ms)) (received-frames ms [] (read_loop-nil))

    -- Where JSON reads what it writes and writes no empty text, but of a body only a first part, which is
    -- no JSON, has arrived when the reader asks for it, the reader ends: it gets the messages that arrived
    -- whole before, and none that follows, whatever the server sends.
    pub received_split :
        (ms : List M) (m : M) (p q : Text) (rest : Stream)
        → dumps m ≡ p ++ q
        → p ≢ []
        → loads p ≡ none
        → received dumps loads (map (send dumps loads) ms ++ header (length (dumps m)) p ∷ q ∷ rest)
          ≡ some ms
    received_split ms m p q rest whole h e =
        let n = length (dumps m) in
        received-frames ms (header n p ∷ q ∷ rest) (
          read_loop-split n p (q ∷ rest) (positive (dumps m) (not_empty m)) h
            (omega (arith, ap (λ (l : Text). length l) whole, length-append p q)) e)
