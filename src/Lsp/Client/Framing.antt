-- ===== src/Lsp/Client/Framing.antt =====
-- features/lsp/client.py: what `_send` writes is what `_read_one` reads.
use ai_forge_memory.Prelude.{
  ℕ, zero, suc, ◌≤◌, true, false, Option, some, [], ◌∷◌, ◌++◌, ◌≡◌, ◌≢◌, refl, sym, ap, ◌∙◌, length,
  ltb, eqb, arith, All, All-append, All-weaken,
}
use mathlib.Core.Option
use mathlib.Core.List.{append_assoc, reverse, reverse-cons, reverse-reverse}
use ai_forge_memory.Prelude.Text.{Text, codes, lower, strip, lstrip, is_space, digits_from}
use ai_forge_memory.Lsp.Client.{
  Stream, size, fields, join_line, add_header, step_headers, print, break_line, readline, is_crlf,
  cons_kept, rstrip, ascii, header_of, complete, read_headers, signed, length_in, read_body,
  after_headers, read_one,
}
use ai_forge_memory.Lsp.Client.Digits.{IsDigit, digits_from-print, print-AreDigits, print-cons}

-- A character of a header line that is neither its end nor beyond ASCII.
abbrev IsPlain : ℕ → Type 0
IsPlain c = (is_crlf c ≡ false) × (ltb c 128 ≡ true)

digit-IsPlain : (c : ℕ) → IsDigit c → IsPlain c
digit-IsPlain c h = (ground arith, ground arith)

abbrev label : Text
label = codes "Content-Length: "

label-IsPlain : All IsPlain label
label-IsPlain = ground arith

break_line-plain :
    (x rest : Text)
    → All IsPlain x
    → break_line (x ++ 13 ∷ 10 ∷ rest) ≡ (x ++ 13 ∷ 10 ∷ [], some rest)
break_line-plain [] rest h = refl
break_line-plain (c ∷ x) rest ((p, _), h) =
    let e : eqb c 10 ≡ false = ground arith in rw (e, break_line-plain x rest h)

ascii-plain : (x : Text) → All IsPlain x → ascii (x ++ 13 ∷ 10 ∷ []) ≡ x ++ 13 ∷ 10 ∷ []
ascii-plain [] h = refl
ascii-plain (c ∷ x) ((_, q), h) = rw (q, ascii-plain x h)

cons_kept-plain : (c : ℕ) (x : Text) → is_crlf c ≡ false → cons_kept c x ≡ c ∷ x
cons_kept-plain c [] h = rw h
cons_kept-plain c (d ∷ r) h = refl

rstrip-plain : (x : Text) → All IsPlain x → rstrip (x ++ 13 ∷ 10 ∷ []) ≡ x
rstrip-plain [] h = refl
rstrip-plain (c ∷ x) ((p, _), h) = rw (rstrip-plain x h) (cons_kept-plain c x p)

digit_space : (c : ℕ) → IsDigit c → is_space c ≡ false
digit_space c h = ground arith

lstrip-digits : (x : Text) → All IsDigit x → lstrip x ≡ x
lstrip-digits [] h = refl
lstrip-digits (c ∷ x) (p, h) = rw (digit_space c p)

reverse-digits : (x : Text) → All IsDigit x → All IsDigit (reverse x)
reverse-digits [] h = tt
reverse-digits (c ∷ x) (p, h) =
    rw (reverse-cons c x) (All-append IsDigit (reverse x) (c ∷ []) (reverse-digits x h) (p, tt))

strip-digits : (x : Text) → All IsDigit x → strip x ≡ x
strip-digits x h =
    rw (lstrip-digits x h, lstrip-digits (reverse x) (reverse-digits x h)) (reverse-reverse x)

length_line-IsPlain : (n : ℕ) → All IsPlain (label ++ print n)
length_line-IsPlain n =
    All-append IsPlain label (print n) label-IsPlain
      (All-weaken IsDigit IsPlain (print n) digit-IsPlain (print-AreDigits n))

-- The line of a length.
header_of-length :
    (n : ℕ)
    → header_of ((label ++ print n) ++ 13 ∷ 10 ∷ []) ≡ some (codes "content-length", print n)
unfolding lower
header_of-length n =
    let plain : All IsPlain (label ++ print n) = length_line-IsPlain n in
    ap fields
      (ap rstrip (ascii-plain (label ++ print n) plain) ∙ rstrip-plain (label ++ print n) plain)
    ∙ ap (λ v. some (codes "content-length", v)) (strip-digits (print n) (print-AreDigits n))

signed-digits : (x : Text) → All IsDigit x → x ≢ [] → signed x ≡ digits_from 0 x
signed-digits [] h k = absurd (k refl)
signed-digits (c ∷ []) h k = refl
signed-digits (c ∷ d ∷ r) (p, h) k = ground arith

length_in-digits : (x : Text) → All IsDigit x → x ≢ [] → length_in (some x) ≡ digits_from 0 x
length_in-digits [] h k = absurd (k refl)
length_in-digits (c ∷ v) h k = ap signed (strip-digits (c ∷ v) h) ∙ signed-digits (c ∷ v) h k

length_in-print : (n : ℕ) → length_in (some (print n)) ≡ some n
length_in-print n =
    let (c, s, e) = print-cons n in
    length_in-digits (print n) (print-AreDigits n) (λ z. cc (z, e)) ∙ digits_from-print n

-- The header lines of a frame, and what follows them.
abbrev pub header : ℕ → Text → Text
header n body = codes "Content-Length: " ++ print n ++ 13 ∷ 10 ∷ 13 ∷ 10 ∷ body

readline-header :
    (n : ℕ) (body : Text) (ps : Stream)
    → readline (header n body ∷ ps) ≡ ((label ++ print n) ++ 13 ∷ 10 ∷ [], (13 ∷ 10 ∷ body) ∷ ps)
unfolding readline
readline-header n body ps =
    ap (λ x. join_line x ps (readline ps))
      (ap break_line (sym (append_assoc label (print n) (13 ∷ 10 ∷ 13 ∷ 10 ∷ body)))
        ∙ break_line-plain (label ++ print n) (13 ∷ 10 ∷ body) (length_line-IsPlain n))

readline-blank :
    (body : Text) (ps : Stream) → readline ((13 ∷ 10 ∷ body) ∷ ps) ≡ (13 ∷ 10 ∷ [], body ∷ ps)
unfolding readline
readline-blank body ps = refl

read_headers-frame :
    (fuel n : ℕ) (body : Text) (ps : Stream)
    → read_headers (suc (suc fuel)) [] (header n body ∷ ps)
      ≡ some (complete ((codes "content-length", print n) ∷ []) (body ∷ ps))
unfolding read_headers
read_headers-frame fuel n body ps =
    let found = (codes "content-length", print n) ∷ [] in
    ap (step_headers (read_headers (suc fuel)) []) (readline-header n body ps)
    ∙ ap
        (λ h. step_headers (read_headers fuel) (add_header h []) (readline ((13 ∷ 10 ∷ body) ∷ ps)))
        (header_of-length n)
    ∙ ap (step_headers (read_headers fuel) found) (readline-blank body ps)

two_rounds : (n : ℕ) → 1 ≤ n → (k : ℕ) × (suc n ≡ suc (suc k))
two_rounds zero h = absurd (omega arith)
two_rounds (suc k) h = (k, refl)

header-length : (n : ℕ) (body : Text) → 1 ≤ length (header n body)
header-length n body = omega arith

module _ {M : Type 0} (dumps : M → Text) (loads : Text → Option M) where
  -- The rounds of the header loop that the size of a stream allows are enough for a frame at its head.
  pub read_one-header :
      (n : ℕ) (body : Text) (ps : Stream)
      → read_one dumps loads (header n body ∷ ps)
        ≡ some (read_body dumps loads (some n) (body ∷ ps))
  unfolding read_one
  read_one-header n body ps =
      let (k, e) = two_rounds (size (header n body ∷ ps)) (omega (arith, header-length n body)) in
      ap (λ f. Option.map (after_headers dumps loads) (read_headers f [] (header n body ∷ ps))) e
      ∙ ap (Option.map (after_headers dumps loads)) (read_headers-frame k n body ps)
      ∙ ap (λ l. some (read_body dumps loads l (body ∷ ps))) (length_in-print n)
