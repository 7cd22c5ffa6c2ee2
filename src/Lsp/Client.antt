-- ===== src/Lsp/Client.antt =====
-- features/lsp/client.py: the framing of messages, `_send`, `_read_one` and the loop of `_read_loop`.
-- The server's output is a pipe without a buffer: a list of pieces, as they arrive. `readline` goes
-- on to the next piece, and one `read` gives at most what is left of one. `json` is a parameter. The
-- length is read as decimal digits, perhaps with a sign.
pub mod Digits
pub mod Framing
pub mod Reading
pub mod Total
use ai_forge_memory.Prelude.{
  ℕ, zero, suc, ◌+◌, ◌-◌, ◌/◌, ◌%◌, Bool, ◌||◌, Option, none, some, List, [], ◌∷◌, ◌++◌, length,
  take, drop, map, ltb, leb, eqb, if◌then◌else◌,
}
use mathlib.Core.Option
use ai_forge_memory.Prelude.Text.{Text, codes, lower, strip, same_text, digits_from}

abbrev pub Stream : Type 0
Stream = List Text

abbrev pub size : Stream → ℕ
size [] = 0
size (p ∷ ps) = length p + size ps

-- `str(n).encode()`; a number has at most as many digits as its value, and one more.
abbrev pub print_from : ℕ → ℕ → Text
print_from zero n = []
print_from (suc fuel) n =
    let front = print_from fuel (n / 10) in
    if ltb n 10 then (48 + n) ∷ [] else front ++ (48 + n % 10) ∷ []

unfoldable pub print : ℕ → Text
print n = print_from (suc n) n

abbrev pub newline : ℕ
newline = 10

-- A line with its end, and the rest; `none` where the text has no line end.
abbrev pub break_line : Text → Text × Option Text
break_line [] = ([], none)
break_line (c ∷ s) =
    let r = break_line s in if eqb c newline then (c ∷ [], some s) else (c ∷ r.0, r.1)

-- `stream.readline()`
abbrev pub join_line : Text × Option Text → Stream → Text × Stream → Text × Stream
join_line (l, some r) ps next = (l, r ∷ ps)
join_line (l, none) ps next = (l ++ next.0, next.1)

unfoldable pub readline : Stream → Text × Stream
readline [] = ([], [])
readline (p ∷ ps) = join_line (break_line p) ps (readline ps)

-- `stream.read(n)`: waits for a byte, and takes what has arrived with it.
unfoldable pub read : ℕ → Stream → Text × Stream
read n [] = ([], [])
read n ([] ∷ ps) = read n ps
read n ((c ∷ p) ∷ ps) = (take n (c ∷ p), drop n (c ∷ p) ∷ ps)

abbrev pub is_crlf : ℕ → Bool
is_crlf c = eqb c 13 || eqb c 10

-- `.rstrip("\r\n")`
abbrev pub cons_kept : ℕ → Text → Text
cons_kept c [] = if is_crlf c then [] else c ∷ []
cons_kept c (d ∷ r) = c ∷ d ∷ r

abbrev pub rstrip : Text → Text
rstrip [] = []
rstrip (c ∷ s) = cons_kept c (rstrip s)

-- `.decode("ascii", "replace")`
abbrev pub ascii : Text → Text
ascii = map (λ c. if ltb c 128 then c else 0xfffd)

-- `.split(":", 1)`, if there is a colon.
abbrev pub split_colon : Text → Option (Text × Text)
split_colon [] = none
split_colon (c ∷ s) =
    let r = Option.map (λ (kv : Text × Text). (c ∷ kv.0, kv.1)) (split_colon s) in
    if eqb c b':' then some ([], s) else r

-- A name and a value, without the white space at their ends.
abbrev pub fields : Text → Option (Text × Text)
fields line = Option.map (λ (kv : Text × Text). (lower (strip kv.0), strip kv.1)) (split_colon line)

abbrev pub header_of : Text → Option (Text × Text)
header_of line = fields (rstrip (ascii line))

abbrev pub add_header : Option (Text × Text) → List (Text × Text) → List (Text × Text)
add_header none hs = hs
add_header (some kv) hs = kv ∷ hs

-- The newest header of that name.
abbrev pub get : Text → List (Text × Text) → Option Text
get k [] = none
get k ((j, v) ∷ hs) = if same_text j k then some v else get k hs

-- The end of the stream, or the headers up to the blank line.
pub data Headers : Type 0 where
  at_end : Headers
  complete : List (Text × Text) → Stream → Headers

abbrev pub is_blank_line : Text → Bool
is_blank_line line = same_text line (13 ∷ 10 ∷ []) || same_text line (10 ∷ [])

-- One round on a line and the rest of the stream; `more` is the rest of the loop.
abbrev pub step_headers :
    (List (Text × Text) → Stream → Option Headers)
    → List (Text × Text)
    → Text × Stream
    → Option Headers
step_headers more hs ([], rest) = some at_end
step_headers more hs (c ∷ l, rest) =
    if is_blank_line (c ∷ l)
    then some (complete hs rest)
    else more (add_header (header_of (c ∷ l)) hs) rest

-- The loop over the header lines; `none` means that the fuel ran out.
unfoldable pub read_headers : ℕ → List (Text × Text) → Stream → Option Headers
read_headers zero hs s = none
read_headers (suc fuel) hs s = step_headers (read_headers fuel) hs (readline s)

-- `int(text)`; what is negative counts as 0, since only a positive length is used.
abbrev pub signed : Text → Option ℕ
signed [] = none
signed (c ∷ s) = elim s [
  | [] ↦ digits_from 0 (c ∷ [])
  | d ∷ r ↦
      if eqb c b'-'
      then Option.map (λ n. 0) (digits_from 0 (d ∷ r))
      else if eqb c b'+'
      then digits_from 0 (d ∷ r)
      else digits_from 0 (c ∷ d ∷ r)
]

-- `int(headers.get("content-length", "0") or "0")`; `none` where it raises.
abbrev pub length_in : Option Text → Option ℕ
length_in none = some 0
length_in (some []) = some 0
length_in (some (c ∷ v)) = signed (strip (c ∷ v))

module _ {M : Type 0} (dumps : M → Text) (loads : Text → Option M) where
  unfoldable pub send : M → Text
  send m = codes "Content-Length: " ++ print (length (dumps m)) ++ 13 ∷ 10 ∷ 13 ∷ 10 ∷ dumps m

  abbrev pub parsed : Text → Option M
  parsed [] = none
  parsed (c ∷ body) = loads (c ∷ body)

  -- A message and the rest; or nothing: at the end of the stream, for a length that is not positive,
  -- for a body that is no JSON, and where the length is no number, which raises. All of them end the
  -- loop.
  unfoldable pub read_body : Option ℕ → Stream → Option (M × Stream)
  read_body none s = none
  read_body (some n) s =
      if leb n 0 then none else Option.map (λ m. (m, (read n s).1)) (parsed (read n s).0)

  abbrev pub after_headers : Headers → Option (M × Stream)
  after_headers at_end = none
  after_headers (complete hs rest) = read_body (length_in (get (codes "content-length") hs)) rest

  -- `_read_one`; the outer `none` means that the fuel ran out.
  unfoldable pub read_one : Stream → Option (Option (M × Stream))
  read_one s = Option.map after_headers (read_headers (suc (size s)) [] s)

  abbrev pub step_loop : (Stream → Option (List M)) → Option (Option (M × Stream)) → Option (List M)
  step_loop more none = none
  step_loop more (some none) = some []
  step_loop more (some (some (m, rest))) = Option.map (λ ms. m ∷ ms) (more rest)

  -- The messages that `_read_loop` gets, up to its end.
  unfoldable pub read_loop : ℕ → Stream → Option (List M)
  read_loop zero s = none
  read_loop (suc fuel) s = step_loop (read_loop fuel) (read_one s)

  unfoldable pub received : Stream → Option (List M)
  received s = read_loop (suc (size s)) s
