-- ===== src/Prelude/Text.antt =====
-- The operations of Python's `str` that the program uses, over code points.
use Prim.Native.Nat.{ℕ, zero, suc, ◌/◌, ◌%◌}
use Prim.Native.Char.{Char, code}
use Prim.Native.String
use Prim.Native.String.{String}
use mathlib.Core.Bool.{Bool, false, ◌&&◌, ◌||◌, not}
use mathlib.Core.Option.{Option, none, some}
use mathlib.Core.List.{List, [], ◌∷◌}
use text.Mathlib.Text.{◌==◌}
use trustmodel_edge.Prelude.Tests.{leb, nat_eq, if◌then◌else◌, is_some, or_else}

-- The code points for which `str.isspace` holds.
pub is_space : Char → Bool
is_space ch =
    let c = code ch in
    (leb 9 c && leb c 13)
    || (leb 28 c && leb c 32)
    || nat_eq c 133
    || nat_eq c 160
    || nat_eq c 5760
    || (leb 8192 c && leb c 8202)
    || nat_eq c 8232
    || nat_eq c 8233
    || nat_eq c 8239
    || nat_eq c 8287
    || nat_eq c 12288

-- What follows the prefix, if the text starts with it.
unfoldable pub drop_prefix : String → String → Option String
drop_prefix String.[] s = some s
drop_prefix (String.◌∷◌ c p) String.[] = none
drop_prefix (String.◌∷◌ c p) (String.◌∷◌ d s) =
    if nat_eq (code c) (code d) then drop_prefix p s else none

-- `s.startswith(p)`
abbrev pub starts_with : String → String → Bool
starts_with s p = is_some (drop_prefix p s)

-- `s.removeprefix(p)`
abbrev pub remove_prefix : String → String → String
remove_prefix s p = or_else (drop_prefix p s) s

-- `s[:n]`
unfoldable pub take_chars : ℕ → String → String
take_chars zero s = ""
take_chars (suc n) String.[] = ""
take_chars (suc n) (String.◌∷◌ c s) = String.◌∷◌ c (take_chars n s)

-- `s[n:]`
unfoldable pub drop_chars : ℕ → String → String
drop_chars zero s = s
drop_chars (suc n) String.[] = ""
drop_chars (suc n) (String.◌∷◌ c s) = drop_chars n s

-- `s.split(sep, 1)` at a separator of one character: what stands before it, and what behind it.
unfoldable pub split_once : ℕ → String → String × Option String
split_once sep String.[] = ("", none)
split_once sep (String.◌∷◌ c s) =
    let (before, behind) = split_once sep s in
    if nat_eq (code c) sep then ("", some s) else (String.◌∷◌ c before, behind)

abbrev pub push_front : Char → List String → List String
push_front c [] = String.◌∷◌ c "" ∷ []
push_front c (w ∷ ws) = String.◌∷◌ c w ∷ ws

-- `s.split(sep)` at a separator of one character.
unfoldable pub split_on : ℕ → String → List String
split_on sep String.[] = "" ∷ []
split_on sep (String.◌∷◌ c s) =
    let rest = split_on sep s in if nat_eq (code c) sep then "" ∷ rest else push_front c rest

-- `s.lstrip()`
unfoldable strip_left : String → String
strip_left String.[] = ""
strip_left (String.◌∷◌ c s) = if is_space c then strip_left s else String.◌∷◌ c s

-- `s.rstrip()`
unfoldable strip_right : String → String
strip_right String.[] = ""
strip_right (String.◌∷◌ c s) =
    let rest = strip_right s in if is_space c && rest == "" then "" else String.◌∷◌ c rest

-- `s.strip()`
unfoldable pub strip : String → String
unfolding strip_left strip_right is_space
strip s = strip_right (strip_left s)

-- `s.rstrip(c)` for one character, given by its code.
unfoldable pub strip_right_of : ℕ → String → String
strip_right_of ch String.[] = ""
strip_right_of ch (String.◌∷◌ c s) =
    let rest = strip_right_of ch s in
    if nat_eq (code c) ch && rest == "" then "" else String.◌∷◌ c rest

-- The text begins inside a word.
abbrev pub starts_word : String → Bool
starts_word String.[] = false
starts_word (String.◌∷◌ c s) = not (is_space c)

-- `s.split()`: the runs of characters that are no white space.
unfoldable pub words : String → List String
unfolding is_space
words String.[] = []
words (String.◌∷◌ c s) =
    let rest = words s in
    if is_space c then rest else if starts_word s then push_front c rest else String.◌∷◌ c "" ∷ rest

-- `sep.join(ws)`
unfoldable pub join : String → List String → String
join sep [] = ""
join sep (w ∷ []) = w
join sep (w ∷ v ∷ ws) = String.◌++◌ w (String.◌++◌ sep (join sep (v ∷ ws)))

abbrev digit : ℕ → String
digit zero = "0"
digit (suc zero) = "1"
digit (suc (suc zero)) = "2"
digit (suc (suc (suc zero))) = "3"
digit (suc (suc (suc (suc zero)))) = "4"
digit (suc (suc (suc (suc (suc zero))))) = "5"
digit (suc (suc (suc (suc (suc (suc zero)))))) = "6"
digit (suc (suc (suc (suc (suc (suc (suc zero))))))) = "7"
digit (suc (suc (suc (suc (suc (suc (suc (suc zero)))))))) = "8"
digit (suc (suc (suc (suc (suc (suc (suc (suc (suc n))))))))) = "9"

-- The digits of `n` before `behind`; `fuel` is more than they are.
unfoldable digits : ℕ → ℕ → String → String
digits zero n behind = behind
digits (suc fuel) n behind =
    let text = String.◌++◌ (digit (n % 10)) behind in
    let more = digits fuel (n / 10) text in if leb 10 n then more else text

-- `str(n)`
unfoldable pub decimal_text : ℕ → String
unfolding digits
decimal_text n = digits (suc n) n ""
