-- ===== src/Shell/Commands/Text.antt =====
-- The operations on texts that TinyCTX/modules/shell/validate.py calls.
use Prim.Native.Char.{Char, code}
use Prim.Native.String
use tiny_ctx.Base.{String, ℕ, Bool, false, ◌&&◌, ◌||◌, List, [], ◌∷◌, ◌==◌, nat_eq, if◌then◌else◌}

-- A text of one character, and a text with a character in front.
abbrev pub push : Char → String → String
push c s = String.◌∷◌ c s

-- Whether a character with this code is in the text.
unfoldable pub has_char : ℕ → String → Bool
has_char k String.[] = false
has_char k (String.◌∷◌ c s) = code c == k || has_char k s

-- `s.split("/")[-1]`
unfoldable pub last_segment : String → String
unfolding has_char
last_segment String.[] = ""
last_segment (String.◌∷◌ c s) =
    let rest = last_segment s in
    if has_char b'/' s then rest else if code c == b'/' then s else push c s

-- `s.split("=", 1)[0]`
unfoldable pub before_equals : String → String
before_equals String.[] = ""
before_equals (String.◌∷◌ c s) =
    let rest = before_equals s in if code c == b'=' then "" else push c rest

-- `["-" + ch for ch in s]`
unfoldable pub dashed : String → List String
dashed String.[] = []
dashed (String.◌∷◌ c s) = push "-" (push c "") ∷ dashed s

-- `["-" + ch for ch in s[1:]]`
unfoldable pub dash_atoms : String → List String
unfolding dashed
dash_atoms String.[] = []
dash_atoms (String.◌∷◌ c s) = dashed s

-- `any(ch in s for ch in "*?[")`
unfoldable pub has_glob : String → Bool
unfolding has_char
has_glob s = has_char b'*' s || has_char b'?' s || has_char b'[' s

-- `"".join(parts)`
unfoldable pub join : List String → String
join [] = ""
join (s ∷ ss) = String.◌++◌ s (join ss)

-- `s[:-1]`
unfoldable pub but_last : String → String
but_last String.[] = ""
but_last (String.◌∷◌ c String.[]) = ""
but_last (String.◌∷◌ c (String.◌∷◌ d s)) = push c (but_last (String.◌∷◌ d s))

-- Whether the last character has this code.
unfoldable pub ends_in : ℕ → String → Bool
ends_in k String.[] = false
ends_in k (String.◌∷◌ c String.[]) = code c == k
ends_in k (String.◌∷◌ c (String.◌∷◌ d s)) = ends_in k (String.◌∷◌ d s)

-- The text without its quotes, if it has two or more characters of which the first is a quote and
-- the last is the same.
unfoldable pub unquote : String → String
unfolding but_last ends_in
unquote String.[] = ""
unquote (String.◌∷◌ c s) =
    if (code c == 34 || code c == 39) && ends_in (code c) s then but_last s else push c s
