-- ===== src/Context/Sanitize.antt =====
-- TinyCTX/utils/sanitize.py: the two sanitizers. A regular expression's `sub` is a parameter.
use Prim.Native.Char.{Char, code}
use tiny_ctx.Base.{
  String, ℕ, zero, suc, ◌≡◌, refl, ◌≤◌, Bool, true, false, ◌&&◌, [], ◌∷◌, none, some, ◌==◌,
  string_eq, nat_eq, if◌then◌else◌, leb, arith, Option-cases, inl, inr,
}
use tiny_ctx.Base.Dict.{Dict, lookup, has_key}
use tiny_ctx.Shell.Commands.Text.{push, has_char}

-- `_HOMOGLYPH_TABLE`, by code points
unfoldable pub homoglyph_table : Dict ℕ Char
homoglyph_table =
    (65288, "(")
    ∷ (65289, ")")
    ∷ (65339, "[")
    ∷ (65341, "]")
    ∷ (65371, "{")
    ∷ (65373, "}")
    ∷ (65308, "<")
    ∷ (65310, ">")
    ∷ (10216, "<")
    ∷ (10217, ">")
    ∷ (12296, "<")
    ∷ (12297, ">")
    ∷ (12298, "<")
    ∷ (12299, ">")
    ∷ (12300, "[")
    ∷ (12301, "]")
    ∷ (12302, "[")
    ∷ (12303, "]")
    ∷ (12304, "[")
    ∷ (12305, "]")
    ∷ (12308, "(")
    ∷ (12309, ")")
    ∷ (12310, "[")
    ∷ (12311, "]")
    ∷ (65113, "{")
    ∷ (65114, "}")
    ∷ (65115, "{")
    ∷ (65116, "}")
    ∷ (65117, "[")
    ∷ (65118, "]")
    ∷ (10088, "(")
    ∷ (10089, ")")
    ∷ (10090, "(")
    ∷ (10091, ")")
    ∷ (10092, "<")
    ∷ (10093, ">")
    ∷ (10094, "(")
    ∷ (10095, ")")
    ∷ (10096, "<")
    ∷ (10097, ">")
    ∷ (10098, "[")
    ∷ (10099, "]")
    ∷ (10100, "{")
    ∷ (10101, "}")
    ∷ []

-- The character that `str.translate` puts for one.
unfoldable pub translate_char : Char → Char
translate_char c = elim (lookup (code c) homoglyph_table) [ none ↦ c | some d ↦ d ]

unfoldable pub sanitize_brackets : String → String
sanitize_brackets String.[] = ""
sanitize_brackets (String.◌∷◌ c s) = push (translate_char c) (sanitize_brackets s)

-- The passes of `sanitize_special_tokens`; `strip` is the pattern's `sub("", ...)`.
unfoldable pub strip_passes : (String → String) → ℕ → String → String
strip_passes strip zero cleaned = cleaned
strip_passes strip (suc passes) cleaned =
    let next = strip cleaned in
    let rest = strip_passes strip passes next in if next == cleaned then cleaned else rest

-- `_MAX_SANITIZE_PASSES`
abbrev pub max_sanitize_passes : ℕ
max_sanitize_passes = 20

-- `collapse` replaces a run of spaces and tabs by one space.
unfoldable pub sanitize_special_tokens : (String → String) → (String → String) → String → String
sanitize_special_tokens strip collapse s = collapse (strip_passes strip max_sanitize_passes s)

-- Every glyph is outside ASCII and every replacement is inside.
all_apart : Dict ℕ Char → Bool
all_apart [] = true
all_apart ((k, d) ∷ table) = leb 128 k && leb (code d) 127 && all_apart table

lookup_apart :
    (k : ℕ) (d : Char) (table : Dict ℕ Char)
    → all_apart table ≡ true
    → lookup k table ≡ some d
    → (128 ≤ k) × (code d ≤ 127)
unfolding all_apart lookup
lookup_apart k d [] a h = ground arith
lookup_apart k d ((j, e) ∷ table) a h = ground (arith, lookup_apart k d table)

homoglyph_table_apart : all_apart homoglyph_table ≡ true
unfolding all_apart homoglyph_table
homoglyph_table_apart = refl

translate_char_lem :
    (k : ℕ) (c : Char) → has_key k homoglyph_table ≡ true → (code (translate_char c) == k) ≡ false
unfolding translate_char
translate_char_lem k c h = elim (Option-cases (lookup k homoglyph_table)) [
  | inl absent ↦ ground arith
  | inr (e, glyph) ↦
      let (wide, _) = lookup_apart k e homoglyph_table homoglyph_table_apart glyph in
      elim (Option-cases (lookup (code c) homoglyph_table)) [
        | inl other ↦ ground arith
        | inr (d, same) ↦
            let (_, narrow) = lookup_apart (code c) d homoglyph_table homoglyph_table_apart same in
            ground arith
      ]
]

-- No glyph of the table is left in a sanitized text, so it cannot show the delimiters of a label.
pub has_char-sanitize_brackets :
    (k : ℕ) (s : String)
    → has_key k homoglyph_table ≡ true
    → has_char k (sanitize_brackets s) ≡ false
unfolding has_char sanitize_brackets
has_char-sanitize_brackets k String.[] h = refl
has_char-sanitize_brackets k (String.◌∷◌ c s) h =
    ground (arith, translate_char_lem k c h, has_char-sanitize_brackets k s h)
