-- ===== src/Text.antt =====
-- What Python's `str` gives the code: slices, `in`, `strip` and `join`, character by character. The
-- table of characters behind `str.isspace` is the parameter `is_space`.
pub mod Slices
use Prim.Native.Char.{Char, code}
use Prim.Native.String.{◌++◌ as str_append}
use rumor_mill_ai.Prelude.{
  ℕ, zero, suc, ◌+◌, ◌-◌, String, Bool, true, false, ◌&&◌, ◌||◌, List, [], ◌∷◌, ◌==◌, leb, ltb,
  if◌then◌else◌,
}

-- `s[:n]` and `s[n:]`
unfoldable pub take_text : ℕ → String → String
take_text zero s = ""
take_text (suc n) String.[] = ""
take_text (suc n) (String.◌∷◌ c s) = String.◌∷◌ c (take_text n s)

unfoldable pub drop_text : ℕ → String → String
drop_text zero s = s
drop_text (suc n) String.[] = ""
drop_text (suc n) (String.◌∷◌ c s) = drop_text n s

-- `s[first:last]`
unfoldable pub slice : (first last : ℕ) → String → String
unfolding take_text drop_text
slice first last s = take_text (last - first) (drop_text first s)

-- `range(start, stop, step)` of a positive step; `stop - start` rounds are enough fuel.
unfoldable pub range_from : (fuel start stop step : ℕ) → List ℕ
range_from zero start stop step = []
range_from (suc fuel) start stop step =
    let rest = range_from fuel (start + step) stop step in
    if ltb start stop then start ∷ rest else []

unfoldable pub range : (start stop step : ℕ) → List ℕ
unfolding range_from
range start stop step = range_from (stop - start) start stop step

-- `s.startswith(t)`
unfoldable pub begins : (t s : String) → Bool
begins String.[] s = true
begins (String.◌∷◌ c t) String.[] = false
begins (String.◌∷◌ c t) (String.◌∷◌ d s) = code c == code d && begins t s

-- `t in s`
unfoldable pub occurs : (t s : String) → Bool
unfolding begins
occurs t String.[] = begins t ""
occurs t (String.◌∷◌ c s) = begins t (String.◌∷◌ c s) || occurs t s

abbrev pub lstrip : (Char → Bool) → String → String
lstrip is_space String.[] = ""
lstrip is_space (String.◌∷◌ c s) =
    let rest = lstrip is_space s in if is_space c then rest else String.◌∷◌ c s

abbrev pub rstrip_char : (Char → Bool) → Char → String → String
rstrip_char is_space c String.[] = if is_space c then "" else String.◌∷◌ c ""
rstrip_char is_space c (String.◌∷◌ d s) = String.◌∷◌ c (String.◌∷◌ d s)

abbrev pub rstrip : (Char → Bool) → String → String
rstrip is_space String.[] = ""
rstrip is_space (String.◌∷◌ c s) = rstrip_char is_space c (rstrip is_space s)

-- `s.strip()`
unfoldable pub strip : (Char → Bool) → String → String
strip is_space s = rstrip is_space (lstrip is_space s)

-- `"".join(parts)`
abbrev pub concat : List String → String
concat [] = ""
concat (s ∷ ss) = str_append s (concat ss)

-- `separator.join(parts)`
unfoldable pub join : String → List String → String
join separator [] = ""
join separator (s ∷ []) = s
join separator (s ∷ next ∷ ss) = str_append s (str_append separator (join separator (next ∷ ss)))

-- `[a-z0-9]`
abbrev pub is_plain : Char → Bool
is_plain c = leb b'a' (code c) && leb (code c) b'z' || leb b'0' (code c) && leb (code c) b'9'

abbrev pub spaced : (kept gap : Bool) → Char → String → String
spaced true true c rest = String.◌∷◌ " " (String.◌∷◌ c rest)
spaced true false c rest = String.◌∷◌ c rest
spaced false gap c rest = rest

-- `re.sub(r"[^a-z0-9]+", " ", s)`; the flag says that a run of other characters came before.
unfoldable pub plain_words : Bool → String → String
plain_words true String.[] = " "
plain_words false String.[] = ""
plain_words gap (String.◌∷◌ c s) =
    spaced (is_plain c) gap c (plain_words (if is_plain c then false else true) s)
