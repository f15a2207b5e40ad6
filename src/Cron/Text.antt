-- ===== src/Cron/Text.antt =====
-- The texts of a cron pattern, as code points: the string operations that parseCronPattern of
-- src/utils.ts uses.
use glide_mq.Common.{
  ℕ, ◌+◌, ◌-◌, ◌*◌, Bool, true, false, ◌&&◌, ◌||◌, List, [], ◌∷◌, ◌++◌, Option, none, some, leb,
  ◌==◌, if◌then◌else◌,
}
use mathlib.Core.List.{reverse}

abbrev pub Text : Type 0
Text = List ℕ

unfoldable pub same_text : Text → Text → Bool
same_text [] [] = true
same_text (a ∷ s) (b ∷ t) = a == b && same_text s t
same_text _ _ = false

-- White space, as `trim` and `\s` have it.
unfoldable pub is_space : ℕ → Bool
is_space c =
    (leb 9 c && leb c 13)
    || (c == 32)
    || (c == 160)
    || (c == 5760)
    || (leb 8192 c && leb c 8202)
    || (c == 8232)
    || (c == 8233)
    || (c == 8239)
    || (c == 8287)
    || (c == 12288)
    || (c == 65279)

unfoldable pub trim_start : Text → Text
unfolding is_space
trim_start [] = []
trim_start (c ∷ s) = let rest = trim_start s in if is_space c then rest else c ∷ s

unfoldable pub trim : Text → Text
unfolding trim_start
trim s = reverse (trim_start (reverse (trim_start s)))

-- `s.split(sep)` for a separator of one character: never empty.
unfoldable pub split_with : (ℕ → Bool) → Text → Text → List Text
split_with sep word [] = word ∷ []
split_with sep word (c ∷ s) =
    let here = word ∷ split_with sep [] s in
    let more = split_with sep (word ++ c ∷ []) s in if sep c then here else more

unfoldable pub split : ℕ → Text → List Text
unfolding split_with
split sep = split_with (λ c. c == sep) []

unfoldable pub drop_empty : List Text → List Text
drop_empty [] = []
drop_empty ([] ∷ ws) = drop_empty ws
drop_empty ((c ∷ w) ∷ ws) = (c ∷ w) ∷ drop_empty ws

-- `s.split(/\s+/)` of a trimmed text: the empty text is one empty field.
unfoldable pub split_spaces : Text → List Text
unfolding split_with drop_empty is_space
split_spaces [] = [] ∷ []
split_spaces (c ∷ s) = drop_empty (split_with is_space [] (c ∷ s))

-- `toUpperCase` on the letters that have an ASCII capital (the long s and the dotless i too).
unfoldable pub to_upper : ℕ → ℕ
to_upper c =
    if leb b'a' c && leb c b'z'
    then c - 32
    else if c == 383
    then b'S'
    else if c == 305
    then b'I'
    else c

unfoldable pub all_digits : Text → Bool
all_digits [] = true
all_digits (c ∷ s) = leb b'0' c && leb c b'9' && all_digits s

-- `/^\d+$/.test(s)`
unfoldable pub is_number : Text → Bool
unfolding all_digits
is_number [] = false
is_number (c ∷ s) = all_digits (c ∷ s)

-- `parseInt(s, 10)` of digits.
unfoldable pub digits_from : ℕ → Text → ℕ
digits_from n [] = n
digits_from n (c ∷ s) = digits_from (10 * n + (c - b'0')) s

unfoldable pub parse_int : Text → ℕ
unfolding digits_from
parse_int = digits_from 0

-- Whether some character passes the test.
unfoldable pub contains : (ℕ → Bool) → Text → Bool
contains test [] = false
contains test (c ∷ s) = test c || contains test s

-- The text before its last character, with that character.
unfoldable pub split_last : Text → Option (Text × ℕ)
split_last [] = none
split_last (c ∷ []) = some ([], c)
split_last (c ∷ d ∷ s) = elim (split_last (d ∷ s)) [ some (r, e) ↦ some (c ∷ r, e) | none ↦ none ]

-- The texts before and after the last `#`.
unfoldable pub split_hash : Text → Option (Text × Text)
split_hash [] = none
split_hash (c ∷ s) = elim (split_hash s) [
  | some (r, e) ↦ some (c ∷ r, e)
  | none ↦ if c == b'#' then some ([], s) else none
]
