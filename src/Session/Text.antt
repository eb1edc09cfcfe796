-- ===== src/Session/Text.antt =====
-- The operations of `str` that the pump uses. Lengths and indices are counted in bytes of UTF-8.
use acter.Prelude.{
  ℕ, ◌+◌, ◌-◌, min, Bool, true, false, Option, none, some, List, [], ◌∷◌, ◌++◌, Text, ltb, leb,
  ◌==◌, if◌then◌else◌, seq_eq,
}
use acter.Pacing.{is_whitespace, trim_end}
use acter.Keys.{encode_utf8}

-- `char::len_utf8`
abbrev pub char_len : ℕ → ℕ
char_len c = if ltb c 0x80 then 1 else if ltb c 0x800 then 2 else if ltb c 0x10000 then 3 else 4

-- `str::len`
unfoldable pub byte_len : Text → ℕ
byte_len [] = 0
byte_len (c ∷ cs) = char_len c + byte_len cs

-- `str::as_bytes`
unfoldable pub as_bytes : Text → List ℕ
as_bytes [] = []
as_bytes (c ∷ cs) = encode_utf8 c ++ as_bytes cs

unfoldable pub trim_start : Text → Text
trim_start [] = []
trim_start (c ∷ cs) = let rest = trim_start cs in if is_whitespace c then rest else c ∷ cs

-- `str::trim`
unfoldable pub trim : Text → Text
unfolding trim_start trim_end
trim t = trim_start (trim_end t)

abbrev pub is_empty_text : Text → Bool
is_empty_text [] = true
is_empty_text (c ∷ cs) = false

-- `str::strip_prefix`
unfoldable pub strip_prefix : Text → Text → Option Text
strip_prefix [] text = some text
strip_prefix (p ∷ ps) [] = none
strip_prefix (p ∷ ps) (c ∷ cs) = let rest = strip_prefix ps cs in if p == c then rest else none

abbrev pub is_found : Option Text → Bool
is_found none = false
is_found (some rest) = true

unfoldable pub starts_with : Text → Text → Bool
unfolding strip_prefix
starts_with prefix text = is_found (strip_prefix prefix text)

abbrev pub prepend : ℕ → Option Text → Option Text
prepend c none = none
prepend c (some text) = some (c ∷ text)

-- `str::strip_suffix`: what stands before the suffix.
unfoldable pub strip_suffix : Text → Text → Option Text
unfolding seq_eq
strip_suffix suffix [] = if seq_eq [] suffix then some [] else none
strip_suffix suffix (c ∷ cs) =
    let rest = prepend c (strip_suffix suffix cs) in
    if seq_eq (c ∷ cs) suffix then some [] else rest

-- `chars().next_back()`
unfoldable pub last_char : Text → Option ℕ
last_char [] = none
last_char (c ∷ []) = some c
last_char (c ∷ d ∷ ds) = last_char (d ∷ ds)

-- `str::rfind`
unfoldable pub rfind : Text → Text → Option ℕ
unfolding starts_with
rfind needle [] = if is_empty_text needle then some 0 else none
rfind needle (c ∷ cs) = elim (rfind needle cs) [
  | some at ↦ some (at + char_len c)
  | none ↦ if starts_with needle (c ∷ cs) then some 0 else none
]

-- `text[..n]`, for an `n` at the boundary of a character
unfoldable pub take_bytes : ℕ → Text → Text
take_bytes n [] = []
take_bytes n (c ∷ cs) =
    let rest = take_bytes (n - char_len c) cs in if leb (char_len c) n then c ∷ rest else []

-- `drain(..cut)` for the first boundary `cut` of a character that is not before `over`
unfoldable pub drop_bytes : ℕ → Text → Text
drop_bytes over [] = []
drop_bytes over (c ∷ cs) =
    let rest = drop_bytes (over - char_len c) cs in if over == 0 then c ∷ cs else rest

-- `before_echo`, with the row that was rewritten
unfoldable pub before_echo_on : Text → Text → Text → Option Text
unfolding rfind take_bytes byte_len trim_end
before_echo_on held row line =
    if ltb (byte_len row) (byte_len line) then none else elim (rfind held row) [
      | none ↦ none
      | some held_at ↦
          some (take_bytes (min (byte_len row - byte_len line - held_at) (byte_len held)) held)
    ]

unfoldable pub before_echo : Text → Option Text → Text → Option Text
unfolding strip_suffix before_echo_on trim_end
before_echo held none line = strip_suffix line (trim_end held)
before_echo held (some row) line = before_echo_on (trim_end held) (trim_end row) line
