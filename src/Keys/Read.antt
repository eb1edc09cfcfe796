-- ===== src/Keys/Read.antt =====
-- A reader of whole keystrokes, as an application on the far end has one.
use acter.Prelude.{
  ℕ, ◌+◌, Bool, true, false, not, ◌&&◌, ◌||◌, Option, if◌then◌else◌, leb, some, none, List, [], ◌∷◌,
  ltb, ◌==◌,
}
use acter.Keys.{Key, esc, is_ascii_lowercase}
use acter.Keys.Wire.{is_scalar, decode_utf8}

-- A key, with Ctrl or not
abbrev Read : Type 0
Read = Option (Key × Bool)

as_char : Option ℕ → Read
as_char none = none
as_char (some c) = some (Key.char c, false)

-- A control byte is the key that has it, or Ctrl and a letter.
control : ℕ → Read
unfolding as_char decode_utf8
control b =
    if b == 0x09
    then some (Key.tab, false)
    else if b == 0x0d
    then some (Key.enter, false)
    else if b == 0x08
    then some (Key.backspace, true)
    else if b == 0x7f
    then some (Key.backspace, false)
    else if b == esc
    then some (Key.escape, false)
    else if ltb b 0x20
    then some (Key.char (b + 96), true)
    else as_char (decode_utf8 (b ∷ []))

-- The last byte of a sequence for a cursor key
final : ℕ → Read
final b =
    if b == b'A'
    then some (Key.up, false)
    else if b == b'B'
    then some (Key.down, false)
    else if b == b'C'
    then some (Key.right, false)
    else if b == b'D'
    then some (Key.left, false)
    else if b == b'H'
    then some (Key.home, false)
    else if b == b'F'
    then some (Key.end, false)
    else none

read_key : List ℕ → Read
unfolding control final as_char
read_key (a ∷ []) = control a
read_key (a ∷ b ∷ c ∷ []) =
    if a == esc
    then (if b == b'[' || b == b'O' then final c else none)
    else as_char (decode_utf8 (a ∷ b ∷ c ∷ []))
read_key (a ∷ b ∷ c ∷ d ∷ []) =
    if a == esc
    then (if b == b'[' && c == b'3' && d == b'~' then some (Key.delete, false) else none)
    else as_char (decode_utf8 (a ∷ b ∷ c ∷ d ∷ []))
read_key bytes = as_char (decode_utf8 bytes)

with_alt : Read → Option ((Key × Bool) × Bool)
with_alt none = none
with_alt (some k) = some (k, true)

-- What is no key by itself is one with Alt, after an escape.
escaped : List ℕ → Option ((Key × Bool) × Bool)
unfolding with_alt read_key
escaped [] = none
escaped (a ∷ rest) = if a == esc then with_alt (read_key rest) else none

or_escaped : Read → List ℕ → Option ((Key × Bool) × Bool)
unfolding escaped
or_escaped (some k) bytes = some (k, false)
or_escaped none bytes = escaped bytes

-- The key, and whether Ctrl and Alt were held.
pub read_press : List ℕ → Option ((Key × Bool) × Bool)
unfolding or_escaped read_key
read_press bytes = or_escaped (read_key bytes) bytes

-- The keystrokes that have bytes of their own: a character that is no control character, Ctrl and a
-- lowercase letter whose byte is not that of another key (Ctrl+H, Ctrl+I and Ctrl+M are), a named key,
-- and Ctrl+Backspace.
unfoldable pub has_own_bytes : Key → Bool → Bool
has_own_bytes (Key.char c) true =
    is_ascii_lowercase c && not (c == b'h') && not (c == b'i') && not (c == b'm')
has_own_bytes (Key.char c) false = is_scalar c && leb 0x20 c && not (c == 0x7f)
has_own_bytes Key.backspace ctrl = true
has_own_bytes key ctrl = not ctrl
