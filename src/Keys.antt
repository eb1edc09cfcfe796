-- ===== src/Keys.antt =====
-- Keystrokes: what one means to the session, crates/acter-core/src/policies/keybindings.rs, and its
-- bytes on the wire, policies/key_bytes.rs.
pub mod Wire
pub mod Read
use acter.Prelude.{
  ℕ, ◌+◌, ◌-◌, ◌/◌, ◌%◌, Bool, true, false, not, ◌&&◌, ◌||◌, List, [], ◌∷◌, ltb, leb, ◌==◌,
  if◌then◌else◌,
}

pub data Key : Type 0 where
  char : ℕ → Key
  up down left right home end tab enter backspace delete escape : Key

pub record KeyPress : Type 0 where
  pub key : Key
  pub ctrl : Bool
  pub shift : Bool
  pub alt : Bool

pub record TerminalModes : Type 0 where
  pub application_cursor_keys : Bool
  pub bracketed_paste : Bool

pub data LineOwner : Type 0 where
  local far_end : LineOwner

pub data SessionIntent : Type 0 where
  interrupt eof : SessionIntent

pub data Binding : Type 0 where
  intent : SessionIntent → Binding
  to_far_end unbound : Binding

-- The arms of `binding_for` on a local line.
local_binding : Key → Bool → Bool → Bool → Binding
local_binding (Key.char c) true false false =
    if c == b'c'
    then Binding.intent SessionIntent.interrupt
    else if c == b'd'
    then Binding.intent SessionIntent.eof
    else Binding.unbound
local_binding _ ctrl shift alt = Binding.unbound

unfoldable pub binding_for : KeyPress → LineOwner → Binding
unfolding local_binding
binding_for press LineOwner.far_end = Binding.to_far_end
binding_for press LineOwner.local = local_binding press.key press.ctrl press.shift press.alt

abbrev pub esc : ℕ
esc = 0x1b

cursor_key : ℕ → TerminalModes → List ℕ
cursor_key final_byte modes =
    esc ∷ (if modes.application_cursor_keys then b'O' else b'[') ∷ final_byte ∷ []

unfoldable pub is_ascii_lowercase : ℕ → Bool
is_ascii_lowercase c = leb b'a' c && leb c b'z'

unfoldable pub is_ascii_alphabetic : ℕ → Bool
unfolding is_ascii_lowercase
is_ascii_alphabetic c = is_ascii_lowercase c || (leb b'A' c && leb c b'Z')

unfoldable pub to_ascii_uppercase : ℕ → ℕ
unfolding is_ascii_lowercase
to_ascii_uppercase c = if is_ascii_lowercase c then c - 32 else c

-- `char::encode_utf8`
unfoldable pub encode_utf8 : ℕ → List ℕ
encode_utf8 c =
    if ltb c 0x80
    then c ∷ []
    else if ltb c 0x800
    then (0xc0 + c / 64) ∷ (0x80 + c % 64) ∷ []
    else if ltb c 0x10000
    then (0xe0 + c / 4096) ∷ (0x80 + c / 64 % 64) ∷ (0x80 + c % 64) ∷ []
    else (0xf0 + c / 262144) ∷ (0x80 + c / 4096 % 64) ∷ (0x80 + c / 64 % 64) ∷ (0x80 + c % 64) ∷ []

character_bytes : ℕ → Bool → List ℕ
unfolding is_ascii_alphabetic to_ascii_uppercase
character_bytes c ctrl =
    if ctrl && is_ascii_alphabetic c then (to_ascii_uppercase c - 0x40) ∷ [] else encode_utf8 c

unmodified : Key → Bool → TerminalModes → List ℕ
unfolding cursor_key character_bytes
unmodified (Key.char c) ctrl modes = character_bytes c ctrl
unmodified Key.up ctrl modes = cursor_key b'A' modes
unmodified Key.down ctrl modes = cursor_key b'B' modes
unmodified Key.right ctrl modes = cursor_key b'C' modes
unmodified Key.left ctrl modes = cursor_key b'D' modes
unmodified Key.home ctrl modes = cursor_key b'H' modes
unmodified Key.end ctrl modes = cursor_key b'F' modes
unmodified Key.tab ctrl modes = 0x09 ∷ []
unmodified Key.enter ctrl modes = 0x0d ∷ []
unmodified Key.backspace ctrl modes = (if ctrl then 0x08 else 0x7f) ∷ []
unmodified Key.delete ctrl modes = esc ∷ b'[' ∷ b'3' ∷ b'~' ∷ []
unmodified Key.escape ctrl modes = esc ∷ []

unfoldable pub key_bytes : KeyPress → TerminalModes → List ℕ
unfolding unmodified
key_bytes press modes =
    let bytes = unmodified press.key press.ctrl modes in if press.alt then esc ∷ bytes else bytes
