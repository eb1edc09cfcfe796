-- ===== src/Keys/Wire.antt =====
-- The wire side of policies/key_bytes.rs and policies/keybindings.rs: a reader of UTF-8, and the
-- keystrokes that act on the far end.
use acter.Prelude.{
  ℕ, ◌+◌, ◌-◌, ◌*◌, ◌≡◌, ◌↔◌, Bool, true, false, ◌&&◌, ◌||◌, Option, if◌then◌else◌, leb, some, none,
  List, [], ◌∷◌, ltb, arith,
}
use acter.Keys.{
  Key, KeyPress, TerminalModes, LineOwner, SessionIntent, Binding, binding_for, encode_utf8,
  is_ascii_alphabetic, to_ascii_uppercase, key_bytes,
}

-- A Unicode scalar value
unfoldable pub is_scalar : ℕ → Bool
is_scalar c = ltb c 0xd800 || (leb 0xe000 c && ltb c 0x110000)

abbrev is_next : ℕ → Bool
is_next b = leb 0x80 b && ltb b 0xc0

-- The value that a sequence gives, if it needs that many bytes.
abbrev if_in : ℕ → ℕ → ℕ → Option ℕ
if_in from to c = if leb from c && ltb c to && is_scalar c then some c else none

-- A reader of one UTF-8 character: one byte below 0x80, or a leading byte and the continuation bytes
-- that it asks for; overlong sequences, surrogates and values past U+10FFFF are refused.
unfoldable pub decode_utf8 : List ℕ → Option ℕ
unfolding is_scalar
decode_utf8 (a ∷ []) = if ltb a 0x80 then some a else none
decode_utf8 (a ∷ b ∷ []) =
    if leb 0xc0 a && ltb a 0xe0 && is_next b
    then if_in 0x80 0x800 ((a - 0xc0) * 64 + (b - 0x80))
    else none
decode_utf8 (a ∷ b ∷ c ∷ []) =
    if leb 0xe0 a && ltb a 0xf0 && is_next b && is_next c
    then if_in 0x800 0x10000 ((a - 0xe0) * 4096 + (b - 0x80) * 64 + (c - 0x80))
    else none
decode_utf8 (a ∷ b ∷ c ∷ d ∷ []) =
    if leb 0xf0 a && ltb a 0xf8 && is_next b && is_next c && is_next d
    then if_in 0x10000 0x110000
        ((a - 0xf0) * 262144 + (b - 0x80) * 4096 + (c - 0x80) * 64 + (d - 0x80))
    else none
decode_utf8 _ = none

-- What `encode_utf8` writes is read back, at each of its lengths.
pub encode_utf8-decode : (c : ℕ) → is_scalar c ≡ true → decode_utf8 (encode_utf8 c) ≡ some c
unfolding decode_utf8 encode_utf8 is_scalar
encode_utf8-decode c h = ground arith

-- A character, a Unicode scalar value, typed without Ctrl or Alt is sent as UTF-8: a strict reader at
-- the far end reads that character back.
pub decode_utf8-key_bytes :
    (c : ℕ) (shift : Bool) (modes : TerminalModes)
    → is_scalar c ≡ true
    → decode_utf8
        (key_bytes (record { key = Key.char c; ctrl = false; shift = shift; alt = false }) modes)
      ≡ some c
unfolding key_bytes
decode_utf8-key_bytes c shift modes h = encode_utf8-decode c h

-- What a terminal sends for an intent.
pub intent_bytes : SessionIntent → List ℕ
intent_bytes SessionIntent.interrupt = 3 ∷ []
intent_bytes SessionIntent.eof = 4 ∷ []

-- The keystroke of an intent.
pub intent_press : SessionIntent → KeyPress
intent_press SessionIntent.interrupt = record {
  key = Key.char b'c';
  ctrl = true;
  shift = false;
  alt = false;
}
intent_press SessionIntent.eof = record {
  key = Key.char b'd';
  ctrl = true;
  shift = false;
  alt = false;
}

-- A keystroke is bound to the interrupt only if its bytes on the wire are the one byte 0x03, and to
-- the end of input only if they are the one byte 0x04.
pub key_bytes-binding_for :
    (press : KeyPress) (owner : LineOwner) (modes : TerminalModes) (meant : SessionIntent)
    → binding_for press owner ≡ Binding.intent meant
    → key_bytes press modes ≡ intent_bytes meant
unfolding binding_for key_bytes intent_bytes is_ascii_alphabetic to_ascii_uppercase
key_bytes-binding_for press owner modes meant h = ground arith

-- A keystroke is bound to an intent exactly when it is typed on a local line as Ctrl and a bare `c`
-- or `d`, without Shift and without Alt.
pub binding_for_iff :
    (press : KeyPress) (owner : LineOwner) (meant : SessionIntent)
    → (binding_for press owner ≡ Binding.intent meant)
      ↔ ((owner ≡ LineOwner.local) × (press ≡ intent_press meant))
unfolding binding_for intent_press
binding_for_iff press owner meant = ground arith
