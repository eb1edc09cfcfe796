-- ===== src/Tests/Typing.antt =====
-- Keystrokes and markers.
use acter.Prelude.{◌≡◌, refl, ◌↔◌, true, false, some, negsuc, arith}
use acter.Entity.{Osc133Marker}
use acter.Keys.{
  Key, KeyPress, TerminalModes, LineOwner, SessionIntent, Binding, binding_for, key_bytes,
}
use acter.Keys.Wire.{
  decode_utf8, decode_utf8-key_bytes, is_scalar, intent_bytes, intent_press, key_bytes-binding_for,
  binding_for_iff,
}
use acter.Sniffer.{parse_osc133}
use acter.Sniffer.Printed.{InI32, InRange, print_osc133, parse_osc133-print_osc133}

abbrev plain : TerminalModes
plain = record { application_cursor_keys = false; bracketed_paste = true }

abbrev ctrl_c : KeyPress
ctrl_c = record { key = Key.char b'c'; ctrl = true; shift = false; alt = false }

abbrev alt_euro : KeyPress
alt_euro = record { key = Key.char 0x20ac; ctrl = false; shift = false; alt = true }

decode_utf8-key_bytes_example :
    decode_utf8
      (key_bytes (record { key = Key.char 0x20ac; ctrl = false; shift = true; alt = false }) plain)
    ≡ some 0x20ac
unfolding is_scalar
decode_utf8-key_bytes_example = decode_utf8-key_bytes 0x20ac true plain refl

key_bytes-binding_for_example : key_bytes ctrl_c plain ≡ intent_bytes SessionIntent.interrupt
unfolding binding_for
key_bytes-binding_for_example =
    key_bytes-binding_for ctrl_c LineOwner.local plain SessionIntent.interrupt refl

binding_for_iff_example :
    (binding_for ctrl_c LineOwner.local ≡ Binding.intent SessionIntent.interrupt)
    ↔ ((LineOwner.local ≡ LineOwner.local) × (ctrl_c ≡ intent_press SessionIntent.interrupt))
binding_for_iff_example = binding_for_iff ctrl_c LineOwner.local SessionIntent.interrupt

parse_osc133-print_osc133_example :
    parse_osc133 (print_osc133 (Osc133Marker.command_end (some (negsuc 0))))
    ≡ some (Osc133Marker.command_end (some (negsuc 0)))
unfolding InRange InI32
parse_osc133-print_osc133_example =
    parse_osc133-print_osc133 (Osc133Marker.command_end (some (negsuc 0))) (omega arith)
