-- ===== src/Sniffer.antt =====
-- The OSC 133 markers of a shell, read from the parameters of an escape sequence:
-- crates/acter-term/src/alacritty_engine/sniffer.rs.
pub mod Printed
use acter.Prelude.{
  ℕ, zero, suc, ◌+◌, ◌-◌, ◌*◌, ◌^◌, Bool, true, false, ◌&&◌, ◌||◌, Option, some, none, List, [],
  ◌∷◌, ltb, leb, ◌==◌, if◌then◌else◌, ℤ, pos, negsuc, seq_eq,
}
use acter.Entity.{ExitCode, Osc133Marker}

unfoldable pub is_digit : ℕ → Bool
is_digit c = leb b'0' c && leb c b'9'

-- The value of a run of digits after `acc`: `none` at any other byte.
unfoldable pub digits_value : ℕ → List ℕ → Option ℕ
unfolding is_digit
digits_value acc [] = some acc
digits_value acc (c ∷ cs) =
    let rest = digits_value (acc * 10 + (c - b'0')) cs in if is_digit c then rest else none

unfoldable pub unsigned_value : List ℕ → Option ℕ
unfolding digits_value
unsigned_value [] = none
unsigned_value (c ∷ cs) = digits_value 0 (c ∷ cs)

-- The `i32` of the magnitude `n`, if it has one.
unfoldable pub positive : Option ℕ → Option ExitCode
positive none = none
positive (some n) = if ltb n (2 ^ 31) then some (pos n) else none

unfoldable pub negative : Option ℕ → Option ExitCode
negative none = none
negative (some zero) = some (pos 0)
negative (some (suc n)) = if ltb n (2 ^ 31) then some (negsuc n) else none

-- `str::parse::<i32>`: an optional sign, then at least one digit; a byte that is not UTF-8 is no
-- digit either.
unfoldable pub parse_i32 : List ℕ → Option ExitCode
unfolding unsigned_value positive negative
parse_i32 [] = none
parse_i32 (c ∷ cs) =
    if c == b'-'
    then negative (unsigned_value cs)
    else if c == b'+'
    then positive (unsigned_value cs)
    else positive (unsigned_value (c ∷ cs))

unfoldable pub exit_code : List (List ℕ) → Option ExitCode
unfolding parse_i32
exit_code [] = none
exit_code (param ∷ rest) = parse_i32 param

unfoldable pub known_marker : List ℕ → List (List ℕ) → Option Osc133Marker
unfolding seq_eq exit_code
known_marker kind rest =
    if seq_eq kind (b'A' ∷ [])
    then some Osc133Marker.prompt_start
    else if seq_eq kind (b'B' ∷ [])
    then some Osc133Marker.command_start
    else if seq_eq kind (b'C' ∷ [])
    then some Osc133Marker.output_start
    else if seq_eq kind (b'D' ∷ [])
    then some (Osc133Marker.command_end (exit_code rest))
    else none

unfoldable pub parse_osc133 : List (List ℕ) → Option Osc133Marker
unfolding seq_eq known_marker
parse_osc133 (code ∷ kind ∷ rest) =
    if seq_eq code (b'1' ∷ b'3' ∷ b'3' ∷ []) then known_marker kind rest else none
parse_osc133 _ = none
