-- ===== src/Sniffer/Printed.antt =====
-- The markers as shells print them, and that the sniffer reads every one of them back.
use acter.Prelude.{
  ℕ, zero, suc, ◌+◌, ◌-◌, ◌*◌, ◌/◌, ◌%◌, ◌^◌, ◌≤◌, ◌<◌, ◌≡◌, ◌≢◌, ◌∙◌, inl, inr, refl, ap, true,
  false, some, none, List, [], ◌∷◌, ◌++◌, ltb, if◌then◌else◌, pos, negsuc, seq_eq, arith,
  Bool-cases,
}
use acter.Entity.{ExitCode, Osc133Marker}
use acter.Sniffer.{
  is_digit, digits_value, unsigned_value, positive, negative, parse_i32, exit_code, known_marker,
  parse_osc133,
}

-- Decimal digits of a number, with fuel for its tens.
pub print_digits : ℕ → ℕ → List ℕ
print_digits zero n = (b'0' + n) ∷ []
print_digits (suc fuel) n =
    let tens = print_digits fuel (n / 10) in
    if ltb n 10 then (b'0' + n) ∷ [] else tens ++ (b'0' + n % 10) ∷ []

digits_value-snoc :
    (acc : ℕ) (cs : List ℕ) (v d : ℕ)
    → d < 10
    → digits_value acc cs ≡ some v
    → digits_value acc (cs ++ (b'0' + d) ∷ []) ≡ some (v * 10 + d)
unfolding digits_value is_digit
digits_value-snoc acc [] v d d<10 h = ground arith
digits_value-snoc acc (c ∷ cs) v d d<10 h =
    ground (arith, digits_value-snoc (acc * 10 + (c - b'0')) cs v d d<10)

ltb→le : (a b : ℕ) → ltb a b ≡ false → b ≤ a
ltb→le a b h = ground arith

digits_value-tens :
    (tens : List ℕ) (n : ℕ)
    → digits_value 0 tens ≡ some (n / 10)
    → digits_value 0 (tens ++ (b'0' + n % 10) ∷ []) ≡ some n
digits_value-tens tens n h =
    digits_value-snoc 0 tens (n / 10) (n % 10) (omega arith) h ∙ ap some (omega arith)

digits_value-print_digits : (fuel n : ℕ) → n ≤ fuel → digits_value 0 (print_digits fuel n) ≡ some n
unfolding digits_value print_digits is_digit
digits_value-print_digits zero n h = ground arith
digits_value-print_digits (suc fuel) n h = elim (Bool-cases (ltb n 10)) [
  | inl e ↦ rw e (ground arith)
  | inr e ↦ rw e (
      digits_value-tens (print_digits fuel (n / 10)) n
        (digits_value-print_digits fuel (n / 10) (omega (arith, ltb→le n 10 e))))
]

-- The exit codes of an `i32`.
unfoldable pub InI32 : ExitCode → Type 0
InI32 (pos n) = n < 2 ^ 31
InI32 (negsuc n) = n < 2 ^ 31

pub print_i32 : ExitCode → List ℕ
unfolding print_digits
print_i32 (pos n) = print_digits n n
print_i32 (negsuc n) = b'-' ∷ print_digits (suc n) (suc n)

head_digit : (c : ℕ) (cs : List ℕ) (v : ℕ) → digits_value 0 (c ∷ cs) ≡ some v → is_digit c ≡ true
unfolding digits_value
head_digit c cs v h = ground arith

parse_i32-positive :
    (cs : List ℕ) (n : ℕ) → unsigned_value cs ≡ some n → parse_i32 cs ≡ positive (some n)
unfolding parse_i32 unsigned_value is_digit
parse_i32-positive [] n h = ground arith
parse_i32-positive (c ∷ cs) n h = ground (arith, head_digit c cs n h)

snoc_nonempty : (cs : List ℕ) (c : ℕ) → (cs ++ c ∷ []) ≢ []
snoc_nonempty [] c h = ground arith
snoc_nonempty (d ∷ cs) c h = ground arith

print_digits_nonempty : (fuel n : ℕ) → print_digits fuel n ≢ []
unfolding print_digits
print_digits_nonempty zero n h = ground arith
print_digits_nonempty (suc fuel) n h =
    ground (arith, snoc_nonempty (print_digits fuel (n / 10)) (b'0' + n % 10))

unsigned_value-digits_value :
    (cs : List ℕ) (n : ℕ) → cs ≢ [] → digits_value 0 cs ≡ some n → unsigned_value cs ≡ some n
unfolding unsigned_value
unsigned_value-digits_value [] n h e = ground arith
unsigned_value-digits_value (c ∷ cs) n h e = e

unsigned_value-print_digits :
    (fuel n : ℕ) → n ≤ fuel → unsigned_value (print_digits fuel n) ≡ some n
unfolding unsigned_value
unsigned_value-print_digits fuel n h =
    unsigned_value-digits_value (print_digits fuel n) n (print_digits_nonempty fuel n)
      (digits_value-print_digits fuel n h)

positive-pos : (n : ℕ) → n < 2 ^ 31 → positive (some n) ≡ some (pos n)
unfolding positive
positive-pos n h = ground arith

negative-suc : (n : ℕ) → n < 2 ^ 31 → negative (some (suc n)) ≡ some (negsuc n)
unfolding negative
negative-suc n h = ground arith

pub parse_i32-print_i32 : (code : ExitCode) → InI32 code → parse_i32 (print_i32 code) ≡ some code
unfolding InI32 print_i32 parse_i32
parse_i32-print_i32 (pos n) h =
    parse_i32-positive (print_digits n n) n (unsigned_value-print_digits n n (omega arith))
    ∙ positive-pos n h
parse_i32-print_i32 (negsuc n) h =
    ap negative (unsigned_value-print_digits (suc n) (suc n) (omega arith)) ∙ negative-suc n h

-- The parameters of the escape sequence that announces a marker.
pub print_osc133 : Osc133Marker → List (List ℕ)
unfolding print_i32
print_osc133 Osc133Marker.prompt_start = (b'1' ∷ b'3' ∷ b'3' ∷ []) ∷ (b'A' ∷ []) ∷ []
print_osc133 Osc133Marker.command_start = (b'1' ∷ b'3' ∷ b'3' ∷ []) ∷ (b'B' ∷ []) ∷ []
print_osc133 Osc133Marker.output_start = (b'1' ∷ b'3' ∷ b'3' ∷ []) ∷ (b'C' ∷ []) ∷ []
print_osc133 (Osc133Marker.command_end none) = (b'1' ∷ b'3' ∷ b'3' ∷ []) ∷ (b'D' ∷ []) ∷ []
print_osc133 (Osc133Marker.command_end (some code)) =
    (b'1' ∷ b'3' ∷ b'3' ∷ []) ∷ (b'D' ∷ []) ∷ print_i32 code ∷ []

-- A marker whose exit code, if it has one, is an `i32`.
unfoldable pub InRange : Osc133Marker → Type 0
InRange (Osc133Marker.command_end (some code)) = InI32 code
InRange _ = 0 ≤ 0

-- Every marker, with any exit code that is an `i32` or with none, is read back from its parameters.
pub parse_osc133-print_osc133 :
    (marker : Osc133Marker) → InRange marker → parse_osc133 (print_osc133 marker) ≡ some marker
unfolding parse_osc133 known_marker exit_code print_osc133 InRange seq_eq
parse_osc133-print_osc133 Osc133Marker.prompt_start h = refl
parse_osc133-print_osc133 Osc133Marker.command_start h = refl
parse_osc133-print_osc133 Osc133Marker.output_start h = refl
parse_osc133-print_osc133 (Osc133Marker.command_end none) h = refl
parse_osc133-print_osc133 (Osc133Marker.command_end (some code)) h =
    ap (λ c. some (Osc133Marker.command_end c)) (parse_i32-print_i32 code h)

-- A code that the parser gives is an `i32`, whatever the bytes.
pub parse_i32-InI32 : (bytes : List ℕ) (code : ExitCode) → parse_i32 bytes ≡ some code → InI32 code
unfolding InI32 parse_i32 positive negative
parse_i32-InI32 [] code h = ground arith
parse_i32-InI32 (c ∷ cs) (pos n) h = ground arith
parse_i32-InI32 (c ∷ cs) (negsuc n) h = ground arith
