-- ===== src/Core/Numbers.antt =====
-- Numbers as text, as the standard library writes and reads them: `oss << std::showbase <<
-- std::hex << n` for a 16-bit n, and `std::stoul(s, nullptr, 0)`.
use minimal_autosar_adaptive.Prelude.{
  ℕ, ◌+◌, ◌-◌, ◌*◌, ◌/◌, ◌%◌, ◌^◌, ◌<◌, ◌≡◌, ap, Bool, true, false, ◌&&◌, ◌||◌, nat_eq, ◌==◌, Bytes,
  [], ◌∷◌, Option, none, some, arith, sym, ltb, ltb→lt, leb, Bool-cases, inl, inr, ◌∙◌,
  if◌then◌else◌,
}

unfoldable pub hex_digit : ℕ → ℕ
hex_digit d = if ltb d 10 then 48 + d else 87 + d

unfoldable pub hex_digits : ℕ → Bytes
unfolding hex_digit
hex_digits n =
    if ltb n 16
    then hex_digit n ∷ []
    else if ltb n 256
    then hex_digit (n / 16) ∷ hex_digit (n % 16) ∷ []
    else if ltb n 4096
    then hex_digit (n / 256) ∷ hex_digit (n / 16 % 16) ∷ hex_digit (n % 16) ∷ []
    else hex_digit (n / 4096)
      ∷ hex_digit (n / 256 % 16)
      ∷ hex_digit (n / 16 % 16)
      ∷ hex_digit (n % 16)
      ∷ []

-- Zero has no base prefix.
unfoldable pub show_hex : ℕ → Bytes
unfolding hex_digits
show_hex n = if n == 0 then b'0' ∷ [] else b'0' ∷ b'x' ∷ hex_digits n

-- The value of a digit of any base up to 16; `none` for any other byte.
unfoldable pub digit_value : ℕ → Option ℕ
digit_value c =
    if leb 48 c && leb c 57
    then some (c - 48)
    else if leb 97 c && leb c 102
    then some (c - 87)
    else if leb 65 c && leb c 70
    then some (c - 55)
    else none

-- The longest run of digits of the base, after digits worth `acc`.
unfoldable pub read_digits : ℕ → ℕ → Bytes → ℕ
unfolding digit_value
read_digits base acc [] = acc
read_digits base acc (c ∷ s) = elim (digit_value c) [
  | none ↦ acc
  | some d ↦ let rest = read_digits base (acc * base + d) s in if ltb d base then rest else acc
]

unfoldable pub is_digit_of : ℕ → Bytes → Bool
unfolding digit_value
is_digit_of base [] = false
is_digit_of base (c ∷ s) = elim (digit_value c) [ none ↦ false | some d ↦ ltb d base ]

-- After white space and sign: the base is 16 after 0x and a digit, 8 after 0, and else 10.
-- `none` where there is no digit.
unfoldable pub read_magnitude : Bytes → Option ℕ
unfolding read_digits is_digit_of
read_magnitude [] = none
read_magnitude (c ∷ []) = if is_digit_of 10 (c ∷ []) then some (read_digits 10 0 (c ∷ [])) else none
read_magnitude (c ∷ x ∷ s) =
    if c == b'0' && ((x == b'x' || x == b'X') && is_digit_of 16 s)
    then some (read_digits 16 0 s)
    else if c == b'0'
    then some (read_digits 8 0 (x ∷ s))
    else if is_digit_of 10 (c ∷ [])
    then some (read_digits 10 0 (c ∷ x ∷ s))
    else none

unfoldable pub read_signed : Bytes → Option ℕ
unfolding read_magnitude
read_signed [] = none
read_signed (c ∷ s) =
    if c == b'-'
    then (elim (read_magnitude s) [
      | none ↦ none
      | some n ↦ if ltb n (2 ^ 64) then some ((2 ^ 64 - n) % 2 ^ 64) else none
    ])
    else (elim (read_magnitude (if c == b'+' then s else c ∷ s)) [
      | none ↦ none
      | some n ↦ if ltb n (2 ^ 64) then some n else none
    ])

-- `none` where stoul throws.
unfoldable pub stoul : Bytes → Option ℕ
unfolding read_signed
stoul [] = none
stoul (c ∷ s) =
    let rest = stoul s in if c == 32 || (leb 9 c && leb c 13) then rest else read_signed (c ∷ s)

digit_value-hex_digit : (d : ℕ) → d < 16 → digit_value (hex_digit d) ≡ some d
unfolding digit_value hex_digit
digit_value-hex_digit d h = ground arith

read_digits-hex_digit :
    (acc d : ℕ) (s : Bytes)
    → d < 16
    → read_digits 16 acc (hex_digit d ∷ s) ≡ read_digits 16 (acc * 16 + d) s
unfolding read_digits
read_digits-hex_digit acc d s h = rw (digit_value-hex_digit d h, read_digits) (ground arith)

module _ (a b c d : ℕ) (ha : a < 16) (hb : b < 16) (hc : c < 16) (hd : d < 16) where
  read_one : read_digits 16 0 (hex_digit d ∷ []) ≡ d
  read_one = rw (read_digits-hex_digit 0 d [] hd) (unfold read_digits in omega arith)

  read_two : read_digits 16 0 (hex_digit c ∷ hex_digit d ∷ []) ≡ c * 16 + d
  read_two =
      rw
        (
          read_digits-hex_digit 0 c (hex_digit d ∷ []) hc,
          read_digits-hex_digit (0 * 16 + c) d [] hd,
        )
        (unfold read_digits in omega arith)

  read_three :
      read_digits 16 0 (hex_digit b ∷ hex_digit c ∷ hex_digit d ∷ []) ≡ b * 256 + c * 16 + d
  read_three =
      rw
        (
          read_digits-hex_digit 0 b (hex_digit c ∷ hex_digit d ∷ []) hb,
          read_digits-hex_digit (0 * 16 + b) c (hex_digit d ∷ []) hc,
          read_digits-hex_digit ((0 * 16 + b) * 16 + c) d [] hd,
        )
        (unfold read_digits in omega arith)

  read_four :
      read_digits 16 0 (hex_digit a ∷ hex_digit b ∷ hex_digit c ∷ hex_digit d ∷ [])
      ≡ a * 4096 + b * 256 + c * 16 + d
  read_four =
      rw
        (
          read_digits-hex_digit 0 a (hex_digit b ∷ hex_digit c ∷ hex_digit d ∷ []) ha,
          read_digits-hex_digit (0 * 16 + a) b (hex_digit c ∷ hex_digit d ∷ []) hb,
          read_digits-hex_digit ((0 * 16 + a) * 16 + b) c (hex_digit d ∷ []) hc,
          read_digits-hex_digit (((0 * 16 + a) * 16 + b) * 16 + c) d [] hd,
        )
        (unfold read_digits in omega arith)

read_hex_digits : (n : ℕ) → n < 65536 → read_digits 16 0 (hex_digits n) ≡ n
unfolding hex_digits
read_hex_digits n h = elim (Bool-cases (ltb n 16)) [
  | inl e ↦ rw e (read_one 0 0 0 n (omega arith) (omega arith) (omega arith) (ltb→lt n 16 e))
  | inr e ↦ elim (Bool-cases (ltb n 256)) [
    | inl f ↦
        rw (e, f)
          (read_two 0 0 (n / 16) (n % 16) (omega arith) (omega arith)
              (omega (arith, ltb→lt n 256 f)) (omega arith)
            ∙ omega arith)
    | inr f ↦ elim (Bool-cases (ltb n 4096)) [
      | inl g ↦
          rw (e, f, g)
            (read_three 0 (n / 256) (n / 16 % 16) (n % 16) (omega arith)
                (omega (arith, ltb→lt n 4096 g)) (omega arith) (omega arith)
              ∙ omega arith)
      | inr g ↦
          rw (e, f, g)
            (read_four (n / 4096) (n / 256 % 16) (n / 16 % 16) (n % 16) (omega arith) (omega arith)
                (omega arith) (omega arith)
              ∙ omega arith)
    ]
  ]
]

is_digit_of-hex_digit : (d : ℕ) (s : Bytes) → d < 16 → is_digit_of 16 (hex_digit d ∷ s) ≡ true
unfolding is_digit_of
is_digit_of-hex_digit d s h = rw (digit_value-hex_digit d h, is_digit_of) (ground arith)

-- The digits begin with one, so the base prefix is read as such.
is_digit_of-hex_digits : (n : ℕ) → n < 65536 → is_digit_of 16 (hex_digits n) ≡ true
unfolding hex_digits
is_digit_of-hex_digits n h = elim (Bool-cases (ltb n 16)) [
  | inl e ↦ rw e (is_digit_of-hex_digit n _ (ltb→lt n 16 e))
  | inr e ↦ elim (Bool-cases (ltb n 256)) [
    | inl f ↦ rw (e, f) (is_digit_of-hex_digit (n / 16) _ (omega (arith, ltb→lt n 256 f)))
    | inr f ↦ elim (Bool-cases (ltb n 4096)) [
      | inl g ↦ rw (e, f, g) (is_digit_of-hex_digit (n / 256) _ (omega (arith, ltb→lt n 4096 g)))
      | inr g ↦ rw (e, f, g) (is_digit_of-hex_digit (n / 4096) _ (omega arith))
    ]
  ]
]

read_magnitude-hex :
    (s : Bytes)
    → is_digit_of 16 s ≡ true
    → read_magnitude (b'0' ∷ b'x' ∷ s) ≡ some (read_digits 16 0 s)
unfolding read_magnitude
read_magnitude-hex s h = rw h

-- What the one writes the other reads.
pub stoul-show_hex : (n : ℕ) → n < 65536 → stoul (show_hex n) ≡ some n
stoul-show_hex n h = elim (Bool-cases (n == 0)) [
  | inl e ↦ unfold stoul show_hex in rw e (ap some (sym ((nat_eq.beq_iff n 0).0 e)))
  | inr e ↦
      unfold stoul show_hex in
      rw e (
        rw (read_magnitude-hex (hex_digits n) (is_digit_of-hex_digits n h), read_hex_digits n h)
          (ground arith))
]
