-- ===== src/Http/Reading.antt =====
-- How `String::from_utf8_lossy`, on which nauti-fabric/src/plan.rs relies, reads one character.
use nauti_virtualizer.Prelude.{
  ℕ, zero, suc, ◌+◌, ◌*◌, ◌/◌, ◌%◌, ◌≤◌, ◌<◌, true, ltb, List, [], ◌∷◌, some, ◌≡◌, refl, ap, length,
  arith, ◌⊎◌,
}
use nauti_virtualizer.Http.Utf8.{
  is_continuation, last_byte, third_byte, second_of_three, second_of_four, after_three, after_four,
  next_char, pieces,
}

pub read_one : (n : ℕ) (rest : List ℕ) → n < 0x80 → next_char n rest ≡ (some n, rest)
unfolding next_char
read_one n rest h = ground arith

read_last :
    (v b n : ℕ) (rest : List ℕ)
    → 0x80 ≤ b
    → b < 0xc0
    → v * 64 + b % 64 ≡ n
    → last_byte v (b ∷ rest) ≡ (some n, rest)
unfolding last_byte is_continuation
read_last v b n rest lo hi e = ground arith

read_third :
    (v b c n : ℕ) (rest : List ℕ)
    → 0x80 ≤ b
    → b < 0xc0
    → 0x80 ≤ c
    → c < 0xc0
    → (v * 64 + b % 64) * 64 + c % 64 ≡ n
    → third_byte v (b ∷ c ∷ rest) ≡ (some n, rest)
unfolding third_byte is_continuation
read_third v b c n rest lo hi lo' hi' e = ground (arith, read_last (v * 64 + b % 64) c n rest)

pub read_two :
    (n : ℕ) (rest : List ℕ)
    → 0x80 ≤ n
    → n < 0x800
    → next_char (0xc0 + n / 64) ((0x80 + n % 64) ∷ rest) ≡ (some n, rest)
unfolding next_char
read_two n rest lo hi =
    let last =
      read_last ((0xc0 + n / 64) % 32) (0x80 + n % 64) n rest (omega arith) (omega arith)
        (omega arith) in
    ground (arith, last)

-- The three bytes of a scalar value from 0x800 to 0xffff.
second_three :
    (n : ℕ)
    → 0x800 ≤ n
    → n < 0x10000
    → ltb n 0xd800 ≡ true ⊎ ltb 0xdfff n ≡ true
    → second_of_three (0xe0 + n / 4096) (0x80 + n / 64 % 64) ≡ true
unfolding second_of_three is_continuation
second_three n lo hi scalar = ground arith

pub read_three :
    (n : ℕ) (rest : List ℕ)
    → 0x800 ≤ n
    → n < 0x10000
    → ltb n 0xd800 ≡ true ⊎ ltb 0xdfff n ≡ true
    → next_char (0xe0 + n / 4096) ((0x80 + n / 64 % 64) ∷ (0x80 + n % 64) ∷ rest) ≡ (some n, rest)
unfolding next_char after_three
read_three n rest lo hi scalar =
    let last =
      read_last ((0xe0 + n / 4096) % 16 * 64 + (0x80 + n / 64 % 64) % 64) (0x80 + n % 64) n rest
        (omega arith) (omega arith) (omega arith) in
    ground (arith, last, second_three n lo hi scalar)

second_four :
    (n : ℕ)
    → 0x10000 ≤ n
    → n < 0x110000
    → second_of_four (0xf0 + n / 262144) (0x80 + n / 4096 % 64) ≡ true
unfolding second_of_four is_continuation
second_four n lo hi = ground arith

pub read_four :
    (n : ℕ) (rest : List ℕ)
    → 0x10000 ≤ n
    → n < 0x110000
    → next_char
        (0xf0 + n / 262144)
        ((0x80 + n / 4096 % 64) ∷ (0x80 + n / 64 % 64) ∷ (0x80 + n % 64) ∷ rest)
      ≡ (some n, rest)
unfolding next_char after_four
read_four n rest lo hi =
    let third =
      read_third ((0xf0 + n / 262144) % 8 * 64 + (0x80 + n / 4096 % 64) % 64) (0x80 + n / 64 % 64)
        (0x80 + n % 64) n rest (omega arith) (omega arith) (omega arith) (omega arith)
        (omega arith) in
    ground (arith, third, second_four n lo hi)

length-last_byte : (v : ℕ) (s : List ℕ) → length (last_byte v s).1 ≤ length s
unfolding last_byte
length-last_byte v [] = omega arith
length-last_byte v (b ∷ s) = ground arith

length-third_byte : (v : ℕ) (s : List ℕ) → length (third_byte v s).1 ≤ length s
unfolding third_byte
length-third_byte v [] = omega arith
length-third_byte v (b ∷ s) = ground (arith, length-last_byte (v * 64 + b % 64) s)

length-after_three : (a : ℕ) (s : List ℕ) → length (after_three a s).1 ≤ length s
unfolding after_three
length-after_three a [] = omega arith
length-after_three a (b ∷ s) = ground (arith, length-last_byte (a % 16 * 64 + b % 64) s)

length-after_four : (a : ℕ) (s : List ℕ) → length (after_four a s).1 ≤ length s
unfolding after_four
length-after_four a [] = omega arith
length-after_four a (b ∷ s) = ground (arith, length-third_byte (a % 8 * 64 + b % 64) s)

pub length-next_char : (a : ℕ) (s : List ℕ) → length (next_char a s).1 ≤ length s
unfolding next_char
length-next_char a s =
    ground (arith, length-last_byte (a % 32) s, length-after_three a s, length-after_four a s)

pub pieces_enough : (m n : ℕ) (s : List ℕ) → length s ≤ m → length s ≤ n → pieces m s ≡ pieces n s
unfolding pieces
pieces_enough zero zero s hm hn = refl
pieces_enough zero (suc n) [] hm hn = refl
pieces_enough zero (suc n) (a ∷ s) hm hn = absurd (omega arith)
pieces_enough (suc m) zero [] hm hn = refl
pieces_enough (suc m) zero (a ∷ s) hm hn = absurd (omega arith)
pieces_enough (suc m) (suc n) [] hm hn = refl
pieces_enough (suc m) (suc n) (a ∷ s) hm hn =
    let shorter = length-next_char a s in
    ap (λ ps. (next_char a s).0 ∷ ps)
      (pieces_enough m n (next_char a s).1 (omega (arith, shorter)) (omega (arith, shorter)))
