-- ===== src/ActorId/Hex.antt =====
-- The digits of an id, written and read.
use mathlib.Core.Path.{ap₂}
use do_runtime.Common.{
  ℕ, zero, suc, ◌+◌, ◌*◌, ◌/◌, ◌%◌, ◌<◌, ◌≡◌, refl, ap, ◌∙◌, Bool, true, false, List, [], ◌∷◌,
  length, map, leb, if◌then◌else◌, arith, All, IsByte, ◌&&◌,
}
use do_runtime.ActorId.{hex_digit, to_hex, is_hex, digit_value, all_hex, decode, bytes_eq}

digit_value-hex_digit : (d : ℕ) → d < 16 → digit_value (hex_digit d) ≡ d
digit_value-hex_digit d lt = ground arith

is_hex-hex_digit : (d : ℕ) → d < 16 → is_hex (hex_digit d) ≡ true
is_hex-hex_digit d lt = ground arith

-- The lower case of a digit, as `toString` writes it.
abbrev pub lower : ℕ → ℕ
lower c = if leb 65 c && leb c 70 then c + 32 else c

digit_value-lt : (c : ℕ) → is_hex c ≡ true → digit_value c < 16
digit_value-lt c h = ground arith

hex_digit-digit_value : (c : ℕ) → is_hex c ≡ true → hex_digit (digit_value c) ≡ lower c
hex_digit-digit_value c h = ground arith

pub decode-to_hex : (bs : List ℕ) → All IsByte bs → decode (to_hex bs) ≡ bs
unfolding decode to_hex
decode-to_hex [] w = refl
decode-to_hex (b ∷ bs) w =
    let high = digit_value-hex_digit (b / 16) (omega arith) in
    let low = digit_value-hex_digit (b % 16) (omega arith) in
    ap₂ (λ (x : ℕ) (t : List ℕ). x ∷ t) (omega (arith, high, low)) (decode-to_hex bs w.1)

pub length-to_hex : (bs : List ℕ) → length (to_hex bs) ≡ 2 * length bs
unfolding to_hex
length-to_hex [] = refl
length-to_hex (b ∷ bs) = omega (arith, length-to_hex bs)

pub all_hex-to_hex : (bs : List ℕ) → All IsByte bs → all_hex (to_hex bs) ≡ true
unfolding all_hex to_hex
all_hex-to_hex [] w = refl
all_hex-to_hex (b ∷ bs) w =
    let high = is_hex-hex_digit (b / 16) (omega arith) in
    let low = is_hex-hex_digit (b % 16) (omega arith) in rw (high, low) (all_hex-to_hex bs w.1)

pub length-decode : (n : ℕ) (s : List ℕ) → length s ≡ 2 * n → length (decode s) ≡ n
unfolding decode
length-decode zero [] e = refl
length-decode zero (c ∷ s) e = absurd (omega arith)
length-decode (suc n) [] e = absurd (omega arith)
length-decode (suc n) (c ∷ []) e = absurd (omega arith)
length-decode (suc n) (c ∷ d ∷ s) e = ap suc (length-decode n s (omega arith))

pub &&-true : (a b : Bool) → (a && b) ≡ true → (a ≡ true) × (b ≡ true)
&&-true true b h = (refl, h)
&&-true false b h = cc

pub decode-IsByte : (s : List ℕ) → all_hex s ≡ true → All IsByte (decode s)
unfolding decode all_hex
decode-IsByte [] h = tt
decode-IsByte (c ∷ []) h = tt
decode-IsByte (c ∷ d ∷ s) h =
    let (first, rest) = &&-true (is_hex c) (all_hex (d ∷ s)) h in
    let (second, rest') = &&-true (is_hex d) (all_hex s) rest in
    (omega (arith, digit_value-lt c first, digit_value-lt d second), decode-IsByte s rest')

pub to_hex-decode :
    (n : ℕ) (s : List ℕ) → length s ≡ 2 * n → all_hex s ≡ true → to_hex (decode s) ≡ map lower s
unfolding decode to_hex all_hex
to_hex-decode zero [] e h = refl
to_hex-decode zero (c ∷ s) e h = absurd (omega arith)
to_hex-decode (suc n) [] e h = absurd (omega arith)
to_hex-decode (suc n) (c ∷ []) e h = absurd (omega arith)
to_hex-decode (suc n) (c ∷ d ∷ s) e h =
    let (first, rest) = &&-true (is_hex c) (all_hex (d ∷ s)) h in
    let (second, rest') = &&-true (is_hex d) (all_hex s) rest in
    let high : (digit_value c * 16 + digit_value d) / 16 ≡ digit_value c =
      omega (arith, digit_value-lt d second) in
    let low : (digit_value c * 16 + digit_value d) % 16 ≡ digit_value d =
      omega (arith, digit_value-lt d second) in
    ap₂ (λ (x : ℕ) (t : List ℕ). x ∷ t) (ap hex_digit high ∙ hex_digit-digit_value c first)
      (ap₂ (λ (x : ℕ) (t : List ℕ). x ∷ t) (ap hex_digit low ∙ hex_digit-digit_value d second)
        (to_hex-decode n s (omega arith) rest'))

pub bytes_eq_refl : (bs : List ℕ) → bytes_eq bs bs ≡ true
unfolding bytes_eq
bytes_eq_refl [] = refl
bytes_eq_refl (b ∷ bs) = ground (arith, bytes_eq_refl bs)

pub bytes_eq_sound : (as' bs : List ℕ) → bytes_eq as' bs ≡ true → as' ≡ bs
unfolding bytes_eq
bytes_eq_sound [] [] h = refl
bytes_eq_sound [] (b ∷ bs) h = cc
bytes_eq_sound (a ∷ as') [] h = cc
bytes_eq_sound (a ∷ as') (b ∷ bs) h = ground (arith, bytes_eq_sound as' bs)
