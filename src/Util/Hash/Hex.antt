-- ===== src/Util/Hash/Hex.antt =====
-- Round trip of the hexadecimal text (src/util/Hash.cpp).
use code_tribunal.Prelude.{
  ℕ, zero, suc, ◌*◌, ◌/◌, ◌%◌, ◌<◌, ◌≡◌, refl, Bool, true, false, if◌then◌else◌, ◌==◌, Option, none,
  some, List, [], ◌∷◌, All, length, arith,
}
use code_tribunal.Prelude.Int.{ℤ, pos, negsuc}
use code_tribunal.Prelude.Stoi.{stoi}
use code_tribunal.Util.Hash.{hex_digit, hex_encode, decode_pairs, hex_decode}

is_value : ℕ → Option ℤ → Bool
is_value b none = false
is_value b (some (pos n)) = n == b
is_value b (some (negsuc n)) = false

is_value_eq : (b : ℕ) (o : Option ℤ) → is_value b o ≡ true → o ≡ some (pos b)
unfolding is_value
is_value_eq b none h = cc
is_value_eq b (some (pos n)) h = ground arith
is_value_eq b (some (negsuc n)) h = cc

-- Does the text of a byte read back as that byte?
reads_back : ℕ → Bool
reads_back b = is_value b (stoi 16 (hex_digit (b / 16) ∷ hex_digit (b % 16) ∷ []))

-- Do the texts of all bytes below a bound read back?
all_read_back : ℕ → Bool
all_read_back zero = true
all_read_back (suc bound) =
    let below = all_read_back bound in if reads_back bound then below else false

reads_back-all_read_back :
    (b bound : ℕ) → b < bound → all_read_back bound ≡ true → reads_back b ≡ true
unfolding all_read_back
reads_back-all_read_back b zero h e = absurd (omega arith)
reads_back-all_read_back b (suc bound) h e =
    let below = reads_back-all_read_back b bound in ground arith

bytes_read_back : all_read_back 256 ≡ true
unfolding all_read_back reads_back is_value stoi hex_digit
bytes_read_back = refl

stoi_byte :
    (b : ℕ) → b < 256 → stoi 16 (hex_digit (b / 16) ∷ hex_digit (b % 16) ∷ []) ≡ some (pos b)
unfolding reads_back
stoi_byte b h = is_value_eq b _ (reads_back-all_read_back b 256 h bytes_read_back)

abbrev pub IsByte : ℕ → Type 0
IsByte b = b < 256

pub length-hex_encode : (bytes : List ℕ) → length (hex_encode bytes) ≡ 2 * length bytes
unfolding hex_encode
length-hex_encode [] = refl
length-hex_encode (b ∷ bytes) = omega (arith, length-hex_encode bytes)

decode_pairs-hex_encode :
    (bytes : List ℕ) → All IsByte bytes → decode_pairs (hex_encode bytes) ≡ some bytes
unfolding decode_pairs hex_encode
decode_pairs-hex_encode [] h = refl
decode_pairs-hex_encode (b ∷ bytes) h =
    rw (stoi_byte b h.0, decode_pairs-hex_encode bytes h.1) (ground (arith, h.0))

even-hex_encode : (bytes : List ℕ) → (length (hex_encode bytes) % 2 == 0) ≡ true
even-hex_encode bytes = rw (length-hex_encode bytes) (ground arith)

-- Decoding the encoding of bytes gives the bytes back.
pub hex_decode-hex_encode :
    (bytes : List ℕ) → All IsByte bytes → hex_decode (hex_encode bytes) ≡ bytes
unfolding hex_decode
hex_decode-hex_encode bytes h = rw (even-hex_encode bytes, decode_pairs-hex_encode bytes h) refl
