-- ===== src/Util/Hash.antt =====
-- Hashes and hexadecimal text: src/util/Hash.h and Hash.cpp. OpenSSL, which computes SHA-256, is
-- the record `Openssl` over a type of contexts.
-- A `uint8_t` is a number below 256 and a `uint32_t` one below 2 ^ 32.
pub mod Hex
pub mod Chunked
use Prim.Native.Nat.{bit_xor}
use code_tribunal.Prelude.{
  ℕ, zero, suc, ◌+◌, ◌-◌, ◌*◌, ◌/◌, ◌%◌, ◌^◌, Bool, true, false, ltb, ◌==◌, Option, none, some,
  List, [], ◌∷◌, ◌++◌, Text, text, take, drop, length, if◌then◌else◌,
}
use code_tribunal.Prelude.Int.{ℤ, pos, negsuc}
use code_tribunal.Prelude.Stoi.{stoi}

-- The loop from a given hash on.
unfoldable pub fnv1a_from : ℕ → List ℕ → ℕ
fnv1a_from hash [] = hash
fnv1a_from hash (b ∷ bytes) = fnv1a_from (bit_xor hash b * 16777619 % 2 ^ 32) bytes

unfoldable pub fnv1a_uint32 : List ℕ → ℕ
unfolding fnv1a_from
fnv1a_uint32 bytes = fnv1a_from 2166136261 bytes

-- A digit of `std::hex`.
unfoldable pub hex_digit : ℕ → ℕ
hex_digit d = if ltb d 10 then d + b'0' else d - 10 + b'a'

-- The last `width` hexadecimal digits of a number, before `acc`.
unfoldable pub hex_padded : ℕ → ℕ → Text → Text
unfolding hex_digit
hex_padded zero n acc = acc
hex_padded (suc width) n acc = hex_padded width (n / 16) (hex_digit (n % 16) ∷ acc)

-- `setw(8)` with fill `0`: a 32-bit number has eight digits at most.
unfoldable pub fnv1a : List ℕ → Text
unfolding fnv1a_uint32 hex_padded
fnv1a bytes = hex_padded 8 (fnv1a_uint32 bytes) []

unfoldable pub hex_encode : List ℕ → Text
unfolding hex_digit
hex_encode [] = []
hex_encode (b ∷ bytes) = hex_digit (b / 16) ∷ hex_digit (b % 16) ∷ hex_encode bytes

-- The cast of an `int` to `uint8_t`.
unfoldable pub to_byte : ℤ → ℕ
to_byte (pos n) = n % 256
to_byte (negsuc n) = 255 - n % 256

unfoldable pub cons_decoded : Option ℤ → Option (List ℕ) → Option (List ℕ)
unfolding to_byte
cons_decoded none rest = none
cons_decoded (some v) none = none
cons_decoded (some v) (some bytes) = some (to_byte v ∷ bytes)

-- `none` if `std::stoi` throws at some pair. The last clause is not reached at even lengths.
unfoldable pub decode_pairs : Text → Option (List ℕ)
unfolding cons_decoded
decode_pairs [] = some []
decode_pairs (c ∷ d ∷ hex) = cons_decoded (stoi 16 (c ∷ d ∷ [])) (decode_pairs hex)
decode_pairs (c ∷ []) = some []

abbrev or_empty : Option (List ℕ) → List ℕ
or_empty none = []
or_empty (some bytes) = bytes

unfoldable pub hex_decode : Text → List ℕ
unfolding decode_pairs
hex_decode hex = if length hex % 2 == 0 then or_empty (decode_pairs hex) else []

-- The calls of OpenSSL for SHA-256; `none` is a null pointer or a return value other than 1.
pub record Openssl (C : Type 0) : Type 0 where
  pub new_context : Option C
  pub digest_init : C → Option C
  pub digest_update : C → List ℕ → Option C
  pub digest_final : C → Option (List ℕ)

-- A digest in hexadecimal digits, or the message of the exception.
pub data Digest : Type 0 where
  digest : Text → Digest
  thrown : Text → Digest

module _ {C : Type 0} (openssl : Openssl C) where
  -- The end of both functions; the loop over the bytes of the digest is that of `hex_encode`.
  unfoldable pub finish : Option C → Digest
  unfolding hex_encode
  finish none = thrown (text "EVP_DigestUpdate failed")
  finish (some c) = elim (openssl.digest_final c) [
    | none ↦ thrown (text "EVP_DigestFinal_ex failed")
    | some hash ↦ digest (hex_encode hash)
  ]

  -- The start of both functions, with what they do with the context then.
  unfoldable pub with_context : (C → Digest) → Digest
  with_context rest = elim openssl.new_context [
    | none ↦ thrown (text "Failed to create EVP_MD_CTX")
    | some c ↦ elim (openssl.digest_init c) [
      | none ↦ thrown (text "EVP_DigestInit_ex failed")
      | some c' ↦ rest c'
    ]
  ]

  unfoldable pub sha256 : List ℕ → Digest
  unfolding with_context finish
  sha256 bytes = with_context (λ c. finish (openssl.digest_update c bytes))

  -- The loop over chunks of 4 KB, on the bytes that are left. A call of `read` takes at least one byte
  -- while there is one, so that as much fuel as there are bytes is enough.
  unfoldable pub update_chunks : ℕ → C → List ℕ → Option C
  update_chunks zero c bytes = some c
  update_chunks (suc fuel) c [] = some c
  update_chunks (suc fuel) c (b ∷ bytes) = elim (openssl.digest_update c (take 4096 (b ∷ bytes))) [
    | none ↦ none
    | some c' ↦ update_chunks fuel c' (drop 4096 (b ∷ bytes))
  ]

  -- `none` is a file that cannot be opened.
  unfoldable pub sha256_file : Text → Option (List ℕ) → Digest
  unfolding with_context finish update_chunks
  sha256_file path none = thrown (text "Cannot open file: " ++ path)
  sha256_file path (some bytes) = with_context (λ c. finish (update_chunks (length bytes) c bytes))
