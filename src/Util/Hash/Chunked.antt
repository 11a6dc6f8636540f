-- ===== src/Util/Hash/Chunked.antt =====
-- SHA-256 of a file, which src/util/Hash.cpp reads in chunks, and of its bytes as a whole.
use code_tribunal.Prelude.{
  ℕ, zero, suc, ◌≤◌, ◌≡◌, sym, ap, ◌∙◌, inl, inr, Option-cases, Option, none, some, List, [], ◌∷◌,
  ◌++◌, Text, take, drop, length, arith,
}
use mathlib.Core.Path.{fun_ext}
use code_tribunal.Prelude.Search.{take-drop, length-drop}
use code_tribunal.Util.Hash.{Openssl, finish, with_context, sha256, update_chunks, sha256_file}

-- A second update, if the first succeeded.
abbrev pub then_update : {C : Type 0} → Openssl C → Option C → List ℕ → Option C
then_update openssl none bytes = none
then_update openssl (some c) bytes = openssl.digest_update c bytes

module _ {C : Type 0} (openssl : Openssl C)
    (no_bytes : (c : C) → openssl.digest_update c [] ≡ some c)
    (two_parts : (c : C) (a b : List ℕ)
      → openssl.digest_update c (a ++ b) ≡ then_update openssl (openssl.digest_update c a) b) where
  update_chunks-digest_update :
      (fuel : ℕ) (c : C) (bytes : List ℕ)
      → length bytes ≤ fuel
      → update_chunks openssl fuel c bytes ≡ openssl.digest_update c bytes
  unfolding update_chunks
  update_chunks-digest_update zero c [] h = sym (no_bytes c)
  update_chunks-digest_update zero c (b ∷ bytes) h = absurd (omega arith)
  update_chunks-digest_update (suc fuel) c [] h = sym (no_bytes c)
  update_chunks-digest_update (suc fuel) c (b ∷ bytes) h =
      let first = take 4096 (b ∷ bytes) in
      let rest = drop 4096 (b ∷ bytes) in
      let parts =
        ap (openssl.digest_update c) (sym (take-drop 4096 (b ∷ bytes))) ∙ two_parts c first rest in
      elim (Option-cases (openssl.digest_update c first)) [
        | inl failed ↦
            rw (update_chunks, failed) (sym (parts ∙ ap (λ o. then_update openssl o rest) failed))
        | inr (c', done) ↦
            let next =
              update_chunks-digest_update fuel c' rest (omega (arith, h, length-drop 4095 bytes)) in
            rw (update_chunks, done)
              (next ∙ sym (parts ∙ ap (λ o. then_update openssl o rest) done))
      ]

  -- If an update of a context with no bytes changes nothing and one with two parts is one update after the
  -- other, then the hash of a file that can be opened is the hash of its bytes as a whole, of any length,
  -- and the same exception is thrown where OpenSSL fails.
  pub sha256_file-sha256 :
      (path : Text) (bytes : List ℕ) → sha256_file openssl path (some bytes) ≡ sha256 openssl bytes
  unfolding sha256_file sha256
  sha256_file-sha256 path bytes = ap (with_context openssl) (
      fun_ext (λ c.
        ap (finish openssl) (update_chunks-digest_update (length bytes) c bytes (omega arith))))
