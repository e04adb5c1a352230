-- ===== src/Crypto/Hex.antt =====
-- Hexadecimal text reads back as the array that it was written from.
use shardmatrix.Prelude.{
  ℕ, suc, zero, ◌*◌, ◌+◌, ◌/◌, ◌%◌, ◌^◌, ◌<◌, ◌≡◌, refl, some, none, List, [], ◌∷◌, All, ok, err,
  arith, length,
}
use shardmatrix.Prelude.Bytes.{le_bytes, of_le_bytes-le_bytes, length-le_bytes}
use shardmatrix.Crypto.{
  hex_digit, hex_value, encode_hex, decode_hex, array_from_hex, array_to_hex, bad_length,
}

hex_value-hex_digit : (d : ℕ) → d < 16 → hex_value (hex_digit d) ≡ some d
unfolding hex_value hex_digit
hex_value-hex_digit d h = ground arith

decode_hex-encode_hex : (bs : List ℕ) → All (λ b. b < 256) bs → decode_hex (encode_hex bs) ≡ some bs
unfolding decode_hex encode_hex
decode_hex-encode_hex [] h = refl
decode_hex-encode_hex (b ∷ bs) h =
    let whole : b / 16 * 16 + b % 16 ≡ b = omega arith in
    rw
      (
        hex_value-hex_digit (b / 16) (omega arith),
        hex_value-hex_digit (b % 16) (omega arith),
        decode_hex-encode_hex bs h.1,
      )
      (cc whole)

All-le_bytes : (n x : ℕ) → All (λ b. b < 256) (le_bytes n x)
unfolding le_bytes
All-le_bytes zero x = tt
All-le_bytes (suc n) x = (omega arith, All-le_bytes n (x / 256))

-- Reading the text that an address, hash or signature is printed as gives it back, at every size
-- that it fits; read at another size the text is refused for its length.
array_from_hex-array_to_hex :
    (size other a : ℕ)
    → a < 256 ^ size
    → (array_from_hex size (array_to_hex size a) ≡ ok a)
      × ((size ≡ other → ⊥) → array_from_hex other (array_to_hex size a) ≡ err bad_length)
unfolding array_from_hex array_to_hex
array_from_hex-array_to_hex size other a h =
    rw (decode_hex-encode_hex (le_bytes size a) (All-le_bytes size a)) (
      ground (arith, length-le_bytes size a, of_le_bytes-le_bytes size a h),
      λ ne. ground (arith, length-le_bytes size a),
    )

decode_hex-odd : (text : List ℕ) → length text % 2 ≡ 1 → decode_hex text ≡ none
unfolding decode_hex
decode_hex-odd [] h = absurd (omega arith)
decode_hex-odd (c ∷ []) h = refl
decode_hex-odd (c ∷ d ∷ cs) h = ground (arith, decode_hex-odd cs (omega arith))
