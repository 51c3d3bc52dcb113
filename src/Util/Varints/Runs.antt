-- ===== src/Util/Varints/Runs.antt =====
-- The round trips of varints at concrete numbers.
use whooshy.Common.{ℕ, ◌≡◌, refl, List, [], ◌∷◌, ◌++◌}
use whooshy.Common.Result.{ok}
use whooshy.Util.Varints.{
  encode, negsuc, signed_varint, decode_signed_varint, varint_to_int, read_varint, varint_loop,
}
use whooshy.Util.Varints.RoundTrip.{
  read_varint-encode, varint_to_int-encode, decode_signed_varint-signed_varint,
}

abbrev three_hundred : List ℕ
three_hundred = 0xAC ∷ 0x02 ∷ []

read_varint-encode_example :
    (bs : List ℕ) × (encode 300 ≡ ok bs)
    × (read_varint (bs ++ three_hundred) ≡ ok (300, three_hundred))
read_varint-encode_example = read_varint-encode 300 three_hundred

varint_to_int-encode_example : (bs : List ℕ) × (encode 300 ≡ ok bs) × (varint_to_int bs ≡ ok 300)
varint_to_int-encode_example = varint_to_int-encode 300

decode_signed_varint-signed_varint_example :
    (bs : List ℕ) × (n : ℕ) × (signed_varint (negsuc 299) ≡ ok bs)
    × (read_varint (bs ++ three_hundred) ≡ ok (n, three_hundred))
    × (decode_signed_varint n ≡ negsuc 299)
decode_signed_varint-signed_varint_example =
    decode_signed_varint-signed_varint (negsuc 299) three_hundred

-- The bytes themselves.
encode-three_hundred : encode 300 ≡ ok three_hundred
unfolding encode varint_loop
encode-three_hundred = refl
