-- ===== src/Quic/Varint.antt =====
-- core/quic_varint.go: the variable-length integers of QUIC, RFC 9000 section 16.
pub mod Marks
pub mod RoundTrip
use alos_http.Prelude.{
  ℕ, zero, suc, ◌+◌, ◌*◌, ◌/◌, ◌%◌, ◌^◌, ◌<◌, bit_and, bit_or, List, [], ◌∷◌, ◌++◌, Option, none,
  some, ltb, ◌==◌, if◌then◌else◌, length, drop,
}

-- The largest value is 2^62 - 1.
abbrev pub varint_limit : ℕ
varint_limit = 4611686018427387904

-- The byte of `v` that is `k` bytes above the lowest: `byte(v >> 8k)`.
abbrev pub byte_at : ℕ → ℕ → ℕ
byte_at k v = v / 256 ^ k % 256

-- The bytes that `quicAppendVarint` appends. The marks 0x40.., 0x80.. and 0xc0.. stand in the top
-- byte alone, so the disjunction is written there.
unfoldable pub varint : ℕ → List ℕ
varint v =
    if ltb v 64
    then byte_at 0 v ∷ []
    else if ltb v 16384
    then bit_or 0x40 (byte_at 1 v) ∷ byte_at 0 v ∷ []
    else if ltb v 1073741824
    then bit_or 0x80 (byte_at 3 v) ∷ byte_at 2 v ∷ byte_at 1 v ∷ byte_at 0 v ∷ []
    else bit_or 0xc0 (byte_at 7 v)
      ∷ byte_at 6 v
      ∷ byte_at 5 v
      ∷ byte_at 4 v
      ∷ byte_at 3 v
      ∷ byte_at 2 v
      ∷ byte_at 1 v
      ∷ byte_at 0 v
      ∷ []

-- `quicAppendVarint`.
unfoldable pub append_varint : List ℕ → ℕ → List ℕ
append_varint dst v = dst ++ varint v

-- `bs` written over the front of `dst`; the write panics, `none`, where `dst` is too short.
abbrev pub write_front : List ℕ → List ℕ → Option (List ℕ × ℕ)
write_front dst bs =
    if ltb (length dst) (length bs) then none else some (bs ++ drop (length bs) dst, length bs)

-- The bytes of a word of `k` bytes, the highest first, as `binary.BigEndian` puts them.
abbrev pub big_endian : ℕ → ℕ → List ℕ
big_endian zero w = []
big_endian (suc k) w = byte_at k w ∷ big_endian k w

-- `quicPutVarint` writes into a buffer, and returns the count of bytes written.
unfoldable pub put_varint : List ℕ → ℕ → Option (List ℕ × ℕ)
put_varint dst v =
    if ltb v 64
    then write_front dst (byte_at 0 v ∷ [])
    else if ltb v 16384
    then write_front dst (big_endian 2 (bit_or 0x4000 v % 2 ^ 16))
    else if ltb v 1073741824
    then write_front dst (big_endian 4 (bit_or 0x80000000 v % 2 ^ 32))
    else write_front dst (big_endian 8 (bit_or 0xc000000000000000 v))

-- The value and the number of bytes read, which is 0 where the input is cut short. The shifted
-- bytes have no bit in common, so their disjunction is their sum.
parse_two : ℕ → List ℕ → ℕ × ℕ
parse_two b0 (b1 ∷ _) = (bit_and b0 0x3f * 256 + b1, 2)
parse_two b0 _ = (0, 0)

parse_four : ℕ → List ℕ → ℕ × ℕ
parse_four b0 (b1 ∷ b2 ∷ b3 ∷ _) = (bit_and b0 0x3f * 16777216 + b1 * 65536 + b2 * 256 + b3, 4)
parse_four b0 _ = (0, 0)

-- `v & 0x3fffffffffffffff` keeps 62 bits.
parse_eight : ℕ → List ℕ → ℕ × ℕ
parse_eight b0 (b1 ∷ b2 ∷ b3 ∷ b4 ∷ b5 ∷ b6 ∷ b7 ∷ _) = (
  (b0 * 256 ^ 7
        + b1 * 256 ^ 6
        + b2 * 256 ^ 5
        + b3 * 256 ^ 4
        + b4 * 256 ^ 3
        + b5 * 256 ^ 2
        + b6 * 256
        + b7)
      % varint_limit,
  8,
)
parse_eight b0 _ = (0, 0)

-- `quicParseVarint`. `data[0] >> 6` is a quotient by 64.
unfoldable pub parse_varint : List ℕ → ℕ × ℕ
unfolding parse_two parse_four parse_eight
parse_varint [] = (0, 0)
parse_varint (b0 ∷ rest) =
    let mark = b0 / 64 in
    if mark == 0
    then (bit_and b0 0x3f, 1)
    else if mark == 1
    then parse_two b0 rest
    else if mark == 2
    then parse_four b0 rest
    else parse_eight b0 rest
