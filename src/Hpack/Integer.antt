-- ===== src/Hpack/Integer.antt =====
-- core/hpack.go: integers with a prefix of some bits, `EncodeInt` and `HpackDecodeInt`.
pub mod RoundTrip
pub mod Bounds
use alos_http.Prelude.{
  ℕ, zero, suc, ◌+◌, ◌-◌, ◌*◌, ◌/◌, ◌%◌, ◌^◌, bit_and, bit_or, ltb, leb, ◌==◌, Bool, true, false,
  ◌||◌, List, [], ◌∷◌, ◌++◌, length, if◌then◌else◌, u64_mod,
}

-- `(1 << prefixBits) - 1`.
abbrev pub max_first : ℕ → ℕ
max_first prefix_bits = 2 ^ prefix_bits - 1

-- The loop of `EncodeInt`, a byte for every seven bits. A uint64 has at most ten of them.
-- `byte(val & 0x7f)` is the mask on the low byte.
unfoldable pub encode_more : ℕ → ℕ → List ℕ
encode_more zero val = []
encode_more (suc fuel) val =
    let later = encode_more fuel (val / 128) in
    if leb 128 val then bit_or (bit_and (val % 256) 0x7f) 0x80 ∷ later else val % 256 ∷ []

unfoldable pub encode_int : List ℕ → ℕ → ℕ → ℕ → List ℕ
encode_int buf prefix prefix_bits val =
    if ltb val (max_first prefix_bits)
    then buf ++ (bit_or prefix (val % 256) ∷ [])
    else buf
      ++ (bit_or prefix (max_first prefix_bits % 256)
          ∷ encode_more 10 (val - max_first prefix_bits))

-- The loop of `HpackDecodeInt`: the value so far, its shift and the bytes read. `(0, 0)` is failure.
unfoldable pub decode_more : List ℕ → ℕ → ℕ → ℕ → ℕ × ℕ
decode_more [] val m i = (0, 0)
decode_more (b ∷ data_bytes) val m i =
    let val' = (val + bit_and b 0x7f * 2 ^ m) % u64_mod in
    let later = decode_more data_bytes val' (m + 7) (i + 1) in
    if ltb 63 m || ltb ((u64_mod - 1 - val) / 2 ^ m) (bit_and b 0x7f)
    then (0, 0)
    else if bit_and b 0x80 == 0
    then (val', i + 1)
    else later

unfoldable pub hpack_decode_int : List ℕ → ℕ → ℕ × ℕ
hpack_decode_int [] prefix_bits = (0, 0)
hpack_decode_int (b ∷ data_bytes) prefix_bits =
    let val = bit_and b (max_first prefix_bits) in
    if prefix_bits == 0 || ltb 8 prefix_bits
    then (0, 0)
    else if ltb val (max_first prefix_bits)
    then (val, 1)
    else decode_more data_bytes val 0 1
