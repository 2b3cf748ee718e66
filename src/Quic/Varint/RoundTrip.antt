-- ===== src/Quic/Varint/RoundTrip.antt =====
-- core/quic_varint.go: what the writers write, the parser reads.
use alos_http.Prelude.{
  ℕ, zero, suc, ◌+◌, ◌-◌, ◌*◌, ◌%◌, ◌^◌, ◌≤◌, ◌<◌, ◌≡◌, refl, List, [], ◌∷◌, ◌++◌, some, arith,
  length, drop, All, IsByte, IsU64, or_40, or_80, and_3f, drop-append_left, append_assoc,
  length-append, append-nil,
}
use alos_http.Quic.Varint.Marks.{or_c0_mark, or_4000, or_80000000, or_c000000000000000}
use alos_http.Quic.Varint.{varint, append_varint, put_varint, parse_varint, varint_limit, byte_at}

-- The parser reads back every uint64, less its two top bits, from what the writer appended, and
-- counts the bytes written.
pub parse-varint :
    (v : ℕ) (rest : List ℕ)
    → IsU64 v
    → parse_varint (varint v ++ rest) ≡ (v % varint_limit, length (varint v))
unfolding parse_varint varint
parse-varint v rest h = ground (
  arith,
  or_40 (byte_at 1 v),
  or_80 (byte_at 3 v),
  or_c0_mark (byte_at 7 v),
  and_3f (byte_at 0 v),
  and_3f (64 + byte_at 1 v),
  and_3f (128 + byte_at 3 v),
)

-- On a value below 2^62 the round trip is exact, whatever stands before and behind the number.
pub parse-append_varint :
    (dst : List ℕ) (v : ℕ) (rest : List ℕ)
    → v < varint_limit
    → parse_varint (drop (length dst) (append_varint dst v ++ rest)) ≡ (v, length (varint v))
unfolding append_varint
parse-append_varint dst v rest h =
    rw (append_assoc, drop-append_left dst (varint v ++ rest)) (ground (arith, parse-varint v rest))

pub varint-IsByte : (v : ℕ) → All IsByte (varint v)
unfolding varint
varint-IsByte v = ground (arith, or_40 (byte_at 1 v), or_80 (byte_at 3 v), or_c0_mark (byte_at 7 v))

-- An encoding has 1 to 8 bytes, and a value below 2^62 fits the bits that these leave beside the
-- two that give the length.
pub length-varint :
    (v : ℕ)
    → (1 ≤ length (varint v))
      × (length (varint v) ≤ 8)
      × (v < varint_limit → v < 2 ^ (8 * length (varint v) - 2))
unfolding varint
length-varint v = ground arith

-- The writer of whole words into a buffer that is long enough puts the bytes that the other writer
-- appends for a uint64 at its front, keeps the rest, and answers their number.
pub put-varint :
    (dst : List ℕ) (v : ℕ)
    → IsU64 v
    → length (varint v) ≤ length dst
    → put_varint dst v ≡ some (varint v ++ drop (length (varint v)) dst, length (varint v))
unfolding put_varint varint
put-varint dst v u h = ground (
  arith,
  or_4000 v,
  or_80000000 v,
  or_c000000000000000 v,
  or_40 (byte_at 1 v),
  or_80 (byte_at 3 v),
  or_c0_mark (byte_at 7 v),
)

-- A successful parse has read 1 to 8 bytes of the input, its value fits in 62 bits, and bytes
-- added behind the input change nothing.
pub parse_varint_takes :
    (src more : List ℕ) (v n : ℕ)
    → All IsByte src
    → parse_varint src ≡ (v, n)
    → 0 < n
    → (n ≤ length src) × (n ≤ 8) × (v < varint_limit) × (parse_varint (src ++ more) ≡ (v, n))
unfolding parse_varint
parse_varint_takes [] more v n b e h = ground arith
parse_varint_takes (b0 ∷ src) more v n b e h = ground (arith, and_3f b0)

-- The count is 0 exactly on failure, and then the value is 0 too.
parse_varint_zero : (src : List ℕ) (u : ℕ) → parse_varint src ≡ (u, 0) → u ≡ 0
unfolding parse_varint
parse_varint_zero [] u e = ground arith
parse_varint_zero (b0 ∷ src) u e = ground arith

-- Bytes behind a number do not matter, for any entries.
parse_varint_extends :
    (src more : List ℕ) (u n : ℕ)
    → parse_varint src ≡ (u, n)
    → 0 < n
    → (n ≤ length src) × (parse_varint (src ++ more) ≡ (u, n))
unfolding parse_varint
parse_varint_extends [] more u n e h = ground arith
parse_varint_extends (b0 ∷ src) more u n e h = ground arith

-- Any proper prefix of a uint64's encoding is refused.
pub parse_varint_truncated :
    (v x : ℕ) (front back : List ℕ)
    → IsU64 v
    → varint v ≡ front ++ (x ∷ back)
    → parse_varint front ≡ (0, 0)
parse_varint_truncated v x front back h e = cut (parse_varint front).0 (parse_varint front).1 refl
  where
    whole : parse_varint (front ++ (x ∷ back)) ≡ (v % varint_limit, length (front ++ (x ∷ back)))
    whole = rw (append-nil, e) at (parse-varint v [] h)

    cut : (u n : ℕ) → parse_varint front ≡ (u, n) → parse_varint front ≡ (0, 0)
    cut u zero p = rw (parse_varint_zero front u p) at p
    cut u (suc n) p = ground (
      arith,
      whole,
      parse_varint_extends front (x ∷ back) u (suc n) p (omega arith),
      length-append front (x ∷ back),
    )
