-- ===== src/Quic/Stream/Segments/Coverage.antt =====
-- core/quic_stream.go: the bytes that the out-of-order segments have.
use alos_http.Prelude.{
  ℕ, ◌+◌, ◌-◌, ◌≤◌, ◌<◌, ◌≡◌, refl, ltb, leb, Bool, false, ◌&&◌, ◌||◌, List, [], ◌∷◌, ◌++◌, length,
  take, drop, Option, none, some, arith, Bool-cases, inl, inr, length-append,
}
use alos_http.Quic.Stream.{Segment, seg_end}
use alos_http.Quic.Stream.Segments.{held, place_piece, fill_gap, fill}
use alos_http.Quic.Stream.Segments.Order.{
  Ordered, Ordered-held, Ordered-EndsAfter, EndsAfter, length-piece,
}
use alos_http.Quic.Stream.Segments.Stored.{stored, stored-nil, stored-cons}

-- Whether an offset lies in a range.
abbrev pub between : ℕ → ℕ → ℕ → Bool
between lo x hi = leb lo x && ltb x hi

-- Whether one of the segments has the byte at an offset.
unfoldable pub has_byte : ℕ → List Segment → Bool
has_byte x [] = false
has_byte x (s ∷ ss) = between s.off x (seg_end s) || has_byte x ss

pub has_byte-append :
    (x : ℕ) (ss ts : List Segment) → has_byte x (ss ++ ts) ≡ (has_byte x ss || has_byte x ts)
unfolding has_byte
has_byte-append x [] ts = refl
has_byte-append x (s ∷ ss) ts = ground (arith, has_byte-append x ss ts)

fill_gap-has_byte :
    (x off pos gap_end : ℕ) (payload : List ℕ) (prev : Option Segment)
    → off ≤ pos
    → gap_end ≤ off + length payload
    → has_byte x (fill_gap off payload pos gap_end prev)
      ≡ (has_byte x (held prev) || between pos x gap_end)
unfolding fill_gap place_piece held has_byte
fill_gap-has_byte x off pos gap_end payload none o g =
    ground (arith, length-piece off pos gap_end payload o g)
fill_gap-has_byte x off pos gap_end payload (some p) o g =
    let piece = take (gap_end - pos) (drop (pos - off) payload) in
    ground (arith, length-piece off pos gap_end payload o g, length-append p.payload piece)

pub fill-has_byte :
    (x off lo pos hi : ℕ) (payload : List ℕ) (prev : Option Segment) (ss : List Segment)
    → off ≤ pos
    → pos < off + length payload
    → Ordered lo hi (held prev ++ ss)
    → EndsAfter pos ss
    → has_byte x (fill off payload pos prev ss)
      ≡ (has_byte x (held prev) || has_byte x ss || between pos x (off + length payload))
unfolding fill has_byte held Ordered EndsAfter
fill-has_byte x off lo pos hi payload prev [] o lt w a =
    ground (arith, fill_gap-has_byte x off pos (off + length payload) payload prev o)
fill-has_byte x off lo pos hi payload prev (s ∷ ss) o lt w a =
    let end = off + length payload in
    let (before, from) = Ordered-held lo hi prev s ss w in
    let later = λ (short : seg_end s < end).
      fill-has_byte x off s.off (seg_end s) hi payload (some s) ss (omega arith) short from
        (Ordered-EndsAfter (seg_end s) hi ss from.2) in
    let last = fill_gap off payload pos end prev in
    let here = fill_gap off payload pos s.off prev in
    let rest = fill off payload (seg_end s) (some s) ss in
    ground (
      arith,
      later,
      fill_gap-has_byte x off pos end payload prev o,
      fill_gap-has_byte x off pos s.off payload prev o,
      has_byte-append x last (s ∷ ss),
      has_byte-append x here (s ∷ ss),
      has_byte-append x here rest,
    )

-- The bytes of a stored frame come to those that the segments had.
pub stored-has_byte :
    (x off lo hi : ℕ) (payload : List ℕ) (prev : Option Segment) (ss : List Segment)
    → 0 < length payload
    → Ordered lo hi (held prev ++ ss)
    → has_byte x (stored off payload prev ss)
      ≡ (has_byte x (held prev ++ ss) || between off x (off + length payload))
stored-has_byte x off lo hi payload prev [] some_bytes w =
    let all =
      fill-has_byte x off lo off hi payload prev [] (omega arith) (omega arith) w
        (unfold EndsAfter in _) in
    rw (stored-nil off payload prev)
      (unfold has_byte in ground (arith, all, has_byte-append x (held prev) []))
stored-has_byte x off lo hi payload prev (s ∷ ss) some_bytes w =
    let (before, from) = Ordered-held lo hi prev s ss w in
    let later =
      stored-has_byte x off s.off hi payload (some s) ss some_bytes (unfold held in from) in
    let past : has_byte x (held (some s) ++ ss) ≡ has_byte x (s ∷ ss) = unfold held in refl in
    let whole = has_byte-append x (held prev) (s ∷ ss) in
    rw (stored-cons off payload prev s ss) (elim (Bool-cases (leb (seg_end s) off)) [
      | inl e ↦ rw e (
          ground (
            arith,
            later,
            past,
            whole,
            has_byte-append x (held prev) (stored off payload (some s) ss),
          ))
      | inr e ↦ rw e (
          ground (
            arith,
            whole,
            fill-has_byte x off lo off hi payload prev (s ∷ ss) (omega arith) (omega arith) w
                (unfold EndsAfter in ground (arith, e)),
          ))
    ])
