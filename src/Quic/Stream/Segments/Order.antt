-- ===== src/Quic/Stream/Segments/Order.antt =====
-- core/quic_stream.go: the out-of-order segments stay in order, apart and not empty, and the bytes
-- counted as new are the bytes that they grow by.
use alos_http.Prelude.{
  ℕ, ◌+◌, ◌-◌, ◌≤◌, ◌<◌, ◌≡◌, ltb, leb, Bool, List, [], ◌∷◌, ◌++◌, length, take, drop, Option, none,
  some, arith, Bool-cases, inl, inr, ltb→lt, length-append, length-take, length-drop,
}
use alos_http.Quic.Stream.{Segment, seg_end}
use alos_http.Quic.Stream.Segments.{held, count_gap, ooo_new_bytes, place_piece, fill_gap, fill}

-- Segments in order between two offsets, none of them empty and no two sharing a byte.
unfoldable pub Ordered : ℕ → ℕ → List Segment → Type 0
Ordered lo hi [] = lo ≤ hi
Ordered lo hi (s ∷ ss) = (lo ≤ s.off) × (0 < length s.payload) × Ordered (seg_end s) hi ss

-- The number of bytes in segments.
unfoldable pub total : List Segment → ℕ
total [] = 0
total (s ∷ ss) = length s.payload + total ss

pub Ordered-le : (lo hi : ℕ) (ss : List Segment) → Ordered lo hi ss → lo ≤ hi
unfolding Ordered
Ordered-le lo hi [] h = h
Ordered-le lo hi (s ∷ ss) h = omega (arith, Ordered-le (seg_end s) hi ss h.2)

pub Ordered-raise :
    (lo hi hi' : ℕ) (ss : List Segment) → Ordered lo hi ss → hi ≤ hi' → Ordered lo hi' ss
unfolding Ordered
Ordered-raise lo hi hi' [] h k = omega arith
Ordered-raise lo hi hi' (s ∷ ss) h k = (h.0, h.1, Ordered-raise (seg_end s) hi hi' ss h.2 k)

pub Ordered-lower :
    (lo lo' hi : ℕ) (ss : List Segment) → Ordered lo hi ss → lo' ≤ lo → Ordered lo' hi ss
unfolding Ordered
Ordered-lower lo lo' hi [] h k = omega arith
Ordered-lower lo lo' hi (s ∷ ss) h k = (omega arith, h.1, h.2)

pub Ordered-append :
    (lo mid hi : ℕ) (ss ts : List Segment)
    → Ordered lo mid ss
    → Ordered mid hi ts
    → Ordered lo hi (ss ++ ts)
unfolding Ordered
Ordered-append lo mid hi [] ts h k = Ordered-lower mid lo hi ts k h
Ordered-append lo mid hi (s ∷ ss) ts h k = (h.0, h.1, Ordered-append (seg_end s) mid hi ss ts h.2 k)

pub total-append : (ss ts : List Segment) → total (ss ++ ts) ≡ total ss + total ts
unfolding total
total-append [] ts = omega arith
total-append (s ∷ ss) ts = omega (arith, total-append ss ts)

-- The piece of a frame that fills a gap is as long as the gap.
pub length-piece :
    (off pos gap_end : ℕ) (payload : List ℕ)
    → off ≤ pos
    → gap_end ≤ off + length payload
    → length (take (gap_end - pos) (drop (pos - off) payload)) ≡ gap_end - pos
length-piece off pos gap_end payload h k =
    omega (
      arith,
      length-take (gap_end - pos) (drop (pos - off) payload),
      length-drop (pos - off) payload,
    )

fill_gap-Ordered :
    (off lo pos gap_end : ℕ) (payload : List ℕ) (prev : Option Segment)
    → off ≤ pos
    → gap_end ≤ off + length payload
    → pos < gap_end
    → Ordered lo pos (held prev)
    → Ordered lo gap_end (fill_gap off payload pos gap_end prev)
unfolding fill_gap place_piece held Ordered
fill_gap-Ordered off lo pos gap_end payload none o g lt h =
    ground (arith, length-piece off pos gap_end payload o g)
fill_gap-Ordered off lo pos gap_end payload (some p) o g lt h =
    let piece = take (gap_end - pos) (drop (pos - off) payload) in
    ground (arith, length-piece off pos gap_end payload o g, length-append p.payload piece)

fill_gap-total :
    (off pos gap_end : ℕ) (payload : List ℕ) (prev : Option Segment)
    → off ≤ pos
    → gap_end ≤ off + length payload
    → total (fill_gap off payload pos gap_end prev) ≡ total (held prev) + (gap_end - pos)
unfolding fill_gap place_piece held total
fill_gap-total off pos gap_end payload none o g =
    ground (arith, length-piece off pos gap_end payload o g)
fill_gap-total off pos gap_end payload (some p) o g =
    let piece = take (gap_end - pos) (drop (pos - off) payload) in
    ground (arith, length-piece off pos gap_end payload o g, length-append p.payload piece)

-- The first segment of a list ends beyond an offset.
unfoldable pub EndsAfter : ℕ → List Segment → Type 0
EndsAfter pos [] = Unit
EndsAfter pos (s ∷ ss) = pos < seg_end s

pub Ordered-EndsAfter : (lo hi : ℕ) (ss : List Segment) → Ordered lo hi ss → EndsAfter lo ss
unfolding Ordered EndsAfter
Ordered-EndsAfter lo hi [] h = _
Ordered-EndsAfter lo hi (s ∷ ss) h = omega arith

-- What is in front of a segment, and what is from it on.
pub Ordered-held :
    (lo hi : ℕ) (prev : Option Segment) (s : Segment) (ss : List Segment)
    → Ordered lo hi (held prev ++ (s ∷ ss))
    → Ordered lo s.off (held prev) × Ordered s.off hi (s ∷ ss)
unfolding Ordered held
Ordered-held lo hi none s ss h = (h.0, (omega arith, h.1, h.2))
Ordered-held lo hi (some p) s ss h = ((h.0, h.1, h.2.0), (omega arith, h.2.1, h.2.2))

fill_gap-Ordered_to :
    (off lo pos gap_end : ℕ) (payload : List ℕ) (prev : Option Segment)
    → off ≤ pos
    → gap_end ≤ off + length payload
    → Ordered lo pos (held prev)
    → Ordered lo gap_end (held prev)
    → Ordered lo gap_end (fill_gap off payload pos gap_end prev)
unfolding fill_gap
fill_gap-Ordered_to off lo pos gap_end payload prev o g h k =
    ground (arith, fill_gap-Ordered off lo pos gap_end payload prev o g)

pub fill-Ordered :
    (off lo pos hi m : ℕ) (payload : List ℕ) (prev : Option Segment) (ss : List Segment)
    → off ≤ pos
    → pos < off + length payload
    → Ordered lo pos (held prev)
    → Ordered lo hi (held prev ++ ss)
    → EndsAfter pos ss
    → hi ≤ m
    → off + length payload ≤ m
    → Ordered lo m (fill off payload pos prev ss)
unfolding fill held Ordered EndsAfter
fill-Ordered off lo pos hi m payload prev [] o lt h w a hm em =
    let end = off + length payload in
    Ordered-raise lo end m (fill_gap off payload pos end prev)
      (fill_gap-Ordered off lo pos end payload prev o (omega arith) lt h) em
fill-Ordered off lo pos hi m payload prev (s ∷ ss) o lt h w a hm em =
    let end = off + length payload in
    let (before, from) = Ordered-held lo hi prev s ss w in
    let raised : Ordered (seg_end s) m ss = Ordered-raise (seg_end s) hi m ss from.2 hm in
    let later = λ (short : seg_end s < end).
      fill-Ordered off s.off (seg_end s) hi m payload (some s) ss (omega arith) short
        (omega arith, from.1, omega arith) from (Ordered-EndsAfter (seg_end s) hi ss from.2) hm
        em in
    elim (Bool-cases (leb end s.off)) [
      | inl e ↦ rw e (
          Ordered-append lo end m (fill_gap off payload pos end prev) (s ∷ ss)
            (fill_gap-Ordered off lo pos end payload prev o (omega arith) lt h)
            (ground (arith, e), from.1, raised))
      | inr e ↦ rw e (
          Ordered-append lo s.off m (fill_gap off payload pos s.off prev) _
            (fill_gap-Ordered_to off lo pos s.off payload prev o (ground (arith, e)) h before)
            (elim (Bool-cases (ltb (seg_end s) end)) [
              | inl short ↦ rw short (later (ltb→lt (seg_end s) end short))
              | inr long ↦ rw long (omega arith, from.1, raised)
            ]))
    ]

pub count_gap_new :
    (off pos gap_end : ℕ) (first : Option Segment) (acc : ℕ × Bool)
    → (count_gap off first pos gap_end acc).0 ≡ acc.0 + (gap_end - pos)
unfolding count_gap
count_gap_new off pos gap_end first (n, b) = ground arith

pub fill-total :
    (off lo pos hi : ℕ) (payload : List ℕ) (prev : Option Segment) (ss : List Segment)
    (acc : ℕ × Bool) (first : Option Segment)
    → off ≤ pos
    → pos < off + length payload
    → Ordered lo hi (held prev ++ ss)
    → EndsAfter pos ss
    → acc.0 + total (fill off payload pos prev ss)
      ≡ total (held prev) + total ss + (ooo_new_bytes off (off + length payload) first pos ss acc).0
unfolding fill ooo_new_bytes total held Ordered EndsAfter
fill-total off lo pos hi payload prev [] (n, b) first o lt w a =
    let end = off + length payload in
    ground
      (arith, fill_gap-total off pos end payload prev o, count_gap_new off pos end first (n, b))
fill-total off lo pos hi payload prev (s ∷ ss) (n, b) first o lt w a =
    let end = off + length payload in
    let (before, from) = Ordered-held lo hi prev s ss w in
    let gap = count_gap off first pos s.off (n, b) in
    let later = λ (short : seg_end s < end).
      fill-total off s.off (seg_end s) hi payload (some s) ss gap first (omega arith) short from
        (Ordered-EndsAfter (seg_end s) hi ss from.2) in
    let last = fill_gap off payload pos end prev in
    let here = fill_gap off payload pos s.off prev in
    ground (
      arith,
      later,
      fill_gap-total off pos end payload prev o,
      fill_gap-total off pos s.off payload prev o,
      total-append last (s ∷ ss),
      total-append here (s ∷ ss),
      total-append here (fill off payload (seg_end s) (some s) ss),
      count_gap_new off pos s.off first (n, b),
      count_gap_new off pos end first (n, b),
    )
