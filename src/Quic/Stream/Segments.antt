-- ===== src/Quic/Stream/Segments.antt =====
-- core/quic_stream.go: oooNewBytes and the loop of insertOOO on the list of out-of-order segments.
pub mod Order
pub mod Stored
pub mod Coverage
pub mod Content
use alos_http.Prelude.{
  ℕ, zero, suc, ◌+◌, ◌-◌, ltb, leb, ◌==◌, Bool, true, false, not, List, [], ◌∷◌, ◌++◌, length, take,
  drop, if◌then◌else◌, Option, none, some,
}
use alos_http.Quic.Stream.{Segment, seg_end}

-- The segment before a position, in a list.
unfoldable pub held : Option Segment → List Segment
held none = []
held (some s) = s ∷ []

-- A position in the list: the segments before the one in front of it, that one, and those from the
-- position on.
pub record Place : Type 0 where
  pub front : List Segment
  pub prev : Option Segment
  pub after : List Segment

-- `firstEndingAfter`, with `before` of the position.
unfoldable pub first_ending_after : ℕ → Option Segment → List Segment → Place
first_ending_after off prev [] = record { front = []; prev = prev; after = [] }
first_ending_after off prev (s ∷ ss) =
    let later = first_ending_after off (some s) ss in
    if leb (seg_end s) off
    then record later { front = held prev ++ later.front }
    else record { front = []; prev = prev; after = s ∷ ss }

-- One round of `oooNewBytes`: the bytes of a gap, and whether it opens a segment.
unfoldable pub starts_segment : ℕ → Option Segment → Bool
starts_segment off none = true
starts_segment off (some p) = not (seg_end p == off)

unfoldable pub count_gap : ℕ → Option Segment → ℕ → ℕ → ℕ × Bool → ℕ × Bool
count_gap off first_prev pos gap_end (n, opens) =
    if ltb pos gap_end
    then (n + (gap_end - pos), if pos == off then starts_segment off first_prev else opens)
    else (n, opens)

-- `oooNewBytes`.
unfoldable pub ooo_new_bytes : ℕ → ℕ → Option Segment → ℕ → List Segment → ℕ × Bool → ℕ × Bool
ooo_new_bytes off end first_prev pos [] acc = count_gap off first_prev pos end acc
ooo_new_bytes off end first_prev pos (s ∷ ss) acc =
    let acc' = count_gap off first_prev pos s.off acc in
    let later = ooo_new_bytes off end first_prev (seg_end s) ss acc' in
    if leb end s.off
    then count_gap off first_prev pos end acc
    else if ltb (seg_end s) end
    then later
    else acc'

-- The loop of `insertOOO`: a gap's piece goes to the segment that ends there, or is a new one.
unfoldable pub place_piece : Option Segment → ℕ → List ℕ → List Segment
place_piece none pos piece = record { off = pos; payload = piece } ∷ []
place_piece (some p) pos piece =
    if seg_end p == pos
    then record p { payload = p.payload ++ piece } ∷ []
    else p ∷ record { off = pos; payload = piece } ∷ []

unfoldable pub fill_gap : ℕ → List ℕ → ℕ → ℕ → Option Segment → List Segment
fill_gap off payload pos gap_end prev =
    if ltb pos gap_end
    then place_piece prev pos (take (gap_end - pos) (drop (pos - off) payload))
    else held prev

unfoldable pub fill : ℕ → List ℕ → ℕ → Option Segment → List Segment → List Segment
fill off payload pos prev [] = fill_gap off payload pos (off + length payload) prev
fill off payload pos prev (s ∷ ss) =
    let later = fill off payload (seg_end s) (some s) ss in
    let rest = if ltb (seg_end s) (off + length payload) then later else s ∷ ss in
    if leb (off + length payload) s.off
    then fill_gap off payload pos (off + length payload) prev ++ (s ∷ ss)
    else fill_gap off payload pos s.off prev ++ rest

unfoldable pub filled : ℕ → List ℕ → Place → List Segment
filled off payload p = p.front ++ fill off payload off p.prev p.after
