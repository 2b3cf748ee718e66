-- ===== src/Quic/Ack/Encode.antt =====
-- core/quic_ack.go and core/quic_loss.go: the ACK frame that the tracker writes, and the ranges
-- that the peer reads out of it.
use alos_http.Prelude.{
  ℕ, ◌+◌, ◌-◌, ◌≤◌, ◌<◌, ◌≡◌, refl, true, false, List, [], ◌∷◌, ◌++◌, length, none, some, ok,
  Option, Bool, ◌≢◌, arith, append_assoc, append-nil, ◌∙◌, sub64, sym, length-append,
}
use alos_http.Quic.Varint.{varint, append_varint, varint_limit}
use alos_http.Quic.Frame.{Event, AckRange, AckFrame, on_ack, is_probing_frame}
use alos_http.Quic.Frame
use alos_http.Quic.Frame.Parse.{parse_ack, parse_ack_ranges, check_range_count, skip_ecn_counts}
use alos_http.Quic.Frame.Loop.{
  parse_body, parse_one, parse_typed, parse_loop, parse_frames, goes_on, refused,
}
use alos_http.Quic.Frame.RoundTrip.{read_varint-varint, read_varint_byte}
use alos_http.Quic.Varint.RoundTrip.{length-varint}
use alos_http.Quic.Ack.{PnRange, Tracker, append_gaps, append_ack_frame_ranges, max_ack_ranges}
use alos_http.Quic.Ack.Invariant.{Below, IsValid}
use alos_http.Quic.Loss.Received.{ack_blocks, ack_blocks_from}

-- The gaps and counts of the ranges below a range that begins at `prev`.
pub gaps : ℕ → List PnRange → List AckRange
gaps prev [] = []
gaps prev (r ∷ rs) = record { gap = prev - r.hi - 2; count = r.hi - r.lo } ∷ gaps r.lo rs

-- The peer's walk over the gaps finds the ranges again.
ack_blocks_from-gaps :
    (prev : ℕ) (rs : List PnRange) → Below prev rs → ack_blocks_from prev (gaps prev rs) ≡ rs
unfolding gaps ack_blocks_from
ack_blocks_from-gaps prev [] h = refl
ack_blocks_from-gaps prev (r ∷ rs) h = ground (arith, ack_blocks_from-gaps r.lo rs h.2)

gap_bytes : List AckRange → List ℕ
gap_bytes [] = []
gap_bytes (g ∷ gs) = varint g.gap ++ (varint g.count ++ gap_bytes gs)

append_gaps_lem :
    (dst : List ℕ) (prev : ℕ) (rs : List PnRange)
    → Below prev rs
    → prev ≤ varint_limit
    → append_gaps dst prev rs ≡ dst ++ gap_bytes (gaps prev rs)
unfolding append_gaps gaps gap_bytes append_varint
append_gaps_lem dst prev [] h lt = sym (append-nil dst)
append_gaps_lem dst prev (r ∷ rs) h lt =
    let gap : sub64 (sub64 prev r.hi) 2 ≡ prev - r.hi - 2 = omega arith in
    let count : sub64 r.hi r.lo ≡ r.hi - r.lo = omega arith in
    let dst' = append_varint (append_varint dst (prev - r.hi - 2)) (r.hi - r.lo) in
    rw (gap, count) (append_gaps_lem dst' r.lo rs h.2 (omega arith) ∙ simp append_assoc)

parse_ack_ranges-gaps :
    (prev : ℕ) (rs : List PnRange) (rest : List ℕ)
    → Below prev rs
    → prev ≤ varint_limit
    → parse_ack_ranges (length rs) (gap_bytes (gaps prev rs) ++ rest) ≡ ok (gaps prev rs, rest)
unfolding parse_ack_ranges gap_bytes gaps
parse_ack_ranges-gaps prev [] rest h lt = refl
parse_ack_ranges-gaps prev (r ∷ rs) rest h lt = simp append_assoc (
    ground (
      arith,
      read_varint-varint (prev - r.hi - 2)
          (varint (r.hi - r.lo) ++ (gap_bytes (gaps r.lo rs) ++ rest)),
      read_varint-varint (r.hi - r.lo) (gap_bytes (gaps r.lo rs) ++ rest),
      parse_ack_ranges-gaps r.lo rs rest h.2,
    ))

-- Two bytes at least for a gap, so that the parser's bound on the count is met.
length-gap_bytes : (prev : ℕ) (rs : List PnRange) → length rs ≤ length (gap_bytes (gaps prev rs))
unfolding gap_bytes gaps
length-gap_bytes prev [] = omega arith
length-gap_bytes prev (r ∷ rs) = omega (
  arith,
  length-append (varint (prev - r.hi - 2)) (varint (r.hi - r.lo) ++ gap_bytes (gaps r.lo rs)),
  length-append (varint (r.hi - r.lo)) (gap_bytes (gaps r.lo rs)),
  length-varint (r.hi - r.lo),
  length-gap_bytes r.lo rs,
)

ack_fields : ℕ → PnRange → List PnRange → List ℕ
ack_fields delay r rs =
    varint r.hi
    ++ (varint delay ++ (varint (length rs) ++ (varint (r.hi - r.lo) ++ gap_bytes (gaps r.lo rs))))

append_ack_lem :
    (dst : List ℕ) (delay : ℕ) (r : PnRange) (rs : List PnRange)
    → Below (varint_limit + 1) (r ∷ rs)
    → append_ack_frame_ranges dst delay (r ∷ rs) ≡ dst ++ (Frame.frame_ack ∷ ack_fields delay r rs)
unfolding append_ack_frame_ranges append_varint ack_fields
append_ack_lem dst delay r rs h =
    let count : sub64 r.hi r.lo ≡ r.hi - r.lo = omega arith in
    rw count (append_gaps_lem _ r.lo rs h.2 (omega arith) ∙ simp (append_assoc, ack_type))
  where
    ack_type : varint 2 ≡ 2 ∷ []
    ack_type = unfold varint in refl

abbrev pub ack_frame_of : ℕ → PnRange → List PnRange → AckFrame
ack_frame_of delay r rs = record {
  largest_ack = r.hi;
  ack_delay = delay;
  first_range = r.hi - r.lo;
  ranges = gaps r.lo rs;
}

check_range_count-ok :
    (n : ℕ) (src : List ℕ) → n ≤ 256 → n ≤ length src → check_range_count n src ≡ ok (tt, src)
unfolding check_range_count
check_range_count-ok n src h k = ground arith

ack_fields-parse :
    (delay : ℕ) (r : PnRange) (rs : List PnRange) (rest : List ℕ)
    → Below (varint_limit + 1) (r ∷ rs)
    → length rs < max_ack_ranges
    → delay < varint_limit
    → parse_ack false (ack_fields delay r rs ++ rest) ≡ ok (ack_frame_of delay r rs, rest)
unfolding parse_ack ack_fields skip_ecn_counts
ack_fields-parse delay r rs rest h few d =
    let bytes = gap_bytes (gaps r.lo rs) ++ rest in
    let first = varint (r.hi - r.lo) ++ bytes in
    let count = varint (length rs) ++ first in
    simp append_assoc (
      ground (
        arith,
        read_varint-varint r.hi (varint delay ++ count),
        read_varint-varint delay count,
        read_varint-varint (length rs) first,
        read_varint-varint (r.hi - r.lo) bytes,
        check_range_count-ok (length rs) bytes (omega arith) (
            omega (arith, length-gap_bytes r.lo rs, length-append (gap_bytes (gaps r.lo rs)) rest)),
        parse_ack_ranges-gaps r.lo rs rest h.2,
      ))

ack_blocks-gaps :
    (delay : ℕ) (r : PnRange) (rs : List PnRange)
    → Below (varint_limit + 1) (r ∷ rs)
    → ack_blocks (ack_frame_of delay r rs) ≡ r ∷ rs
unfolding ack_blocks
ack_blocks-gaps delay r rs h = ground (arith, ack_blocks_from-gaps r.lo rs h.2)

-- A packet of one frame.
one_frame :
    (allowed : Option (ℕ → Bool)) (np np' : Bool) (b : ℕ) (src : List ℕ) (e : Event)
    → parse_one allowed np b src ≡ goes_on (some e) np' []
    → parse_frames allowed np (b ∷ src)
      ≡ record { events = e ∷ []; non_probing = np'; error = none }
unfolding parse_frames parse_loop
one_frame allowed np np' b src e h = ground arith

ack-round :
    (allowed : Option (ℕ → Bool)) (np : Bool) (delay : ℕ) (r : PnRange) (rs : List PnRange)
    → Below (varint_limit + 1) (r ∷ rs)
    → length rs < max_ack_ranges
    → delay < varint_limit
    → refused allowed Frame.frame_ack ≡ false
    → parse_one allowed np Frame.frame_ack (ack_fields delay r rs)
      ≡ goes_on (some (on_ack (ack_frame_of delay r rs))) true []
unfolding parse_one parse_typed parse_body is_probing_frame
ack-round allowed np delay r rs h few d a =
    let whole = rw append-nil at (ack_fields-parse delay r rs [] h few d) in
    ground (arith, whole, read_varint_byte 2 (ack_fields delay r rs))

-- The frame that a valid tracker with a range writes is, in a space that allows ACK frames and for
-- a delay that fits a varint, parsed as one ACK, without an error, and the
-- peer that walks through it finds the tracker's ranges, all of them and in order.
pub parse_frames-append_ack_frame_ranges :
    (allowed : Option (ℕ → Bool)) (np : Bool) (delay : ℕ) (t : Tracker)
    → IsValid t
    → t.ranges ≢ []
    → delay < varint_limit
    → refused allowed Frame.frame_ack ≡ false
    → (f : AckFrame) × (parse_frames allowed np (append_ack_frame_ranges [] delay t.ranges)
        ≡ record { events = on_ack f ∷ []; non_probing = true; error = none })
      × (ack_blocks f ≡ t.ranges)
parse_frames-append_ack_frame_ranges allowed np delay t v some_range d a =
    of t.ranges v.apart v.few some_range
  where
    of :
        (rs : List PnRange)
        → Below (varint_limit + 1) rs
        → length rs ≤ max_ack_ranges
        → rs ≢ []
        → (f : AckFrame) × (parse_frames allowed np (append_ack_frame_ranges [] delay rs)
            ≡ record { events = on_ack f ∷ []; non_probing = true; error = none })
          × (ack_blocks f ≡ rs)
    of [] h few ne = absurd (ne refl)
    of (r ∷ rs) h few ne = (
      ack_frame_of delay r rs,
      rw (append_ack_lem [] delay r rs h) (
          one_frame allowed np true Frame.frame_ack (ack_fields delay r rs) _
            (ack-round allowed np delay r rs h (omega arith) d a)),
      ack_blocks-gaps delay r rs h,
    )
