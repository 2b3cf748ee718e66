-- ===== src/Quic/Ack.antt =====
-- core/quic_ack.go: the packet numbers received in one packet-number space. A connection has
-- three such trackers, `ackRanges[space]` and `ackFloor[space]`.
pub mod Invariant
pub mod Once
pub mod Encode
use alos_http.Prelude.{
  ℕ, zero, suc, ◌+◌, ◌-◌, ◌≤◌, ◌<◌, max, ltb, leb, Bool, true, false, ◌&&◌, List, [], ◌∷◌, ◌++◌,
  length, take, if◌then◌else◌, Option, none, some, add64, sub64,
}
use mathlib.Core.Option
use alos_http.Quic.Varint.{append_varint}
use alos_http.Quic.Frame

abbrev pub max_ack_ranges : ℕ
max_ack_ranges = 32

-- `pnRange`: both ends are received.
pub record PnRange : Type 0 where
  pub lo : ℕ
  pub hi : ℕ

pub record Tracker : Type 0 where
  pub floor : ℕ
  pub ranges : List PnRange

-- The first loop of `recordRecvPN`: the place of `pn` in the descending ranges, and `none` where a
-- range holds it.
unfoldable pub find_place : ℕ → List PnRange → Option ℕ
find_place pn [] = some 0
find_place pn (r ∷ rs) =
    let later = Option.map suc (find_place pn rs) in
    if leb r.lo pn && leb pn r.hi then none else if ltb r.hi pn then some 0 else later

-- `append`, `copy` and the write at `idx`.
unfoldable pub insert_at : ℕ → PnRange → List PnRange → List PnRange
insert_at zero x rs = x ∷ rs
insert_at (suc i) x [] = x ∷ []
insert_at (suc i) x (r ∷ rs) = r ∷ insert_at i x rs

-- The second loop, with the last range of `merged` in hand.
unfoldable pub merge_from : PnRange → List PnRange → List PnRange
merge_from last [] = last ∷ []
merge_from last (r ∷ rs) =
    let joined = merge_from (if ltb r.lo last.lo then record last { lo = r.lo } else last) rs in
    let apart = last ∷ merge_from r rs in if leb last.lo (add64 r.hi 1) then joined else apart

unfoldable pub merge : List PnRange → List PnRange
merge [] = []
merge (r ∷ rs) = merge_from r rs

-- `merged[maxAckRanges-1].lo`, of a list that is at least that long.
unfoldable pub last_lo : List PnRange → ℕ
last_lo [] = 0
last_lo (r ∷ []) = r.lo
last_lo (r ∷ s ∷ rs) = last_lo (s ∷ rs)

-- The cap on the number of ranges: what falls off the end lifts the floor.
unfoldable pub cap_ranges : Tracker → List PnRange → Tracker
cap_ranges t merged =
    let kept = take max_ack_ranges merged in
    if ltb max_ack_ranges (length merged)
    then record { floor = max t.floor (last_lo kept); ranges = kept }
    else record t { ranges = merged }

-- `recordRecvPN`: whether the packet is new, and the tracker afterwards.
unfoldable pub record_recv_pn : Tracker → ℕ → Bool × Tracker
record_recv_pn t pn = if ltb pn t.floor then (false, t) else elim (find_place pn t.ranges) [
  | none ↦ (false, t)
  | some idx ↦ (true, cap_ranges t (merge (insert_at idx (record { lo = pn; hi = pn }) t.ranges)))
]

-- `quicAppendACKFrameRanges`.
unfoldable pub append_gaps : List ℕ → ℕ → List PnRange → List ℕ
append_gaps dst prev_lo [] = dst
append_gaps dst prev_lo (r ∷ rs) =
    let dst = append_varint dst (sub64 (sub64 prev_lo r.hi) 2) in
    append_gaps (append_varint dst (sub64 r.hi r.lo)) r.lo rs

unfoldable pub append_ack_frame_ranges : List ℕ → ℕ → List PnRange → List ℕ
append_ack_frame_ranges dst ack_delay [] = dst
append_ack_frame_ranges dst ack_delay (r ∷ rs) =
    let dst = append_varint dst Frame.frame_ack in
    let dst = append_varint (append_varint dst r.hi) ack_delay in
    let dst = append_varint dst (length rs) in
    append_gaps (append_varint dst (sub64 r.hi r.lo)) r.lo rs
