-- ===== src/Quic/Ack/Once.antt =====
-- core/quic_ack.go: a packet number is accepted once.
use alos_http.Prelude.{
  ℕ, zero, suc, ◌+◌, ◌≤◌, ◌<◌, ◌≡◌, refl, ltb, leb, Bool, true, false, not, ◌&&◌, ◌||◌, List, [],
  ◌∷◌, length, take, none, some, arith, ◌==◌, Bool-cases, inl, inr, Option-cases, All,
}
use alos_http.Quic.Varint.{varint_limit}
use alos_http.Quic.Ack.{
  PnRange, Tracker, find_place, insert_at, merge_from, merge, last_lo, cap_ranges, record_recv_pn,
}
use alos_http.Quic.Ack.Invariant.{
  Below, Near, Below-Near, Below-Near_limit, insert_at-Near, merge-Below, IsValid,
  record_recv_pn-IsValid,
}

abbrev pub within : ℕ → PnRange → Bool
within q r = leb r.lo q && leb q r.hi

unfoldable pub covered : ℕ → List PnRange → Bool
covered q [] = false
covered q (r ∷ rs) = within q r || covered q rs

-- What the tracker answers for a number: below the floor, or in a range.
pub seen : Tracker → ℕ → Bool
seen t q = ltb q t.floor || covered q t.ranges

covered-Near : (b q : ℕ) (rs : List PnRange) → Near b rs → b ≤ q → covered q rs ≡ false
unfolding covered
covered-Near b q [] n h = refl
covered-Near b q (r ∷ rs) n h = ground (arith, covered-Near r.lo q rs n.2)

find_place-covered :
    (b q : ℕ) (rs : List PnRange) → Near b rs → find_place q rs ≡ none → covered q rs ≡ true
unfolding find_place covered
find_place-covered b q [] n e = cc
find_place-covered b q (r ∷ rs) n e = ground (arith, find_place-covered r.lo q rs n.2)

find_place-not_covered :
    (b q idx : ℕ) (rs : List PnRange)
    → Near b rs
    → find_place q rs ≡ some idx
    → covered q rs ≡ false
unfolding find_place covered
find_place-not_covered b q idx [] n e = refl
find_place-not_covered b q zero (r ∷ rs) n e = ground (arith, covered-Near r.lo q rs n.2)
find_place-not_covered b q (suc idx) (r ∷ rs) n e =
    ground (arith, find_place-not_covered r.lo q idx rs n.2, covered-Near r.lo q rs n.2)

covered-insert_at :
    (q idx : ℕ) (x : PnRange) (rs : List PnRange)
    → covered q (insert_at idx x rs) ≡ (within q x || covered q rs)
unfolding covered insert_at
covered-insert_at q zero x rs = refl
covered-insert_at q (suc idx) x [] = refl
covered-insert_at q (suc idx) x (r ∷ rs) = ground (arith, covered-insert_at q idx x rs)

covered-merge_from :
    (q : ℕ) (last : PnRange) (rs : List PnRange)
    → last.lo ≤ last.hi
    → last.hi < varint_limit
    → Near last.lo rs
    → covered q (merge_from last rs) ≡ (within q last || covered q rs)
unfolding covered merge_from
covered-merge_from q last [] o h n = refl
covered-merge_from q last (r ∷ rs) o h n =
    ground (arith, covered-merge_from q (record last { lo = r.lo }) rs, covered-merge_from q r rs)

covered-merge :
    (q : ℕ) (rs : List PnRange) → Near varint_limit rs → covered q (merge rs) ≡ covered q rs
unfolding merge covered
covered-merge q [] n = refl
covered-merge q (r ∷ rs) n = covered-merge_from q r rs n.0 n.1 n.2

-- A number that the cap drops is below the lowest one kept.
covered-take :
    (n b q : ℕ) (rs : List PnRange)
    → Below b rs
    → suc n < length rs
    → (covered q (take (suc n) rs) || ltb q (last_lo (take (suc n) rs)))
      ≡ (covered q rs || ltb q (last_lo (take (suc n) rs)))
unfolding covered last_lo
covered-take n b q [] h lt = refl
covered-take zero b q (r ∷ rs) h lt =
    ground (arith, covered-Near r.lo q rs (Below-Near r.lo rs h.2))
covered-take (suc n) b q (r ∷ []) h lt = absurd (omega arith)
covered-take (suc n) b q (r ∷ s ∷ rs) h lt = ground (arith, covered-take n r.lo q (s ∷ rs) h.2)

seen-cap_ranges :
    (t : Tracker) (q : ℕ) (rs : List PnRange)
    → Below (varint_limit + 1) rs
    → seen (cap_ranges t rs) q ≡ (ltb q (cap_ranges t rs).floor || covered q rs)
unfolding seen cap_ranges
seen-cap_ranges t q rs h = ground (arith, covered-take 31 (varint_limit + 1) q rs h)

-- To a valid tracker a packet number is new exactly when it lies at or above the floor and in no range.
pub record_recv_pn_new :
    (t : Tracker) (pn : ℕ) → IsValid t → (record_recv_pn t pn).0 ≡ not (seen t pn)
unfolding record_recv_pn seen
record_recv_pn_new t pn v =
    let near = Below-Near_limit t.ranges v.apart in
    elim (Option-cases (find_place pn t.ranges)) [
      | inl dup ↦ ground (arith, dup, find_place-covered varint_limit pn t.ranges near)
      | inr (idx, e) ↦ ground (arith, e, find_place-not_covered varint_limit pn idx t.ranges near)
    ]

floor-cap_ranges : (t : Tracker) (rs : List PnRange) → t.floor ≤ (cap_ranges t rs).floor
unfolding cap_ranges
floor-cap_ranges t rs = ground arith

-- The tracker of a packet that was not seen before.
accept_seen :
    (t : Tracker) (pn idx q : ℕ)
    → IsValid t
    → pn < varint_limit
    → find_place pn t.ranges ≡ some idx
    → let t' = cap_ranges t (merge (insert_at idx (record { lo = pn; hi = pn }) t.ranges)) in
      seen t' q ≡ (seen t q || q == pn || ltb q t'.floor)
unfolding seen
accept_seen t pn idx q v h e =
    let x : PnRange = record { lo = pn; hi = pn } in
    let rs = insert_at idx x t.ranges in
    let near =
      insert_at-Near varint_limit pn idx t.ranges (Below-Near_limit t.ranges v.apart) h e in
    ground (
      arith,
      seen-cap_ranges t q (merge rs) (merge-Below rs near),
      covered-merge q rs near,
      covered-insert_at q idx x t.ranges,
      floor-cap_ranges t (merge rs),
    )

-- After a packet number below 2^62 a valid tracker has seen what it had seen, that number, and
-- what is below the new floor, and nothing else.
pub record_recv_pn-seen :
    (t : Tracker) (pn q : ℕ)
    → IsValid t
    → pn < varint_limit
    → let t' = (record_recv_pn t pn).1 in seen t' q ≡ (seen t q || q == pn || ltb q t'.floor)
unfolding record_recv_pn
record_recv_pn-seen t pn q v h = elim (Bool-cases (ltb pn t.floor)) [
  | inl old ↦ rw old (unfold seen in ground arith)
  | inr new ↦ elim (Option-cases (find_place pn t.ranges)) [
    | inl dup ↦
        rw (new, dup)
          (unfold seen in
            ground (
              arith,
              find_place-covered varint_limit pn t.ranges (Below-Near_limit t.ranges v.apart) dup,
            ))
    | inr (idx, e) ↦ rw (new, e) (accept_seen t pn idx q v h e)
  ]
]

-- The trackers after a sequence of packets.
unfoldable pub record_all : Tracker → List ℕ → Tracker
record_all t [] = t
record_all t (pn ∷ pns) = record_all (record_recv_pn t pn).1 pns

abbrev pub AllSmall : List ℕ → Type 0
AllSmall = All (λ pn. pn < varint_limit)

record_all-seen :
    (t : Tracker) (q : ℕ) (pns : List ℕ)
    → IsValid t
    → AllSmall pns
    → seen t q ≡ true
    → (seen (record_all t pns) q ≡ true) × IsValid (record_all t pns)
unfolding record_all
record_all-seen t q [] v h s = (s, v)
record_all-seen t q (pn ∷ pns) v h s =
    record_all-seen (record_recv_pn t pn).1 q pns (record_recv_pn-IsValid t pn v h.0) h.1
      (ground (arith, record_recv_pn-seen t pn q v h.0))

-- A packet number that a valid tracker was given is refused ever after (all numbers below 2^62), whatever came in between and
-- whatever the cap on the ranges threw away.
pub record_recv_pn_once :
    (t : Tracker) (pn : ℕ) (pns : List ℕ)
    → IsValid t
    → pn < varint_limit
    → AllSmall pns
    → (record_recv_pn (record_all (record_recv_pn t pn).1 pns) pn).0 ≡ false
record_recv_pn_once t pn pns v h hs =
    let now = record_recv_pn-seen t pn pn v h in
    let (later, v') =
      record_all-seen (record_recv_pn t pn).1 pn pns (record_recv_pn-IsValid t pn v h) hs
        (ground (arith, now)) in
    ground (arith, record_recv_pn_new _ pn v', later)
