-- ===== src/Quic/Ack/Invariant.antt =====
-- core/quic_ack.go: the ranges stay descending, apart from one another and few.
use alos_http.Prelude.{
  ℕ, zero, suc, ◌+◌, ◌≤◌, ◌<◌, ◌≡◌, ltb, List, [], ◌∷◌, length, take, some, arith, length-take,
  Bool-cases, inl, inr, Option-cases,
}
use alos_http.Quic.Varint.{varint_limit}
use alos_http.Quic.Ack.{
  PnRange, Tracker, find_place, insert_at, merge_from, merge, cap_ranges, record_recv_pn,
  max_ack_ranges,
}

-- Each range below the one before, and at least one number of the gap between them missing.
abbrev pub Below : ℕ → List PnRange → Type 0
Below b [] = Unit
Below b (r ∷ rs) = (r.lo ≤ r.hi) × (r.hi + 1 < b) × Below r.lo rs

-- The same without the gap: what the insertion leaves for the merge.
abbrev pub Near : ℕ → List PnRange → Type 0
Near b [] = Unit
Near b (r ∷ rs) = (r.lo ≤ r.hi) × (r.hi < b) × Near r.lo rs

pub record IsValid (t : Tracker) : Type 0 where
  pub apart : Below (varint_limit + 1) t.ranges
  pub few : length t.ranges ≤ max_ack_ranges

pub Below-Near : (b : ℕ) (rs : List PnRange) → Below b rs → Near b rs
Below-Near b [] h = tt
Below-Near b (r ∷ rs) h = (h.0, omega arith, Below-Near r.lo rs h.2)

pub insert_at-Near :
    (b pn idx : ℕ) (rs : List PnRange)
    → Near b rs
    → pn < b
    → find_place pn rs ≡ some idx
    → Near b (insert_at idx (record { lo = pn; hi = pn }) rs)
unfolding find_place insert_at
insert_at-Near b pn zero [] h lt e = omega arith
insert_at-Near b pn (suc idx) [] h lt e = cc
insert_at-Near b pn zero (r ∷ rs) h lt e = ground arith
insert_at-Near b pn (suc idx) (r ∷ rs) h lt e = ground (arith, insert_at-Near r.lo pn idx rs h.2)

merge_from-Below :
    (b : ℕ) (last : PnRange) (rs : List PnRange)
    → last.lo ≤ last.hi
    → last.hi + 1 < b
    → b ≤ varint_limit + 1
    → Near last.lo rs
    → Below b (merge_from last rs)
unfolding merge_from
merge_from-Below b last [] o h c n = omega arith
merge_from-Below b last (r ∷ rs) o h c n =
    ground (arith, merge_from-Below b (record last { lo = r.lo }) rs, merge_from-Below last.lo r rs)

pub merge-Below : (rs : List PnRange) → Near varint_limit rs → Below (varint_limit + 1) (merge rs)
unfolding merge
merge-Below [] n = tt
merge-Below (r ∷ rs) n =
    merge_from-Below (varint_limit + 1) r rs n.0 (omega arith) (omega arith) n.2

take-Below : (n b : ℕ) (rs : List PnRange) → Below b rs → Below b (take n rs)
take-Below zero b rs h = tt
take-Below (suc n) b [] h = tt
take-Below (suc n) b (r ∷ rs) h = (h.0, h.1, take-Below n r.lo rs h.2)

cap_ranges-IsValid :
    (t : Tracker) (rs : List PnRange) → Below (varint_limit + 1) rs → IsValid (cap_ranges t rs)
unfolding cap_ranges
cap_ranges-IsValid t rs h =
    ground (arith, take-Below max_ack_ranges (varint_limit + 1) rs h, length-take max_ack_ranges rs)

pub Below-Near_limit : (rs : List PnRange) → Below (varint_limit + 1) rs → Near varint_limit rs
Below-Near_limit [] h = tt
Below-Near_limit (r ∷ rs) h = (h.0, omega arith, Below-Near r.lo rs h.2)

-- Recording a packet number below 2^62 in a valid tracker leaves a valid one: the ranges descend,
-- with a missing number between any two, and are at most 32.
pub record_recv_pn-IsValid :
    (t : Tracker) (pn : ℕ) → IsValid t → pn < varint_limit → IsValid (record_recv_pn t pn).1
unfolding record_recv_pn
record_recv_pn-IsValid t pn v h = elim (Bool-cases (ltb pn t.floor)) [
  | inl old ↦ rw old v
  | inr new ↦ elim (Option-cases (find_place pn t.ranges)) [
    | inl dup ↦ rw (new, dup) v
    | inr (idx, e) ↦
        rw (new, e)
          (cap_ranges-IsValid t _ (
            merge-Below _ (
              insert_at-Near varint_limit pn idx t.ranges (Below-Near_limit t.ranges v.apart) h e)))
  ]
]
