-- ===== src/Quic/Ooo/Search.antt =====
-- core/quic_ooo_list.go: the binary search of `firstEndingAfter`, and the search from the front of a
-- list in order.
use alos_http.Prelude.{
  ℕ, zero, suc, ◌+◌, ◌-◌, ◌/◌, ◌<◌, ◌≤◌, ◌≡◌, refl, ltb, leb, Bool, true, false, List, [], ◌∷◌,
  length, drop, get_elem?, Option, some, arith, ap, ◌∙◌, Bool-cases, inl, inr,
}
use alos_http.Quic.Stream.{Segment, seg_end}
use alos_http.Quic.Stream.Segments.{first_ending_after}
use alos_http.Quic.Stream.Segments.Order.{Ordered}
use alos_http.Quic.Ooo.{last_segment, sort_search, segment_ends_after}

-- The first index below a bound at which a test holds, or the bound.
pub record IsLeast (f : ℕ → Bool) (n r : ℕ) : Type 0 where
  pub bound : r ≤ n
  pub fails : (x : ℕ) → x < r → f x ≡ false
  pub holds : (x : ℕ) → r ≤ x → x < n → f x ≡ true

-- A test that holds from some index on, up to a bound.
abbrev pub Rises : (ℕ → Bool) → ℕ → Type 0
Rises f n = (x y : ℕ) → x ≤ y → y < n → f x ≡ true → f y ≡ true

pub false-Rises :
    (f : ℕ → Bool) (n : ℕ) → Rises f n → (x y : ℕ) → x ≤ y → y < n → f y ≡ false → f x ≡ false
false-Rises f n up x y le lt e = elim (Bool-cases (f x)) [
  | inl t ↦ absurd (ground (arith, up x y le lt t, e))
  | inr miss ↦ miss
]

pub sort_search-IsLeast :
    (f : ℕ → Bool) (n k i j : ℕ)
    → Rises f n
    → i ≤ j
    → j ≤ n
    → j ≤ i + k
    → ((x : ℕ) → x < i → f x ≡ false)
    → ((x : ℕ) → j ≤ x → x < n → f x ≡ true)
    → IsLeast f n (sort_search f k i j)
unfolding sort_search
sort_search-IsLeast f n zero i j up le top room low high = record {
  bound = omega arith;
  fails = low;
  holds = λ x ge lt. high x (omega arith) lt;
}
sort_search-IsLeast f n (suc k) i j up le top room low high = elim (Bool-cases (ltb i j)) [
  | inr stop ↦ rw stop (record {
    bound = omega arith;
    fails = low;
    holds = λ x ge lt. high x (ground (arith, stop)) lt;
  })
  | inl go ↦
      let h = (i + j) / 2 in
      let below : h < j = ground (arith, go) in
      let above : i ≤ h = ground (arith, go) in
      elim (Bool-cases (f h)) [
        | inl hit ↦
            rw (go, hit)
              (sort_search-IsLeast f n k i h up above (omega arith) (omega arith) low
                (λ x ge lt. up h x ge lt hit))
        | inr miss ↦
            rw (go, miss)
              (sort_search-IsLeast f n k (h + 1) j up (omega arith) top (omega arith)
                (λ x lt. false-Rises f n up x h (omega arith) (omega arith) miss) high)
      ]
]

-- The segment in front of an index, or `prev` in front of all.
unfoldable pub before_index : Option Segment → List Segment → ℕ → Option Segment
before_index prev ss zero = prev
before_index prev ss (suc i) = get_elem? ss i

before_index-suc :
    (prev : Option Segment) (s : Segment) (ss : List Segment) (i : ℕ)
    → before_index (some s) ss i ≡ before_index prev (s ∷ ss) (suc i)
unfolding before_index
before_index-suc prev s ss zero = refl
before_index-suc prev s ss (suc i) = refl

-- The search from the front stops at an index whose segment ends later, as none in front does.
pub first_ending_after-at :
    (off i : ℕ) (prev : Option Segment) (ss : List Segment)
    → i ≤ length ss
    → ((x : ℕ) → x < i → segment_ends_after off ss x ≡ false)
    → (i < length ss → segment_ends_after off ss i ≡ true)
    → let p = first_ending_after off prev ss in
      (p.after ≡ drop i ss) × (p.prev ≡ before_index prev ss i)
unfolding first_ending_after before_index
first_ending_after-at off zero prev [] le low here = (refl, refl)
first_ending_after-at off (suc i) prev [] le low here = absurd (omega arith)
first_ending_after-at off zero prev (s ∷ ss) le low here =
    let e : leb (seg_end s) off ≡ false = ground (arith, here (omega arith)) in rw e (refl, refl)
first_ending_after-at off (suc i) prev (s ∷ ss) le low here =
    let e : leb (seg_end s) off ≡ true = ground (arith, low 0 (omega arith)) in
    let rest =
      first_ending_after-at off i (some s) ss (omega arith) (λ x lt. low (suc x) (omega arith))
        (λ lt. here (omega arith)) in
    rw e (rest.0, rest.1 ∙ before_index-suc prev s ss i)

-- In a list in order, the segments behind one that ends later end later.
later-all :
    (off lo hi : ℕ) (ss : List Segment)
    → Ordered lo hi ss
    → off < lo
    → (y : ℕ) → y < length ss
    → segment_ends_after off ss y ≡ true
unfolding Ordered
later-all off lo hi [] o h y lt = absurd (omega arith)
later-all off lo hi (s ∷ ss) o h zero lt = ground arith
later-all off lo hi (s ∷ ss) o h (suc y) lt =
    later-all off (seg_end s) hi ss o.2 (omega arith) y (omega arith)

pub ends_after-Rises :
    (off lo hi : ℕ) (ss : List Segment)
    → Ordered lo hi ss
    → Rises (segment_ends_after off ss) (length ss)
unfolding Ordered
ends_after-Rises off lo hi [] o x y le lt e = absurd (omega arith)
ends_after-Rises off lo hi (s ∷ ss) o zero zero le lt e = e
ends_after-Rises off lo hi (s ∷ ss) o zero (suc y) le lt e =
    later-all off (seg_end s) hi ss o.2 (ground (arith, e)) y (omega arith)
ends_after-Rises off lo hi (s ∷ ss) o (suc x) zero le lt e = absurd (omega arith)
ends_after-Rises off lo hi (s ∷ ss) o (suc x) (suc y) le lt e =
    ends_after-Rises off (seg_end s) hi ss o.2 x y (omega arith) (omega arith) e

pub last_segment-at :
    (ch : List Segment) → 0 < length ch → last_segment ch ≡ get_elem? ch (length ch - 1)
unfolding last_segment
last_segment-at [] h = absurd (omega arith)
last_segment-at (s ∷ []) h = refl
last_segment-at (s ∷ t ∷ ss) h =
    let e : suc (suc (length ss)) - 1 ≡ suc (length ss) = omega arith in
    let e' : suc (length ss) - 1 ≡ length ss = omega arith in
    rw e (last_segment-at (t ∷ ss) (omega arith) ∙ ap (get_elem? (t ∷ ss)) e')
