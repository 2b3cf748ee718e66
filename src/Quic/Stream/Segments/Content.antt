-- ===== src/Quic/Stream/Segments/Content.antt =====
-- core/quic_stream.go: the out-of-order segments carry the bytes that the peer sent at their offsets.
use alos_http.Prelude.{
  ℕ, zero, suc, ◌+◌, ◌-◌, ◌≤◌, ◌≡◌, ltb, leb, ◌==◌, List, [], ◌∷◌, ◌++◌, length, take, drop, Option,
  none, some, arith, Bool-cases, inl, inr, All, All-append, All-append_split, subst,
}
use alos_http.Quic.Stream.{Segment, seg_end}
use alos_http.Quic.Stream.Segments.{held, place_piece, fill_gap, fill}
use alos_http.Quic.Stream.Segments.Order.{Ordered, EndsAfter, Ordered-held, Ordered-EndsAfter}
use alos_http.Quic.Stream.Segments.Stored.{stored, stored-nil, stored-cons}

-- Bytes are those of a stream, from an offset on.
unfoldable pub Agrees : (ℕ → ℕ) → ℕ → List ℕ → Type 0
Agrees sent off [] = Unit
Agrees sent off (b ∷ bs) = (b ≡ sent off) × Agrees sent (off + 1) bs

abbrev pub Carries : (ℕ → ℕ) → Segment → Type 0
Carries sent s = Agrees sent s.off s.payload

pub Agrees-append :
    (sent : ℕ → ℕ) (off : ℕ) (xs ys : List ℕ)
    → Agrees sent off xs
    → Agrees sent (off + length xs) ys
    → Agrees sent off (xs ++ ys)
unfolding Agrees
Agrees-append sent off [] ys h k = let e : off + 0 ≡ off = omega arith in rw e at k
Agrees-append sent off (x ∷ xs) ys h k =
    let e : off + suc (length xs) ≡ off + 1 + length xs = omega arith in
    (h.0, Agrees-append sent (off + 1) xs ys h.1 (rw e at k))

pub Agrees-drop :
    (sent : ℕ → ℕ) (k off : ℕ) (xs : List ℕ)
    → Agrees sent off xs
    → Agrees sent (off + k) (drop k xs)
unfolding Agrees
Agrees-drop sent zero off xs h = let e : off + 0 ≡ off = omega arith in rw e h
Agrees-drop sent (suc k) off [] h = _
Agrees-drop sent (suc k) off (x ∷ xs) h =
    let e : off + suc k ≡ off + 1 + k = omega arith in rw e (Agrees-drop sent k (off + 1) xs h.1)

pub Agrees-take :
    (sent : ℕ → ℕ) (k off : ℕ) (xs : List ℕ) → Agrees sent off xs → Agrees sent off (take k xs)
unfolding Agrees
Agrees-take sent zero off xs h = _
Agrees-take sent (suc k) off [] h = _
Agrees-take sent (suc k) off (x ∷ xs) h = (h.0, Agrees-take sent k (off + 1) xs h.1)

-- What lies from a later offset on.
pub Agrees-drop_to :
    (sent : ℕ → ℕ) (off pos : ℕ) (xs : List ℕ)
    → Agrees sent off xs
    → off ≤ pos
    → Agrees sent pos (drop (pos - off) xs)
Agrees-drop_to sent off pos xs h le =
    let e : off + (pos - off) ≡ pos = omega arith in
    subst (λ q. Agrees sent q (drop (pos - off) xs)) e (Agrees-drop sent (pos - off) off xs h)

fill_gap-Carries :
    (sent : ℕ → ℕ) (off pos gap_end : ℕ) (payload : List ℕ) (prev : Option Segment)
    → off ≤ pos
    → Agrees sent off payload
    → All (Carries sent) (held prev)
    → All (Carries sent) (fill_gap off payload pos gap_end prev)
unfolding fill_gap place_piece held
fill_gap-Carries sent off pos gap_end payload none o h c =
    let piece =
      Agrees-take sent (gap_end - pos) pos (drop (pos - off) payload)
        (Agrees-drop_to sent off pos payload h o) in
    elim (Bool-cases (ltb pos gap_end)) [ inl e ↦ rw e (piece, _) | inr e ↦ rw e c ]
fill_gap-Carries sent off pos gap_end payload (some p) o h c =
    let bytes = take (gap_end - pos) (drop (pos - off) payload) in
    let piece : Agrees sent pos bytes =
      Agrees-take sent (gap_end - pos) pos (drop (pos - off) payload)
        (Agrees-drop_to sent off pos payload h o) in
    elim (Bool-cases (ltb pos gap_end)) [
      | inl e ↦ elim (Bool-cases (seg_end p == pos)) [
        | inl m ↦
            let at_end : pos ≡ seg_end p = ground (arith, m) in
            rw (e, m)
              (
                Agrees-append sent p.off p.payload bytes c.0
                    (subst (λ q. Agrees sent q bytes) at_end piece),
                _,
              )
        | inr m ↦ rw (e, m) (c.0, (piece, _))
      ]
      | inr e ↦ rw e c
    ]

pub fill-Carries :
    (sent : ℕ → ℕ) (off lo pos hi : ℕ) (payload : List ℕ) (prev : Option Segment)
    (ss : List Segment)
    → off ≤ pos
    → Ordered lo hi (held prev ++ ss)
    → EndsAfter pos ss
    → Agrees sent off payload
    → All (Carries sent) (held prev ++ ss)
    → All (Carries sent) (fill off payload pos prev ss)
unfolding fill
fill-Carries sent off lo pos hi payload prev [] o w a h c =
    let before = (All-append_split (Carries sent) (held prev) [] c).0 in
    fill_gap-Carries sent off pos (off + length payload) payload prev o h before
fill-Carries sent off lo pos hi payload prev (s ∷ ss) o w a h c =
    let order : Ordered s.off hi (s ∷ ss) = (Ordered-held lo hi prev s ss w).1 in
    let beyond : off ≤ seg_end s = unfold EndsAfter in omega arith in
    let behind : EndsAfter (seg_end s) ss =
      unfold Ordered in Ordered-EndsAfter (seg_end s) hi ss order.2 in
    let end = off + length payload in
    let (before, from) = All-append_split (Carries sent) (held prev) (s ∷ ss) c in
    let later =
      fill-Carries sent off s.off (seg_end s) hi payload (some s) ss beyond (unfold held in order)
        behind in
    let last = fill_gap-Carries sent off pos end payload prev o h before in
    let here = fill_gap-Carries sent off pos s.off payload prev o h before in
    elim (Bool-cases (leb end s.off)) [
      | inl e ↦
          rw e (All-append (Carries sent) (fill_gap off payload pos end prev) (s ∷ ss) last from)
      | inr e ↦ rw e (
          All-append (Carries sent) (fill_gap off payload pos s.off prev) _ here
            (elim (Bool-cases (ltb (seg_end s) end)) [
              | inl short ↦ rw short (later h (unfold held in from))
              | inr long ↦ rw long from
            ]))
    ]

-- A stored frame keeps what the segments carry.
pub stored-Carries :
    (sent : ℕ → ℕ) (off lo hi : ℕ) (payload : List ℕ) (prev : Option Segment) (ss : List Segment)
    → Ordered lo hi (held prev ++ ss)
    → Agrees sent off payload
    → All (Carries sent) (held prev ++ ss)
    → All (Carries sent) (stored off payload prev ss)
stored-Carries sent off lo hi payload prev [] w h c =
    rw (stored-nil off payload prev)
      (fill-Carries sent off lo off hi payload prev [] (omega arith) w (unfold EndsAfter in _) h c)
stored-Carries sent off lo hi payload prev (s ∷ ss) w h c =
    let order = (Ordered-held lo hi prev s ss w).1 in
    let (before, from) = All-append_split (Carries sent) (held prev) (s ∷ ss) c in
    let later =
      stored-Carries sent off s.off hi payload (some s) ss (unfold held in order) h
        (unfold held in from) in
    rw (stored-cons off payload prev s ss) (elim (Bool-cases (leb (seg_end s) off)) [
      | inl e ↦
          rw e (All-append (Carries sent) (held prev) (stored off payload (some s) ss) before later)
      | inr e ↦ rw e (
          fill-Carries sent off lo off hi payload prev (s ∷ ss) (omega arith) w
            (unfold EndsAfter in ground (arith, e)) h c)
    ])
