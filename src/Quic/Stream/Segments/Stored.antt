-- ===== src/Quic/Stream/Segments/Stored.antt =====
-- core/quic_stream.go: the segments with a frame stored among them, from its place on.
use alos_http.Prelude.{
  ℕ, ◌+◌, ◌≤◌, ◌<◌, ◌≡◌, refl, ltb, leb, Bool, false, List, [], ◌∷◌, ◌++◌, length, if◌then◌else◌,
  Option, some, arith, ap, sym, ◌∙◌, append-nil, Bool-cases, inl, inr, leb→le, append_assoc,
}
use alos_http.Quic.Stream.{Segment, seg_end}
use alos_http.Quic.Stream.Segments.{
  held, Place, first_ending_after, count_gap, ooo_new_bytes, fill_gap, fill, filled,
}
use alos_http.Quic.Stream.Segments.Order.{
  Ordered, total, Ordered-append, Ordered-held, EndsAfter, fill-Ordered, fill-total, total-append,
  count_gap_new,
}

-- The segments with a frame stored among them, from a place on that is searched for.
unfoldable pub stored : ℕ → List ℕ → Option Segment → List Segment → List Segment
stored off payload prev ss = filled off payload (first_ending_after off prev ss)

pub stored-nil :
    (off : ℕ) (payload : List ℕ) (prev : Option Segment)
    → stored off payload prev [] ≡ fill off payload off prev []
unfolding stored filled first_ending_after
stored-nil off payload prev = refl

-- The search goes on behind a segment that ends before the frame, or ends in front of it.
pub stored-cons :
    (off : ℕ) (payload : List ℕ) (prev : Option Segment) (s : Segment) (ss : List Segment)
    → stored off payload prev (s ∷ ss) ≡ (
        if leb (seg_end s) off
        then held prev ++ stored off payload (some s) ss
        else fill off payload off prev (s ∷ ss))
unfolding stored filled first_ending_after
stored-cons off payload prev s ss =
    let later = first_ending_after off (some s) ss in
    let from = fill off payload off later.prev later.after in
    elim (Bool-cases (leb (seg_end s) off)) [
      | inl e ↦ rw e (append_assoc (held prev) later.front from)
      | inr e ↦ rw e refl
    ]

pub stored-Ordered :
    (off lo hi m : ℕ) (payload : List ℕ) (prev : Option Segment) (ss : List Segment)
    → 0 < length payload
    → Ordered lo off (held prev)
    → Ordered lo hi (held prev ++ ss)
    → hi ≤ m
    → off + length payload ≤ m
    → Ordered lo m (stored off payload prev ss)
stored-Ordered off lo hi m payload prev [] some_bytes h w hm em = rw (stored-nil off payload prev) (
    fill-Ordered off lo off hi m payload prev [] (omega arith) (omega arith) h w
      (unfold EndsAfter in _) hm em)
stored-Ordered off lo hi m payload prev (s ∷ ss) some_bytes h w hm em =
    let (before, from) = Ordered-held lo hi prev s ss w in
    rw (stored-cons off payload prev s ss) (elim (Bool-cases (leb (seg_end s) off)) [
      | inl e ↦ rw e (
          Ordered-append lo s.off m (held prev) (stored off payload (some s) ss) before (
            stored-Ordered off s.off hi m payload (some s) ss some_bytes
              (unfold Ordered held in (omega arith, from.1, leb→le (seg_end s) off e))
              (unfold held in from) hm em))
      | inr e ↦ rw e (
          fill-Ordered off lo off hi m payload prev (s ∷ ss) (omega arith) (omega arith) h w
            (unfold EndsAfter in ground (arith, e)) hm em)
    ])

-- The new bytes of a frame, counted from a place on.
unfoldable pub fresh_from : ℕ → ℕ → Place → ℕ
fresh_from off end p = (ooo_new_bytes off end p.prev off p.after (0, false)).0

fresh_from-cons :
    (off end : ℕ) (prev : Option Segment) (s : Segment) (ss : List Segment)
    → fresh_from off end (first_ending_after off prev (s ∷ ss)) ≡ (
        if leb (seg_end s) off
        then fresh_from off end (first_ending_after off (some s) ss)
        else (ooo_new_bytes off end prev off (s ∷ ss) (0, false)).0)
unfolding fresh_from first_ending_after
fresh_from-cons off end prev s ss = elim (Bool-cases (leb (seg_end s) off)) [
  | inl e ↦ rw e refl
  | inr e ↦ rw e refl
]

-- The bytes in the segments grow by the new ones.
pub stored-total :
    (off lo hi : ℕ) (payload : List ℕ) (prev : Option Segment) (ss : List Segment)
    → 0 < length payload
    → Ordered lo hi (held prev ++ ss)
    → total (stored off payload prev ss)
      ≡ total (held prev ++ ss)
        + fresh_from off (off + length payload) (first_ending_after off prev ss)
stored-total off lo hi payload prev [] some_bytes w =
    unfold stored filled first_ending_after fresh_from in
    omega (
      arith,
      total-append (held prev) [],
      fill-total off lo off hi payload prev [] (0, false) prev (omega arith) (omega arith) w
          (unfold EndsAfter in _),
    )
stored-total off lo hi payload prev (s ∷ ss) some_bytes w =
    let end = off + length payload in
    let (before, from) = Ordered-held lo hi prev s ss w in
    let later = stored-total off s.off hi payload (some s) ss some_bytes (unfold held in from) in
    let past : total (held (some s) ++ ss) ≡ total (s ∷ ss) = unfold held in refl in
    let whole = total-append (held prev) (s ∷ ss) in
    rw (stored-cons off payload prev s ss, fresh_from-cons off end prev s ss)
      (elim (Bool-cases (leb (seg_end s) off)) [
        | inl e ↦ rw e (
            omega (
              arith,
              later,
              past,
              whole,
              total-append (held prev) (stored off payload (some s) ss),
            ))
        | inr e ↦ rw e (
            omega (
              arith,
              whole,
              fill-total off lo off hi payload prev (s ∷ ss) (0, false) prev (omega arith)
                  (omega arith) w (unfold EndsAfter in ground (arith, e)),
            ))
      ])

new_bytes-grow :
    (off end : ℕ) (first : Option Segment) (pos : ℕ) (ss : List Segment) (acc : ℕ × Bool)
    → acc.0 ≤ (ooo_new_bytes off end first pos ss acc).0
unfolding ooo_new_bytes
new_bytes-grow off end first pos [] acc = omega (arith, count_gap_new off pos end first acc)
new_bytes-grow off end first pos (s ∷ ss) acc =
    let acc' = count_gap off first pos s.off acc in
    ground (
      arith,
      new_bytes-grow off end first (seg_end s) ss acc',
      count_gap_new off pos s.off first acc,
      count_gap_new off pos end first acc,
    )

fill_gap-closed :
    (off pos gap_end : ℕ) (payload : List ℕ) (prev : Option Segment)
    → gap_end ≤ pos
    → fill_gap off payload pos gap_end prev ≡ held prev
unfolding fill_gap
fill_gap-closed off pos gap_end payload prev h =
    let no_gap : ltb pos gap_end ≡ false = ground arith in rw no_gap refl

-- A frame without a new byte changes no segment.
fill-same :
    (off pos : ℕ) (payload : List ℕ) (prev first : Option Segment) (ss : List Segment)
    (acc : ℕ × Bool)
    → (ooo_new_bytes off (off + length payload) first pos ss acc).0 ≡ acc.0
    → fill off payload pos prev ss ≡ held prev ++ ss
unfolding ooo_new_bytes fill held
fill-same off pos payload prev first [] acc e =
    let end = off + length payload in
    fill_gap-closed off pos end payload prev (omega (arith, count_gap_new off pos end first acc))
    ∙ sym (append-nil (held prev))
fill-same off pos payload prev first (s ∷ ss) acc e =
    let end = off + length payload in
    let gap = count_gap off first pos s.off acc in
    let later = fill-same off (seg_end s) payload (some s) first ss gap in
    let here = fill_gap-closed off pos s.off payload prev in
    let last = fill_gap-closed off pos end payload prev in
    let at_end = count_gap_new off pos end first acc in
    let at_gap = count_gap_new off pos s.off first acc in
    let more = new_bytes-grow off end first (seg_end s) ss gap in
    elim (Bool-cases (leb end s.off)) [
      | inl b ↦ rw b (ap (λ l. l ++ (s ∷ ss)) (last (ground (arith, b, e, at_end))))
      | inr b ↦ elim (Bool-cases (ltb (seg_end s) end)) [
        | inl b' ↦
            let closed : s.off ≤ pos = ground (arith, b, b', e, at_gap, more) in
            let rest : fill off payload (seg_end s) (some s) ss ≡ s ∷ ss =
              later (ground (arith, b, b', e, at_gap, more)) in
            rw (b, b') (rw (here closed, rest) refl)
        | inr b' ↦ rw (b, b') (ap (λ l. l ++ (s ∷ ss)) (here (ground (arith, b, b', e, at_gap))))
      ]
    ]

pub stored-same :
    (off : ℕ) (payload : List ℕ) (prev : Option Segment) (ss : List Segment)
    → fresh_from off (off + length payload) (first_ending_after off prev ss) ≡ 0
    → stored off payload prev ss ≡ held prev ++ ss
unfolding held
stored-same off payload prev [] e =
    stored-nil off payload prev
    ∙ unfold fresh_from first_ending_after in fill-same off off payload prev prev [] (0, false) e
stored-same off payload prev (s ∷ ss) e =
    let counted = fresh_from-cons off (off + length payload) prev s ss in
    stored-cons off payload prev s ss ∙ (elim (Bool-cases (leb (seg_end s) off)) [
      | inl b ↦
          let none_later = sym (rw b at counted) ∙ e in
          let later : stored off payload (some s) ss ≡ s ∷ ss =
            stored-same off payload (some s) ss none_later in
          rw b (ap (λ l. held prev ++ l) later)
      | inr b ↦
          rw b (fill-same off off payload prev prev (s ∷ ss) (0, false) (sym (rw b at counted) ∙ e))
    ])
