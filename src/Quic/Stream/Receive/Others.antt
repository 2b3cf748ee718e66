-- ===== src/Quic/Stream/Receive/Others.antt =====
-- core/quic_stream.go: reads, credits and resets keep a stream valid.
use alos_http.Prelude.{
  ℕ, ◌+◌, ◌-◌, ◌/◌, ◌≤◌, ◌≡◌, refl, min, max, ltb, leb, ◌==◌, Bool, true, false, not, ◌&&◌, ◌||◌,
  List, [], ◌∷◌, length, drop, if◌then◌else◌, arith, Bool-cases, inl, inr, length-drop, ok, add64,
}
use alos_http.Quic.Stream.{RecvStream, Charge, Segment, seg_end, outstanding, violates_final_size}
use alos_http.Quic.Stream.Segments.Order.{Ordered, total}
use alos_http.Quic.Stream.Receive.{consume_recv_flow_credit}
use alos_http.Quic.Stream.Reading.{
  read, read_all, stream_credit_to_grant, apply_peer_reset, reset_once, received_extent,
  highest_received,
}
use alos_http.Quic.Stream.Receive.Valid.{IsValid, raised-IsValid}

pub rest-IsValid :
    (s : RecvStream) (rest : List ℕ)
    → length rest ≤ length s.recv_buf
    → IsValid s
    → IsValid (record s { recv_buf = rest })
unfolding outstanding
rest-IsValid s rest le v = record {
  sound = record {
    within = v.sound.within;
    ordered = v.sound.ordered;
    ahead = v.sound.ahead;
    counted = v.sound.counted;
    bounded = let room = v.sound.bounded in omega (arith, room);
  };
  credit = v.credit;
  cap = v.cap;
  final = v.final;
  ended = v.ended;
}

pub read-IsValid : (s : RecvStream) (n : ℕ) → IsValid s → IsValid (read s n).1
unfolding read
read-IsValid s n v =
    let rest = rest-IsValid s (drop n s.recv_buf) (omega (arith, length-drop n s.recv_buf)) v in
    elim (Bool-cases (ltb 0 (length s.recv_buf))) [
      | inl e ↦ rw e rest
      | inr e ↦ elim (Bool-cases (s.recv_fin || s.recv_closed)) [
        | inl f ↦ rw (e, f) v
        | inr f ↦ rw (e, f) v
      ]
    ]

pub read_all-IsValid : (s : RecvStream) → IsValid s → IsValid (read_all s).1
unfolding read_all
read_all-IsValid s v = elim (Bool-cases (s.recv_fin || s.recv_closed)) [
  | inl e ↦ rw e (rest-IsValid s [] (omega arith) v)
  | inr e ↦ rw e v
]

granted-IsValid :
    (s : RecvStream) (grant : ℕ)
    → s.recv_granted ≤ grant
    → grant ≤ s.max_recv
    → IsValid s
    → IsValid (record s { recv_granted = grant })
unfolding outstanding
granted-IsValid s grant more le v = record {
  sound = record {
    within = v.sound.within;
    ordered = v.sound.ordered;
    ahead = v.sound.ahead;
    counted = v.sound.counted;
    bounded = v.sound.bounded;
  };
  credit = omega (arith, v.credit);
  cap = le;
  final = v.final;
  ended = v.ended;
}

-- The bytes that a stream has, received in order or ahead.
abbrev pub bytes_of : RecvStream → List ℕ × List Segment × ℕ
bytes_of s = (s.recv_buf, s.recv_ooo, s.recv_off)

-- A valid stream with the bytes of another one.
abbrev pub Steady : RecvStream → RecvStream → Type 0
Steady s r = IsValid r × (bytes_of r ≡ bytes_of s)

pub stream_credit_to_grant-Steady :
    (s : RecvStream) → IsValid s → Steady s (stream_credit_to_grant s).1
unfolding stream_credit_to_grant
stream_credit_to_grant-Steady s v =
    let grant = min (s.recv_off + s.recv_window) s.max_recv in
    let enough =
      s.recv_fin_seen
      || leb s.max_recv s.recv_granted
      || leb (s.recv_off + s.recv_window / 2) s.recv_granted in
    elim (Bool-cases enough) [
      | inl e ↦ rw e (v, refl)
      | inr e ↦ rw e (granted-IsValid s grant (ground (arith, e)) (omega arith) v, refl)
    ]

reset-IsValid :
    (s : RecvStream) (size : ℕ)
    → s.recv_max ≤ size
    → (s.recv_fin_seen ≡ true → size ≡ s.recv_fin_off)
    → IsValid s
    → IsValid (record s {
      recv_reset = true;
      recv_fin_seen = true;
      recv_fin_off = size;
      recv_closed = true;
    })
unfolding outstanding
reset-IsValid s size le same v = record {
  sound = record {
    within = v.sound.within;
    ordered = v.sound.ordered;
    ahead = v.sound.ahead;
    counted = v.sound.counted;
    bounded = v.sound.bounded;
  };
  credit = v.credit;
  cap = v.cap;
  final = λ e. le;
  ended = λ e o. let end = v.ended e o in let eq = same end.0 in (refl, omega (arith, end.1, eq));
}

if-Steady {ℓ} :
    {A : Type ℓ} (b : Bool) (x y : A × RecvStream) (s : RecvStream)
    → Steady s x.1
    → Steady s y.1
    → Steady s (if b then x else y).1
if-Steady true x y s v w = v
if-Steady false x y s v w = w

reset_once-Steady :
    (s : RecvStream) (size : ℕ)
    → s.recv_max ≤ size
    → (s.recv_fin_seen ≡ true → size ≡ s.recv_fin_off)
    → IsValid s
    → Steady s (reset_once s size).1
unfolding reset_once
reset_once-Steady s size le same v =
    if-Steady s.recv_reset (ok 0, s) _ s (v, refl) (reset-IsValid s size le same v, refl)

module _ {B : Type 0} where
  pub apply_peer_reset-Steady :
      (s : RecvStream) (c : Charge B) (size : ℕ)
      → IsValid s
      → Steady s (apply_peer_reset s c size).1
  unfolding apply_peer_reset consume_recv_flow_credit
  apply_peer_reset-Steady s c size v =
      let wrong =
        (s.recv_fin_seen && not (size == s.recv_fin_off))
        || ltb size (max (received_extent s).0 s.recv_max) in
      let within = leb (add64 c.flow_used (size - s.recv_max)) c.flow_limit in
      elim (Bool-cases wrong) [
        | inl a ↦ rw a (v, refl)
        | inr a ↦
            let same : s.recv_fin_seen ≡ true → size ≡ s.recv_fin_off = λ e. ground (arith, a, e) in
            let top : s.recv_max ≤ size = ground (arith, a) in
            elim (Bool-cases (ltb s.recv_granted size)) [
              | inl b ↦ rw (a, b) (v, refl)
              | inr b ↦ elim (Bool-cases (ltb s.recv_max size)) [
                | inr e ↦ rw (a, b, e) (reset_once-Steady s size top same v)
                | inl e ↦ elim (Bool-cases within) [
                  | inr f ↦ rw (a, b, e, f) (v, refl)
                  | inl f ↦
                      let s' : RecvStream = record s { recv_max = size } in
                      let ok_size : violates_final_size s size false ≡ false =
                        unfold violates_final_size in ground (arith, same) in
                      let v' = raised-IsValid s size false v top (ground (arith, b)) ok_size in
                      rw (a, b, e, f) (reset_once-Steady s' size (omega arith) same v')
                ]
              ]
            ]
      ]

-- Segments in order have no more bytes than lie below the end of the last one.
total-highest :
    (lo hi : ℕ) (gs : List Segment) → Ordered lo hi gs → lo + total gs ≤ highest_received lo gs
unfolding Ordered total highest_received
total-highest lo hi [] o = omega arith
total-highest lo hi (g ∷ gs) o = omega (arith, total-highest (seg_end g) hi gs o.2)

module _ {B : Type 0} where
  -- The first reset that a valid stream accepts reports the bytes of the final size that were never
  -- received: they and the different bytes received make up the final size.
  pub apply_peer_reset_uncounted :
      (s : RecvStream) (c : Charge B) (size uncounted : ℕ)
      → IsValid s
      → s.recv_reset ≡ false
      → (apply_peer_reset s c size).0 ≡ ok uncounted
      → uncounted + (s.recv_off + s.ooo_bytes) ≡ size
  unfolding apply_peer_reset received_extent reset_once
  apply_peer_reset_uncounted s c size uncounted v fresh e =
      let extent = total-highest s.recv_off s.recv_max s.recv_ooo v.sound.ordered in
      let counted = v.sound.counted in ground (arith, e, fresh, extent, counted)
