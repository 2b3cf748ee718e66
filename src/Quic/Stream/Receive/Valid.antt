-- ===== src/Quic/Stream/Receive/Valid.antt =====
-- core/quic_stream.go: what a valid stream is, and the ends of handleStreamFrame.
use alos_http.Prelude.{ℕ, ◌≤◌, ◌≡◌, refl, Bool, true, false, arith, ap}
use alos_http.Quic.Stream.{RecvStream, outstanding, violates_final_size, new_recv_stream}
use alos_http.Quic.Stream.Segments.Order.{Ordered, total, Ordered-raise}
use alos_http.Quic.Stream.Receive.{note_final_size, note_end_of_data, note_overflow}
use alos_http.Quic.Stream.Receive.Coalesce.{Ahead, kept}
use alos_http.Quic.Stream.Receive.Takes.{IsSound}

-- A sound stream within its credit and its cap, with no byte beyond a known final size, and at the
-- end of its data, unless they overflowed, only where that size is reached.
pub record IsValid (s : RecvStream) : Type 0 where
  pub sound : IsSound s
  pub credit : s.recv_max ≤ s.recv_granted
  pub cap : s.recv_granted ≤ s.max_recv
  pub final : s.recv_fin_seen ≡ true → s.recv_max ≤ s.recv_fin_off
  pub ended :
      s.recv_fin ≡ true
      → s.recv_overflow ≡ false
      → (s.recv_fin_seen ≡ true) × (s.recv_off ≡ s.recv_fin_off)

pub new_recv_stream-IsValid : (window cap : ℕ) → window ≤ cap → IsValid (new_recv_stream window cap)
unfolding new_recv_stream
new_recv_stream-IsValid window cap le = record {
  sound = record {
    within = omega arith;
    ordered = unfold Ordered in omega arith;
    ahead = unfold Ahead in _;
    counted = unfold total in refl;
    bounded = unfold outstanding in omega arith;
  };
  credit = omega arith;
  cap = le;
  final = λ e. cc;
  ended = λ e. cc;
}

-- The final size that a frame sets is that of every frame.
abbrev pub FinalSize : RecvStream → ℕ → Bool → Type 0
FinalSize s end fin =
    fin ≡ true → (s.recv_max ≤ end) × (s.recv_fin_seen ≡ true → end ≡ s.recv_fin_off)

abbrev pub finished : RecvStream → ℕ → Bool → RecvStream
finished r end fin = note_overflow (note_end_of_data (note_final_size r end fin))

pub finished-IsValid :
    (s r : RecvStream) (end : ℕ) (fin : Bool)
    → kept r ≡ kept s
    → IsValid s
    → s.recv_off ≤ r.recv_off
    → IsSound r
    → FinalSize s end fin
    → IsValid (finished r end fin)
unfolding note_overflow note_end_of_data note_final_size outstanding
finished-IsValid s r end fin same v grows w f =
    let max_same : r.recv_max ≡ s.recv_max = ap (λ t. t.recv_max) same in
    let granted_same : r.recv_granted ≡ s.recv_granted = ap (λ t. t.recv_granted) same in
    let cap_same : r.max_recv ≡ s.max_recv = ap (λ t. t.max_recv) same in
    let seen_same : r.recv_fin_seen ≡ s.recv_fin_seen = ap (λ t. t.recv_fin_seen) same in
    let size_same : r.recv_fin_off ≡ s.recv_fin_off = ap (λ t. t.recv_fin_off) same in
    let fin_same : r.recv_fin ≡ s.recv_fin = ap (λ t. t.recv_fin) same in
    let over_same : r.recv_overflow ≡ s.recv_overflow = ap (λ t. t.recv_overflow) same in
    let final = v.final in
    let ended = v.ended in
    let off_le = w.within in
    record {
      sound = record {
        within = w.within;
        ordered = w.ordered;
        ahead = w.ahead;
        counted = w.counted;
        bounded = w.bounded;
      };
      credit = omega (arith, max_same, granted_same, v.credit);
      cap = omega (arith, granted_same, cap_same, v.cap);
      final = λ e. ground (arith, e, f, final, max_same, seen_same, size_same);
      ended = λ e o. ground (
        arith, e, o, f, final, ended, max_same, seen_same, size_same, fin_same, over_same, off_le,
      );
    }

-- A stream whose credit a frame uses.
pub raised-IsValid :
    (s : RecvStream) (end : ℕ) (fin : Bool)
    → IsValid s
    → s.recv_max ≤ end
    → end ≤ s.recv_granted
    → violates_final_size s end fin ≡ false
    → IsValid (record s { recv_max = end })
unfolding violates_final_size outstanding
raised-IsValid s end fin v more le ok = record {
  sound = record {
    within = omega (arith, v.sound.within);
    ordered = Ordered-raise s.recv_off s.recv_max end s.recv_ooo v.sound.ordered more;
    ahead = v.sound.ahead;
    counted = v.sound.counted;
    bounded = v.sound.bounded;
  };
  credit = le;
  cap = v.cap;
  final = λ e. ground (arith, e, ok);
  ended = v.ended;
}

pub violates_final_size-FinalSize :
    (s : RecvStream) (end : ℕ) (fin : Bool)
    → IsValid s
    → violates_final_size s end fin ≡ false
    → FinalSize s end fin
unfolding violates_final_size
violates_final_size-FinalSize s end fin v ok e = let final = v.final in ground (arith, e, ok, final)

pub raised-FinalSize :
    (s : RecvStream) (end : ℕ) (fin : Bool)
    → violates_final_size s end fin ≡ false
    → FinalSize (record s { recv_max = end }) end fin
unfolding violates_final_size
raised-FinalSize s end fin ok e = ground (arith, e, ok)

-- A valid stream that a side closes.
pub closed-IsValid : (s : RecvStream) → IsValid s → IsValid (record s { recv_closed = true })
unfolding outstanding
closed-IsValid s v = record {
  sound = record {
    within = v.sound.within;
    ordered = v.sound.ordered;
    ahead = v.sound.ahead;
    counted = v.sound.counted;
    bounded = v.sound.bounded;
  };
  credit = v.credit;
  cap = v.cap;
  final = v.final;
  ended = v.ended;
}
