-- ===== src/Quic/Stream/Receive/Takes.antt =====
-- core/quic_stream.go: what a frame's data do to a stream, whether they are next, ahead, or old.
use alos_http.Prelude.{
  ℕ, suc, ◌+◌, ◌-◌, ◌≤◌, ◌<◌, ◌≡◌, refl, leb, ◌==◌, true, ◌||◌, List, [], ◌∷◌, ◌++◌, length, drop,
  none, arith, length-append, length-drop, All, ◌∙◌, sym, ap, append-nil,
}
use alos_http.Server.Budget.{BodyBudget}
use alos_http.Quic.Stream.{RecvStream, Charge, Segment, outstanding}
use alos_http.Quic.Stream.Segments.{held, first_ending_after}
use alos_http.Quic.Stream.Segments.Order.{Ordered, total, Ordered-le, Ordered-lower}
use alos_http.Quic.Stream.Segments.Stored.{stored, stored-Ordered, stored-total, fresh_from}
use alos_http.Quic.Stream.Segments.Coverage.{stored-has_byte, between}
use alos_http.Quic.Stream.Segments.Content.{Agrees, Carries, Agrees-drop_to, stored-Carries}
use alos_http.Quic.Stream.Receive.Coalesce.{
  Ahead, kept, has_received, Delivers, Delivers-trans, joined, coalesce_ooo-kept,
  coalesce_ooo-Ordered, coalesce_ooo-counted, coalesce_ooo-has_received, coalesce_ooo-Delivers,
}

-- The segments lie in order beyond the offset, `oooBytes` counts their bytes, and what the stream
-- keeps fits its cap.
pub record IsSound (s : RecvStream) : Type 0 where
  pub within : s.recv_off ≤ s.recv_max
  pub ordered : Ordered s.recv_off s.recv_max s.recv_ooo
  pub ahead : Ahead s.recv_off s.recv_ooo
  pub counted : s.ooo_bytes ≡ total s.recv_ooo
  pub bounded : outstanding s ≤ s.max_recv

-- A stream with the data of a frame taken in.
pub record Takes (s : RecvStream) (off : ℕ) (payload : List ℕ) (r : RecvStream) : Type 0 where
  pub keeps : kept r ≡ kept s
  pub grows : s.recv_off ≤ r.recv_off
  pub sound : IsSound r
  pub received :
      (x : ℕ)
      → has_received x r.recv_off r.recv_ooo
        ≡ (has_received x s.recv_off s.recv_ooo || between off x (off + length payload))
  pub delivers :
      (sent : ℕ → ℕ)
      → Agrees sent off payload
      → All (Carries sent) s.recv_ooo
      → Delivers sent s r × All (Carries sent) r.recv_ooo

pub Delivers-refl : (sent : ℕ → ℕ) (s : RecvStream) → Delivers sent s s
unfolding Delivers Agrees
Delivers-refl sent s = ([], sym (append-nil s.recv_buf), _, omega arith)

module _ {B : Type 0} (budget : BodyBudget B) where
  -- Data that come next, and the segments that they reach.
  pub joined-Takes :
      (s : RecvStream) (c : Charge B) (payload : List ℕ)
      → IsSound s
      → s.recv_off + length payload ≤ s.recv_max
      → outstanding s + length payload ≤ s.max_recv
      → let s' = record s {
        recv_buf = s.recv_buf ++ payload;
        recv_off = s.recv_off + length payload;
      } in
        Takes s s.recv_off payload (joined budget s' c s.recv_ooo)
  joined-Takes s c payload v le room =
      let s' : RecvStream = record s {
        recv_buf = s.recv_buf ++ payload;
        recv_off = s.recv_off + length payload;
      } in
      let r : RecvStream = joined budget s' c s.recv_ooo in
      let same : kept r ≡ kept s = coalesce_ooo-kept budget s' c s.recv_ooo in
      let order = coalesce_ooo-Ordered budget s' c s.recv_off s.recv_max s.recv_ooo le v.ordered in
      let count = coalesce_ooo-counted budget s' c s.recv_ooo v.counted in
      let top : r.recv_max ≡ s.recv_max = ap (λ t. t.recv_max) same in
      let cap : r.max_recv ≡ s.max_recv = ap (λ t. t.max_recv) same in
      let bytes = λ (x : ℕ).
        coalesce_ooo-has_received budget x s' c s.recv_off s.recv_max s.recv_ooo v.ordered in
      record {
        keeps = same;
        grows = omega (arith, order.0);
        sound = record {
          within = rw top (Ordered-le r.recv_off s.recv_max r.recv_ooo order.1);
          ordered = rw top order.1;
          ahead = order.2;
          counted = count.0;
          bounded =
              rw cap
                (unfold outstanding in omega (arith, count.1, length-append s.recv_buf payload));
        };
        received = λ x. (bytes x ∙ unfold has_received in ground arith);
        delivers = λ sent h c'.
            let (d, all) = coalesce_ooo-Delivers budget sent s' c s.recv_ooo c' in
            (Delivers-trans sent s s' r (unfold Delivers in (payload, refl, h, refl)) d, all);
      }

-- Being ahead is being in order from the next offset on.
Ahead-Ordered :
    (off hi : ℕ) (ss : List Segment)
    → Ordered off hi ss
    → Ahead off ss
    → off < hi
    → Ordered (suc off) hi ss
unfolding Ahead Ordered
Ahead-Ordered off hi [] o a lt = omega arith
Ahead-Ordered off hi (s ∷ ss) o a lt = (omega arith, o.1, o.2)

Ordered-Ahead : (off hi : ℕ) (ss : List Segment) → Ordered (suc off) hi ss → Ahead off ss
unfolding Ahead Ordered
Ordered-Ahead off hi [] o = _
Ordered-Ahead off hi (s ∷ ss) o = omega arith

-- Data that lie ahead.
pub stored-Takes :
    (s : RecvStream) (off : ℕ) (payload : List ℕ)
    → IsSound s
    → s.recv_off < off
    → 0 < length payload
    → off + length payload ≤ s.recv_max
    → let fresh = fresh_from off (off + length payload) (first_ending_after off none s.recv_ooo) in
      outstanding s + fresh ≤ s.max_recv
      → Takes s off payload (record s {
        recv_ooo = stored off payload none s.recv_ooo;
        ooo_bytes = s.ooo_bytes + fresh;
      })
unfolding has_received Delivers held outstanding
stored-Takes s off payload v lt some_bytes le room =
    let fresh = fresh_from off (off + length payload) (first_ending_after off none s.recv_ooo) in
    let grown =
      stored-total off s.recv_off s.recv_max payload none s.recv_ooo some_bytes
        (unfold held in v.ordered) in
    let from : Ordered (suc s.recv_off) s.recv_max s.recv_ooo =
      Ahead-Ordered s.recv_off s.recv_max s.recv_ooo v.ordered v.ahead (omega arith) in
    let order : Ordered (suc s.recv_off) s.recv_max (stored off payload none s.recv_ooo) =
      stored-Ordered off (suc s.recv_off) s.recv_max s.recv_max payload none s.recv_ooo some_bytes
        (unfold held Ordered in omega arith) (unfold held in from) (omega arith) le in
    record {
      keeps = refl;
      grows = omega arith;
      sound = record {
        within = v.within;
        ordered =
            Ordered-lower (suc s.recv_off) s.recv_off s.recv_max
              (stored off payload none s.recv_ooo) order (omega arith);
        ahead = Ordered-Ahead s.recv_off s.recv_max (stored off payload none s.recv_ooo) order;
        counted = rw grown (unfold held in omega (arith, v.counted));
        bounded = unfold outstanding in omega (arith, room);
      };
      received = λ x.
          rw
            (stored-has_byte x off s.recv_off s.recv_max payload none s.recv_ooo some_bytes
              (unfold held in v.ordered))
            (ground arith);
      delivers = λ sent h c. (
        Delivers-refl sent s,
        stored-Carries sent off s.recv_off s.recv_max payload none s.recv_ooo
            (unfold held in v.ordered) h (unfold held in c),
      );
    }

-- Data that bring nothing new.
pub old-Takes :
    (s : RecvStream) (off : ℕ) (payload : List ℕ)
    → IsSound s
    → (length payload == 0 || leb (off + length payload) s.recv_off) ≡ true
    → Takes s off payload s
unfolding has_received
old-Takes s off payload v old = record {
  keeps = refl;
  grows = omega arith;
  sound = v;
  received = λ x. ground arith;
  delivers = λ sent h c. (Delivers-refl sent s, c);
}

-- A frame that begins below the offset gives what it has from the offset on.
pub trimmed-Takes :
    (s : RecvStream) (off : ℕ) (payload : List ℕ) (r : RecvStream)
    → off ≤ s.recv_off
    → s.recv_off ≤ off + length payload
    → Takes s s.recv_off (drop (s.recv_off - off) payload) r
    → Takes s off payload r
unfolding has_received
trimmed-Takes s off payload r le gt t =
    let size : s.recv_off + length (drop (s.recv_off - off) payload) ≡ off + length payload =
      omega (arith, length-drop (s.recv_off - off) payload) in
    record {
      keeps = t.keeps;
      grows = t.grows;
      sound = t.sound;
      received = λ x. ground (arith, size, t.received x);
      delivers = λ sent h c. t.delivers sent (Agrees-drop_to sent off s.recv_off payload h le) c;
    }
