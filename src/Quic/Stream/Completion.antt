-- ===== src/Quic/Stream/Completion.antt =====
-- core/quic_stream.go: a stream all of whose frames are taken in, in any order, is complete.
use alos_http.Prelude.{
  ℕ, ◌+◌, ◌≤◌, ◌<◌, ◌≡◌, refl, ◌==◌, Bool, true, false, ◌&&◌, ◌||◌, List, [], ◌∷◌, length, some,
  arith, All, ◌∙◌,
}
use alos_http.Server.Budget.{BodyBudget}
use alos_http.Quic.Stream.{RecvStream, Charge, Segment, seg_end, new_recv_stream}
use alos_http.Quic.Stream.Segments.Order.{Ordered}
use alos_http.Quic.Stream.Segments.Coverage.{between, has_byte}
use alos_http.Quic.Stream.Segments.Content.{Agrees}
use alos_http.Quic.Stream.Receive.{
  Received, received, ignored, violation, final_size_error, rejected, handle_stream_frame,
}
use alos_http.Quic.Stream.Reading.{read_all}
use alos_http.Quic.Stream.Receive.Coalesce.{Ahead, has_received}
use alos_http.Quic.Stream.Receive.Valid.{IsValid, new_recv_stream-IsValid}
use alos_http.Quic.Stream.Receive.Handled.{Handled, Accepts, handle_stream_frame-ValidHandled}
use alos_http.Quic.Stream.Genuine.{Genuine, Genuine-Handled}

-- A STREAM frame: its offset, its data, and whether they end the stream.
pub record StreamData : Type 0 where
  pub off : ℕ
  pub payload : List ℕ
  pub fin : Bool

abbrev pub data_end : StreamData → ℕ
data_end f = f.off + length f.payload

abbrev pub was_received : Received → Bool
was_received (received n e) = true
was_received ignored = false
was_received violation = false
was_received final_size_error = false
was_received rejected = false

module _ {B : Type 0} (budget : BodyBudget B) where
  -- Frames one after the other, and whether each of them is taken in.
  unfoldable pub run_frames : List StreamData → RecvStream → Charge B → Bool × RecvStream × Charge B
  run_frames [] s c = (true, s, c)
  run_frames (f ∷ fs) s c =
      let (answer, s', c') = handle_stream_frame budget s c f.off f.payload f.fin in
      let (later, s'', c'') = run_frames fs s' c' in (was_received answer && later, s'', c'')

-- Whether a frame has the byte at an offset.
unfoldable pub frames_cover : ℕ → List StreamData → Bool
frames_cover x [] = false
frames_cover x (f ∷ fs) = between f.off x (data_end f) || frames_cover x fs

-- Whether a frame ends the stream, at an offset.
unfoldable pub frames_end : ℕ → List StreamData → Bool
frames_end n [] = false
frames_end n (f ∷ fs) = (f.fin && data_end f == n) || frames_end n fs

-- What is known of a stream that took in frames: the peer's bytes in front and no others, the bytes
-- of the frames received, and the final size where it is known.
record Complete (sent : ℕ → ℕ) (s : RecvStream) : Type 0 where
  valid : IsValid s
  genuine : Genuine sent [] s
  ends : s.recv_fin_seen ≡ true → s.recv_fin_off ≤ s.recv_off → s.recv_fin ≡ true

module _ {B : Type 0} where
  accepts :
      (s : RecvStream) (off : ℕ) (payload : List ℕ) (fin : Bool)
      (t : Received × RecvStream × Charge B)
      → Handled s off payload fin t
      → was_received t.0 ≡ true
      → Accepts s off payload fin t.1
  unfolding Handled
  accepts s off payload fin (received n e, r, c) h k = h.0
  accepts s off payload fin (ignored, r, c) h k = absurd (cc)
  accepts s off payload fin (violation, r, c) h k = absurd (cc)
  accepts s off payload fin (final_size_error, r, c) h k = absurd (cc)
  accepts s off payload fin (rejected, r, c) h k = absurd (cc)

abbrev FrameFrom : (ℕ → ℕ) → StreamData → Type 0
FrameFrom sent f = Agrees sent f.off f.payload

-- The run, with the bytes it adds and the final size it finds.
record Ran (s : RecvStream) (fs : List StreamData) (r : RecvStream) : Type 0 where
  bytes :
      (x : ℕ)
      → has_received x r.recv_off r.recv_ooo
        ≡ (has_received x s.recv_off s.recv_ooo || frames_cover x fs)
  size_kept : s.recv_fin_seen ≡ true → (r.recv_fin_seen ≡ true) × (r.recv_fin_off ≡ s.recv_fin_off)
  size_found : (n : ℕ) → frames_end n fs ≡ true → (r.recv_fin_seen ≡ true) × (r.recv_fin_off ≡ n)

Ran-cons :
    (s t r : RecvStream) (f : StreamData) (fs : List StreamData)
    → Accepts s f.off f.payload f.fin t
    → Ran t fs r
    → Ran s (f ∷ fs) r
unfolding frames_cover frames_end
Ran-cons s t r f fs a k = record {
  bytes = λ x. ground (arith, a.receives x, k.bytes x);
  size_kept = λ e.
      let seen = a.seen in
      let size = a.size in
      let agreed = a.agreed in
      let kept = k.size_kept in ground (arith, e, seen, size, agreed, kept);
  size_found = λ n e.
      let seen = a.seen in
      let size = a.size in
      let kept = k.size_kept in
      let found = k.size_found n in ground (arith, e, seen, size, kept, found);
}

module _ {B : Type 0} (budget : BodyBudget B) where
  Complete-frame :
      (sent : ℕ → ℕ) (s : RecvStream) (c : Charge B) (f : StreamData)
      → FrameFrom sent f
      → Complete sent s
      → let (answer, t, c') = handle_stream_frame budget s c f.off f.payload f.fin in
        was_received answer ≡ true → Complete sent t × Accepts s f.off f.payload f.fin t
  Complete-frame sent s c f h k got =
      let t = handle_stream_frame budget s c f.off f.payload f.fin in
      let (v, handled) =
        handle_stream_frame-ValidHandled budget s c f.off f.payload f.fin k.valid in
      let a = accepts s f.off f.payload f.fin t handled got in
      (
        record {
          valid = v;
          genuine = Genuine-Handled sent [] s f.off f.payload f.fin t k.genuine h handled;
          ends = a.ends;
        },
        a,
      )

  run_frames-Ran :
      (sent : ℕ → ℕ) (fs : List StreamData) (s : RecvStream) (c : Charge B)
      → All (FrameFrom sent) fs
      → Complete sent s
      → (run_frames budget fs s c).0 ≡ true
      → Complete sent (run_frames budget fs s c).1 × Ran s fs (run_frames budget fs s c).1
  unfolding run_frames
  run_frames-Ran sent [] s c h k got = (
    k,
    unfold frames_cover frames_end in
        record {
          bytes = λ x. ground arith;
          size_kept = λ e. (e, refl);
          size_found = λ n e. absurd (cc);
        },
  )
  run_frames-Ran sent (f ∷ fs) s c h k got =
      let t = handle_stream_frame budget s c f.off f.payload f.fin in
      let first : was_received t.0 ≡ true = ground (arith, got) in
      let rest : (run_frames budget fs t.1 t.2).0 ≡ true = ground (arith, got) in
      let (k', a) = Complete-frame sent s c f h.0 k first in
      let (k'', later) = run_frames-Ran sent fs t.1 t.2 h.1 k' rest in
      (k'', Ran-cons s t.1 (run_frames budget fs t.1 t.2).1 f fs a later)

has_byte_below :
    (lo hi x : ℕ) (gs : List Segment) → Ordered lo hi gs → x < lo → has_byte x gs ≡ false
unfolding has_byte Ordered
has_byte_below lo hi x [] o lt = refl
has_byte_below lo hi x (g ∷ gs) o lt =
    let next = has_byte_below (seg_end g) hi x gs o.2 in ground (arith, next)

-- The segments of a sound stream do not have the byte at its offset.
has_byte-Ahead :
    (lo hi x : ℕ) (gs : List Segment) → Ordered lo hi gs → Ahead x gs → has_byte x gs ≡ false
unfolding has_byte Ordered Ahead
has_byte-Ahead lo hi x [] o a = refl
has_byte-Ahead lo hi x (g ∷ gs) o a =
    let next = has_byte_below (seg_end g) hi x gs o.2 in ground (arith, next)

-- A stream that received the first bytes, and knows that there are no others, has its offset there.
all_received :
    (n : ℕ) (r : RecvStream)
    → IsValid r
    → ((x : ℕ) → x < n → has_received x r.recv_off r.recv_ooo ≡ true)
    → r.recv_fin_seen ≡ true
    → r.recv_fin_off ≡ n
    → r.recv_off ≡ n
unfolding has_received
all_received n r v got seen size =
    let missing =
      has_byte-Ahead r.recv_off r.recv_max r.recv_off r.recv_ooo v.sound.ordered v.sound.ahead in
    let here = got r.recv_off in
    let top = v.final seen in
    let within = v.sound.within in ground (arith, missing, here, top, within, size)

read_all_ended : (r : RecvStream) → r.recv_fin ≡ true → (read_all r).0 ≡ some r.recv_buf
unfolding read_all
read_all_ended r e = ground (arith, e)

new-Complete :
    (sent : ℕ → ℕ) (window cap : ℕ) → window ≤ cap → Complete sent (new_recv_stream window cap)
unfolding new_recv_stream Agrees
new-Complete sent window cap le = record {
  valid = new_recv_stream-IsValid window cap le;
  genuine = record { prefix = _; exact = refl; carried = _ };
  ends = λ e le'. absurd (cc);
}

module _ {B : Type 0} (budget : BodyBudget B) where
  -- When a new stream takes in frames in any order that cover the first n bytes of what the peer sent,
  -- one of them ending the stream after n bytes, then reading all of it gives these n bytes at once.
  pub run_frames_completes :
      (sent : ℕ → ℕ) (n : ℕ) (fs : List StreamData) (window cap : ℕ) (c : Charge B)
      → window ≤ cap
      → All (FrameFrom sent) fs
      → (run_frames budget fs (new_recv_stream window cap) c).0 ≡ true
      → ((x : ℕ) → x < n → frames_cover x fs ≡ true)
      → frames_end n fs ≡ true
      → let r = (run_frames budget fs (new_recv_stream window cap) c).1 in
        (bytes : List ℕ) × ((read_all r).0 ≡ some bytes) × (length bytes ≡ n) × Agrees sent 0 bytes
  run_frames_completes sent n fs window cap c le h got covers end =
      let s = new_recv_stream window cap in
      let r : RecvStream = (run_frames budget fs s c).1 in
      let (k, ran) = run_frames-Ran budget sent fs s c h (new-Complete sent window cap le) got in
      let (seen, size) = ran.size_found n end in
      let bytes : (x : ℕ) → x < n → has_received x r.recv_off r.recv_ooo ≡ true =
        λ x lt. ran.bytes x ∙ (let all = covers x lt in ground (arith, all)) in
      let whole : r.recv_off ≡ n = all_received n r k.valid bytes seen size in
      let fin : r.recv_fin ≡ true = k.ends seen (omega (arith, whole, size)) in
      (r.recv_buf, read_all_ended r fin, k.genuine.exact ∙ whole, k.genuine.prefix)
