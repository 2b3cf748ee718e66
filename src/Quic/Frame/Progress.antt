-- ===== src/Quic/Frame/Progress.antt =====
-- core/quic_frame.go: the parser ends on every packet, and it keeps to what the space allows.
use alos_http.Prelude.{
  ℕ, zero, suc, ◌≤◌, ◌≢◌, Bool, true, false, not, List, [], ◌∷◌, length, Option, none, some, Result,
  ok, err, arith, length-drop, Bool-cases, inl, inr, if◌then◌else◌, ◌||◌,
}
use alos_http.Quic.Varint.{parse_varint}
use alos_http.Quic.Frame.{FrameError, unknown_frame, not_allowed_in_space, stuck, is_probing_frame}
use alos_http.Quic.Frame.Parse.{
  Parser, ◌>>=◌, return, fail, read_varint, read_bytes, read_rest, parse_stream, parse_ack,
  parse_conn_close, parse_new_conn_id, read_offset, read_payload, read_close_type, read_cid_len,
  check_range_count, parse_ack_ranges, skip_ecn_counts,
}
use alos_http.Quic.Frame.Loop.{
  parse_body, parse_loop, parse_frames, parse_one, parse_typed, refused, Outcome, Round, goes_on,
  stops, stop, cons_event, body_crypto, body_max_stream_data, body_reset_stream, body_stop_sending,
  body_new_token,
}

-- The rest is no longer than the input, and no error is the model's own.
abbrev Tame {ℓ} : {A : Type ℓ} → ℕ → Result FrameError (A × List ℕ) → Type 0
Tame n (ok (a, rest)) = length rest ≤ n
Tame n (err e) = e ≢ stuck

record IsTame {ℓ} {A : Type ℓ} (p : Parser A) : Type ℓ where
  on : (src : List ℕ) → Tame (length src) (p src)

Tame-mono {ℓ} :
    {A : Type ℓ} (n m : ℕ) (r : Result FrameError (A × List ℕ)) → Tame n r → n ≤ m → Tame m r
Tame-mono n m (ok (a, rest)) h le = omega arith
Tame-mono n m (err e) h le = h

bind-IsTame {ℓ κ} :
    {A : Type ℓ} {B : Type κ} (m : Parser A) (f : A → Parser B)
    → IsTame m
    → ((a : A) → IsTame (f a))
    → IsTame (m >>= f)
bind-IsTame {A} {B} m f h k = record { on = λ src. from (length src) (m src) (h.on src) }
  where
    from :
        (n : ℕ) (r : Result FrameError (A × List ℕ))
        → Tame n r
        → Tame n (elim r as (λ _. Result FrameError (B × List ℕ)) [
          | ok (a, rest) ↦ f a rest
          | err e ↦ err e
        ])
    from n (ok (a, rest)) h = Tame-mono (length rest) n (f a rest) ((k a).on rest) h
    from n (err e) h = h

return-IsTame {ℓ} : {A : Type ℓ} (a : A) → IsTame (return a)
return-IsTame a = record { on = λ src. omega arith }

read_varint-IsTame : IsTame read_varint
unfolding read_varint
read_varint-IsTame = record { on = λ src. ground (arith, length-drop (parse_varint src).1 src) }

read_bytes-IsTame : (n : ℕ) → IsTame (read_bytes n)
unfolding read_bytes
read_bytes-IsTame n = record { on = λ src. ground (arith, length-drop n src) }

ruleset tame = (bind-IsTame, return-IsTame, read_varint-IsTame, read_bytes-IsTame)

body_crypto-IsTame : IsTame body_crypto
unfolding body_crypto
body_crypto-IsTame = search tame depth 12

body_new_token-IsTame : IsTame body_new_token
unfolding body_new_token
body_new_token-IsTame = search tame depth 12

body_max_stream_data-IsTame : IsTame body_max_stream_data
unfolding body_max_stream_data
body_max_stream_data-IsTame = search tame depth 12

body_reset_stream-IsTame : IsTame body_reset_stream
unfolding body_reset_stream
body_reset_stream-IsTame = search tame depth 12

body_stop_sending-IsTame : IsTame body_stop_sending
unfolding body_stop_sending
body_stop_sending-IsTame = search tame depth 12

parse_ack_ranges-IsTame : (n : ℕ) → IsTame (parse_ack_ranges n)
unfolding parse_ack_ranges
parse_ack_ranges-IsTame zero = search tame
parse_ack_ranges-IsTame (suc n) = bind-IsTame _ _ read_varint-IsTame λ gap.
    bind-IsTame _ _ read_varint-IsTame
      λ count. bind-IsTame _ _ (parse_ack_ranges-IsTame n) λ ranges. return-IsTame _

check_range_count-IsTame : (n : ℕ) → IsTame (check_range_count n)
unfolding check_range_count
check_range_count-IsTame n = record { on = λ src. ground arith }

skip_ecn_counts-IsTame : (ecn : Bool) → IsTame (skip_ecn_counts ecn)
unfolding skip_ecn_counts
skip_ecn_counts-IsTame true = search tame depth 12
skip_ecn_counts-IsTame false = search tame depth 12

parse_ack-IsTame : (ecn : Bool) → IsTame (parse_ack ecn)
unfolding parse_ack
parse_ack-IsTame ecn =
    search (tame, check_range_count-IsTame, parse_ack_ranges-IsTame, skip_ecn_counts-IsTame) depth
      20

read_offset-IsTame : (flags : ℕ) → IsTame (read_offset flags)
unfolding read_offset
read_offset-IsTame flags = record { on = λ src. ground (arith, read_varint-IsTame.on src) }

payload-IsTame : IsTame (read_varint >>= λ n. read_bytes n)
payload-IsTame = search tame depth 12

read_payload-IsTame : (flags : ℕ) → IsTame (read_payload flags)
unfolding read_payload read_rest
read_payload-IsTame flags = record { on = λ src. ground (arith, payload-IsTame.on src) }

parse_stream-IsTame : (flags : ℕ) → IsTame (parse_stream flags)
unfolding parse_stream
parse_stream-IsTame flags = search (tame, read_offset-IsTame, read_payload-IsTame) depth 12

read_close_type-IsTame : (is_app : Bool) → IsTame (read_close_type is_app)
unfolding read_close_type
read_close_type-IsTame true = search tame
read_close_type-IsTame false = search tame

parse_conn_close-IsTame : (is_app : Bool) → IsTame (parse_conn_close is_app)
unfolding parse_conn_close
parse_conn_close-IsTame is_app = search (tame, read_close_type-IsTame) depth 12

read_cid_len-IsTame : IsTame read_cid_len
unfolding read_cid_len
read_cid_len-IsTame = record { on = λ src. cases src }
  where
    cases : (src : List ℕ) → Tame (length src) (read_cid_len src)
    cases [] = ground arith
    cases (n ∷ rest) = ground arith

parse_new_conn_id-IsTame : IsTame parse_new_conn_id
unfolding parse_new_conn_id
parse_new_conn_id-IsTame = search (tame, read_cid_len-IsTame) depth 12

if-IsTame {ℓ} :
    {A : Type ℓ} (b : Bool) (p q : Parser A) → IsTame p → IsTame q → IsTame (if b then p else q)
if-IsTame true p q h k = h
if-IsTame false p q h k = k

fail-IsTame {ℓ} : {A : Type ℓ} (e : FrameError) → e ≢ stuck → IsTame {A = A} (fail e)
fail-IsTame e h = record { on = λ src. h }

ruleset tame_bodies = (
  tame, parse_ack-IsTame, body_crypto-IsTame, parse_stream-IsTame, body_max_stream_data-IsTame,
  parse_conn_close-IsTame, parse_new_conn_id-IsTame, body_new_token-IsTame,
  body_reset_stream-IsTame, body_stop_sending-IsTame,
)

unknown-ne-stuck : unknown_frame ≢ stuck
unknown-ne-stuck e = cc

parse_body-IsTame : (t : ℕ) → IsTame (parse_body t)
unfolding parse_body
parse_body-IsTame t = search (tame_bodies, if-IsTame, fail-IsTame, unknown-ne-stuck) depth 60

-- A round that goes on has read a byte at least.
abbrev Advances : ℕ → Round → Type 0
Advances n (goes_on e np rest) = length rest ≤ n
Advances n (stops np e) = e ≢ stuck

read_varint_advances : (b : ℕ) (src : List ℕ) → Tame (length src) (read_varint (b ∷ src))
unfolding read_varint
read_varint_advances b src = ground (arith, length-drop (parse_varint (b ∷ src)).1 (b ∷ src))

typed-Advances : (np : Bool) (t : ℕ) (src : List ℕ) → Advances (length src) (parse_typed np t src)
unfolding parse_typed
typed-Advances np t src = ground (arith, (parse_body-IsTame t).on src)

Advances-mono : (n m : ℕ) (r : Round) → Advances n r → n ≤ m → Advances m r
Advances-mono n m (goes_on e np rest) h le = omega arith
Advances-mono n m (stops np e) h le = h

not_allowed-ne-stuck : not_allowed_in_space ≢ stuck
not_allowed-ne-stuck e = cc

one-Advances :
    (allowed : Option (ℕ → Bool)) (np : Bool) (b : ℕ) (src : List ℕ)
    → Advances (length src) (parse_one allowed np b src)
unfolding parse_one
one-Advances allowed np b src =
    ground (arith, after (read_varint (b ∷ src)) (read_varint_advances b src))
  where
    after :
        (r : Result FrameError (ℕ × List ℕ))
        → Tame (length src) r
        → Advances (length src) (elim r as (λ _. Round) [
          | err e ↦ stops np e
          | ok (t, rest) ↦
              if refused allowed t
              then stops np not_allowed_in_space
              else parse_typed (np || not (is_probing_frame t)) t rest
        ])
    after (err e) h = h
    after (ok (t, rest)) h = elim (Bool-cases (refused allowed t)) [
      | inl r ↦ rw r not_allowed-ne-stuck
      | inr r ↦ rw r (
          Advances-mono (length rest) (length src)
            (parse_typed (np || not (is_probing_frame t)) t rest)
            (typed-Advances (np || not (is_probing_frame t)) t rest) h)
    ]

loop-ne-stuck :
    (allowed : Option (ℕ → Bool)) (fuel : ℕ) (np : Bool) (src : List ℕ)
    → length src ≤ fuel
    → (parse_loop allowed fuel np src).error ≢ some stuck
unfolding parse_loop
loop-ne-stuck allowed fuel np [] f = λ e. cc
loop-ne-stuck allowed zero np (b ∷ src) f = absurd (omega arith)
loop-ne-stuck allowed (suc fuel) np (b ∷ src) f =
    after (parse_one allowed np b src) (one-Advances allowed np b src) (loop-ne-stuck allowed fuel)
  where
    after :
        (r : Round)
        → Advances (length src) r
        → ((np : Bool) (rest : List ℕ)
            → length rest ≤ fuel
            → (parse_loop allowed fuel np rest).error ≢ some stuck)
        → (elim r as (λ _. Outcome) [
          | goes_on e np' rest ↦ cons_event e (parse_loop allowed fuel np' rest)
          | stops np' e ↦ stop np' e
        ]).error
          ≢ some stuck
    after (goes_on none np' rest) h ih = ih np' rest (omega arith)
    after (goes_on (some e) np' rest) h ih = ih np' rest (omega arith)
    after (stops np' e) h ih = λ p. h (cc)

-- The parser ends on every packet, in every space: as many rounds as bytes are enough.
pub parse_frames-ne-stuck :
    (allowed : Option (ℕ → Bool)) (np : Bool) (src : List ℕ)
    → (parse_frames allowed np src).error ≢ some stuck
unfolding parse_frames
parse_frames-ne-stuck allowed np src = loop-ne-stuck allowed (length src) np src (omega arith)
