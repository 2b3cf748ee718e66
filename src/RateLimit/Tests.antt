-- ===== src/RateLimit/Tests.antt =====
-- Runs of core/ratelimit.go at concrete inputs.
use alos_http.Prelude.{◌+◌, ◌*◌, ◌/◌, ◌≤◌, ◌≡◌, refl, some, min, List, [], ◌∷◌, arith}
use alos_http.RateLimit.{
  mul_div_capped, Bucket, new_token_bucket, System, Move, tick, call, step, run, allow,
}
use alos_http.RateLimit.MulDiv.{mul_div_capped_exact}
use alos_http.RateLimit.Bound.{made}
use alos_http.RateLimit.Interleaved.{new_system, run_granted}
use alos_http.RateLimit.Alone.{alone, spent, topped, alone-allow}

mul_div_capped_exact_example :
    mul_div_capped 10000000000 9000000000 1000000000 200000000000
    ≡ some (min (10000000000 * 9000000000 / 1000000000) 200000000000)
mul_div_capped_exact_example =
    mul_div_capped_exact 10000000000 9000000000 1000000000 200000000000 (omega arith) (omega arith)

-- Two callers that ask for 60 of 100 tokens and interleave at their last operations.
abbrev race : List Move
race =
    tick 1
    ∷ call 60
    ∷ call 60
    ∷ step 0
    ∷ step 1
    ∷ step 0
    ∷ step 1
    ∷ step 0
    ∷ step 1
    ∷ step 0
    ∷ step 1
    ∷ step 1
    ∷ []

run_granted_example :
    ((run (new_system 10 100 5) race).granted
      ≤ (new_token_bucket 10 100 5).burst + made 10 5 (run (new_system 10 100 5) race).clock)
    × ((run (new_system 10 100 5) race).bucket.tokens
        ≤ (run (new_system 10 100 5) race).bucket.burst)
run_granted_example = run_granted 10 100 5 race (omega arith) (omega arith) (omega arith)

race_granted : (run (new_system 10 100 5) race).granted ≡ 60
unfolding alos_http.RateLimit.run alos_http.RateLimit.move alos_http.RateLimit.act
    alos_http.RateLimit.allow alos_http.RateLimit.elapsed_tokens alos_http.RateLimit.put_at
    alos_http.RateLimit.new_token_bucket alos_http.RateLimit.mul_div_capped
    alos_http.RateLimit.div64 alos_http.RateLimit.div_word
race_granted = refl

-- A bucket of no rate grants what it is asked for.
unlimited_granted : (run (new_system 0 100 5) (call 70 ∷ call 80 ∷ [])).granted ≡ 150
unfolding alos_http.RateLimit.run alos_http.RateLimit.move alos_http.RateLimit.allow
    alos_http.RateLimit.new_token_bucket
unlimited_granted = refl

abbrev half_full : Bucket
half_full = record { tokens = 50; last_time = 0; rate = 10; burst = 100 }

alone-allow_example :
    alone 7 half_full 3000000000 (allow half_full 60) ≡ spent (topped half_full 3000000000) 60
alone-allow_example =
    alone-allow half_full 3000000000 60 (omega arith) (omega arith) (omega arith) (omega arith)
