-- ===== src/Tests/ScoreRuns.antt =====
-- Runs of the scores and delays of src/utils.ts.
use glide_mq.Common.{ℕ, ◌*◌, ◌^◌, ◌≤◌, ◌<◌, ◌≡◌, ◌↔◌, ◌⊎◌, refl, arith, ok, err}
use glide_mq.Scores.{priority_too_high, encode_score, decode_score, min}
use glide_mq.Scores.Order.{decode_score-encode_score, encode_score-lt}
use glide_mq.Scores.Delays.{delay_after, next_reconnect_delay-doubles}

urgent : encode_score 1 1700000000000 ≡ ok 6098046511104
unfolding encode_score
urgent = refl

later : encode_score 2 1600000000000 ≡ ok 10396093022208
unfolding encode_score
later = refl

refused : encode_score 2049 0 ≡ err (priority_too_high 2049)
unfolding encode_score
refused = refl

decode_score-encode_score_example :
    (decode_score 6098046511104 ≡ (1, 1700000000000)) × (6098046511104 ≤ 9007199254740991)
decode_score-encode_score_example =
    decode_score-encode_score 1 1700000000000 6098046511104 (omega arith) (omega arith) urgent

encode_score-lt_example :
    (6098046511104 < 10396093022208)
    ↔ ((1 < 2) ⊎ ((◌≡◌ {A = ℕ} 1 2) × (1700000000000 < 1600000000000)))
encode_score-lt_example =
    encode_score-lt 1 2 1700000000000 1600000000000 6098046511104 10396093022208 (omega arith)
      (omega arith) (omega arith) (omega arith) urgent later

next_reconnect_delay-doubles_example : delay_after 30000 6 ≡ min (1000 * 2 ^ 5) 30000
next_reconnect_delay-doubles_example = next_reconnect_delay-doubles 30000 5 (omega arith)
