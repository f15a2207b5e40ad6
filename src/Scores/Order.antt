-- ===== src/Scores/Order.antt =====
-- encodeScore and decodeScore of src/utils.ts, and the order of scores.
use glide_mq.Common.{ℕ, ◌+◌, ◌*◌, ◌/◌, ◌%◌, ◌≤◌, ◌<◌, ◌≡◌, ◌⊎◌, arith, ok, ◌↔◌}
use glide_mq.Scores.{max_job_priority, priority_shift, encode_score, decode_score}

encode_score-eq :
    (priority timestamp_ms score : ℕ)
    → encode_score priority timestamp_ms ≡ ok score
    → (score ≡ priority * 4398046511104 + timestamp_ms) × (priority ≤ 2048)
unfolding encode_score
encode_score-eq priority timestamp_ms score h = ground arith

-- A score of a priority below the highest and a timestamp below 2 ^ 42 is a safe integer, and it
-- decodes to that priority and that timestamp.
pub decode_score-encode_score :
    (priority timestamp_ms score : ℕ)
    → priority < max_job_priority
    → timestamp_ms < priority_shift
    → encode_score priority timestamp_ms ≡ ok score
    → (decode_score score ≡ (priority, timestamp_ms)) × (score ≤ 9007199254740991)
unfolding decode_score
decode_score-encode_score priority timestamp_ms score p t h =
    let (e, _) = encode_score-eq priority timestamp_ms score h in
    let priority_back : score / 4398046511104 ≡ priority = omega arith in
    let time_back : score % 4398046511104 ≡ timestamp_ms = omega arith in (cc, omega arith)

-- Scores of priorities below the highest order jobs by priority, and within one priority by timestamp,
-- for timestamps below 2 ^ 42.
pub encode_score-lt :
    (p q s t a b : ℕ)
    → p < max_job_priority
    → q < max_job_priority
    → s < priority_shift
    → t < priority_shift
    → encode_score p s ≡ ok a
    → encode_score q t ≡ ok b
    → (a < b) ↔ ((p < q) ⊎ ((p ≡ q) × (s < t)))
encode_score-lt p q s t a b _ _ i j h k =
    let (d, _) = encode_score-eq p s a h in
    let (e, _) = encode_score-eq q t b k in (λ l. ground arith, λ r. ground arith)
