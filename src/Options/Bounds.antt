-- ===== src/Options/Bounds.antt =====
-- What the checks of job options in src/utils.ts let through.
use Prim.Native.Char.{code}
use glide_mq.Common.{
  Option, none, some, ℕ, ◌+◌, ◌-◌, ◌/◌, ◌%◌, ◌<◌, ◌≤◌, ◌≡◌, ◌≢◌, refl, ◌⊎◌, inl, inr, String, Bool,
  true, false, ◌||◌, ltb, leb, ◌==◌, if◌then◌else◌, Result, ok, err, ◌>>◌, text_dec, ite, arith,
  if_intro, List, [], ◌∷◌, length, Bool-cases,
}
use glide_mq.Scores.{PriorityError, validate_job_priority}
use glide_mq.Options.{
  ordering_key_reserved, ordering_key_too_long, invalid_token_bucket, invalid_lock_duration,
  lifo_with_ordering_key, job_id_too_long, job_id_invalid, JobOptions, TokenBucket, OptionError,
  text_length, some_char, is_empty_text, validate_ordering_key, is_invalid_id_char, validate_job_id,
  priority_checked, check_priority, check_token_bucket, check_lock_duration, check_job_id,
  check_lifo, validate_job_options,
}

abbrev Checked : Type 0
Checked = Result OptionError (Unit {0})

-- A check passes where `P` holds, and fails where it does not.
abbrev pub Verdict : Checked → Type 0 → Type 0
Verdict d P = ((d ≡ ok tt) × P) ⊎ (((e : OptionError) × (d ≡ err e)) × (¬ P))

-- The code units of UTF-16.
unfoldable pub units : String → List ℕ
units String.[] = []
units (String.◌∷◌ c s) =
    let rest = units s in
    if ltb (code c) 65536
    then code c ∷ rest
    else (55296 + (code c - 65536) / 1024) ∷ (56320 + (code c - 65536) % 1024) ∷ rest

abbrev pub AllChars : (ℕ → Type 0) → String → Type 0
AllChars P String.[] = Unit
AllChars P (String.◌∷◌ c s) = P (code c) × AllChars P s

-- No control character, none of `{`, `}` and `:`.
abbrev pub IsIdChar : ℕ → Type 0
IsIdChar c = (32 ≤ c) × (c ≢ 127) × (c ≢ 123) × (c ≢ 125) × (c ≢ 58)

abbrev pub HasBucketBounds : Option TokenBucket → Type 0
HasBucketBounds none = Unit
HasBucketBounds (some tb) = (0 < tb.capacity) × (0 < tb.refill_rate)

abbrev pub HasLockBounds : Option ℕ → Type 0
HasLockBounds none = Unit
HasLockBounds (some ms) = (1000 ≤ ms) × (ms ≤ 86400000)

-- What options have to keep to.
pub record IsAllowed (opts : JobOptions) : Type 0 where
  pub priority : opts.priority ≤ 2048
  pub token_bucket : HasBucketBounds opts.token_bucket
  pub ordering_key : (length (units opts.ordering_key) ≤ 256) × (opts.ordering_key ≢ "__")
  pub lifo : (opts.lifo ≡ false) ⊎ (opts.ordering_key ≡ "")
  pub job_id : (length (units opts.job_id) ≤ 256) × AllChars IsIdChar opts.job_id
  pub lock_duration : HasLockBounds opts.lock_duration

text_length-units : (s : String) → text_length s ≡ length (units s)
unfolding text_length units
text_length-units String.[] = refl
text_length-units (String.◌∷◌ c s) = let r = text_length-units s in ground arith

-- A test that refuses where `P` fails.
guarded :
    {P : Type 0} (b : Bool) (e : OptionError)
    → (b ≡ true → ¬ P)
    → (b ≡ false → P)
    → Verdict (if b then err e else ok tt) P
guarded true e n p = inr ((e, refl), n refl)
guarded false e n p = inl (refl, p refl)

guarded_then :
    {P Q : Type 0} (b : Bool) (e : OptionError) (d : Checked)
    → (b ≡ true → ¬ P)
    → (b ≡ false → P)
    → Verdict d Q
    → Verdict (if b then err e else d) (P × Q)
guarded_then true e d n p v = inr ((e, refl), λ r. n refl r.0)
guarded_then false e d n p (inl (h, q)) = inl (h, (p refl, q))
guarded_then false e d n p (inr (h, m)) = inr (h, λ r. m r.1)

both : {P Q : Type 0} (d d' : Checked) → Verdict d P → Verdict d' Q → Verdict (d >> d') (P × Q)
both d d' (inl (h, p)) (inl (k, q)) = inl (rw h k, (p, q))
both d d' (inl (h, p)) (inr ((e, k), n)) = inr ((e, rw h k), λ r. n r.1)
both d d' (inr ((e, h), n)) v = inr ((e, rw h refl), λ r. n r.0)

priority_verdict : (p : ℕ) → Verdict (check_priority p) (p ≤ 2048)
unfolding check_priority priority_checked validate_job_priority
priority_verdict p =
    if_intro (λ (d : Result PriorityError (Unit {0})). Verdict (priority_checked d) (p ≤ 2048))
      (ltb 2048 p) _ _ (λ h. inr ((_, refl), λ k. ground (arith, h)))
      (λ h. inl (refl, ground (arith, h)))

bucket_verdict :
    (bucket : Option TokenBucket) → Verdict (check_token_bucket bucket) (HasBucketBounds bucket)
unfolding check_token_bucket
bucket_verdict none = inl (refl, tt)
bucket_verdict (some tb) =
    guarded ((tb.capacity == 0) || (tb.refill_rate == 0)) invalid_token_bucket
      (λ h k. let (a, b) = k in ground (arith, h)) (λ h. (ground (arith, h), ground (arith, h)))

lock_verdict :
    (duration : Option ℕ) → Verdict (check_lock_duration duration) (HasLockBounds duration)
unfolding check_lock_duration
lock_verdict none = inl (refl, tt)
lock_verdict (some ms) =
    guarded (ltb ms 1000 || ltb 86400000 ms) invalid_lock_duration
      (λ h k. let (a, b) = k in ground (arith, h)) (λ h. (ground (arith, h), ground (arith, h)))

empty_dec :
    (s : String) → ((is_empty_text s ≡ true) × (s ≡ "")) ⊎ ((is_empty_text s ≡ false) × (s ≢ ""))
unfolding is_empty_text
empty_dec String.[] = inl (refl, refl)
empty_dec (String.◌∷◌ c s) = inr (refl, λ h. absurd cc)

lifo_verdict :
    (lifo : Bool) (key : String) → Verdict (check_lifo lifo key) ((lifo ≡ false) ⊎ (key ≡ ""))
unfolding check_lifo
lifo_verdict false key = inl (refl, inl refl)
lifo_verdict true key = elim (empty_dec key) [
  | inl (e, h) ↦ inl (rw e refl, inr h)
  | inr (e, n) ↦
      inr ((lifo_with_ordering_key, rw e refl), λ k. elim k [ inl f ↦ absurd cc | inr h ↦ n h ])
]

key_verdict :
    (key : String) → Verdict (validate_ordering_key key) ((length (units key) ≤ 256) × (key ≢ "__"))
unfolding validate_ordering_key
key_verdict key =
    guarded_then (ltb 256 (text_length key)) ordering_key_too_long _
      (λ h k. ground (arith, h, text_length-units key))
      (λ h. ground (arith, h, text_length-units key)) (named (text_dec key "__"))
  where
    named :
        (d : Dec (key ≡ "__")) → Verdict (ite d (err ordering_key_reserved) (ok tt)) (key ≢ "__")
    named (yes e) = inr ((ordering_key_reserved, refl), λ n. n e)
    named (no n) = inl (refl, n)

id_char :
    (c : ℕ)
    → ((is_invalid_id_char c ≡ true) × (¬ IsIdChar c))
      ⊎ ((is_invalid_id_char c ≡ false) × IsIdChar c)
unfolding is_invalid_id_char
id_char c = elim (Bool-cases (leb c 31 || (c == 127) || (c == 123) || (c == 125) || (c == 58))) [
  | inl h ↦ inl (h, λ k. let (a, b, d, e, f) = k in ground (arith, h))
  | inr h ↦ inr (
    h,
    (ground (arith, h), ground (arith, h), ground (arith, h), ground (arith, h), ground (arith, h)),
  )
]

id_chars :
    (id : String)
    → ((some_char is_invalid_id_char id ≡ true) × (¬ AllChars IsIdChar id))
      ⊎ ((some_char is_invalid_id_char id ≡ false) × AllChars IsIdChar id)
unfolding some_char
id_chars String.[] = inr (refl, tt)
id_chars (String.◌∷◌ c s) = elim (id_char (code c)) [
  | inl (h, n) ↦ inl (rw h refl, λ a. n a.0)
  | inr (h, i) ↦ elim (id_chars s) [
    | inl (k, n) ↦ inl (rw h (rw k refl), λ a. n a.1)
    | inr (k, a) ↦ inr (rw h (rw k refl), (i, a))
  ]
]

chars_verdict :
    (id : String)
    → Verdict
        (if some_char is_invalid_id_char id then err job_id_invalid else ok tt)
        (AllChars IsIdChar id)
chars_verdict id = elim (id_chars id) [
  | inl (h, n) ↦ inr ((job_id_invalid, rw h refl), n)
  | inr (h, a) ↦ inl (rw h refl, a)
]

id_verdict :
    (id : String) → Verdict (check_job_id id) ((length (units id) ≤ 256) × AllChars IsIdChar id)
unfolding check_job_id validate_job_id is_empty_text units
id_verdict String.[] = inl (refl, (omega arith, tt))
id_verdict (String.◌∷◌ c s) =
    let id = String.◌∷◌ c s in
    guarded_then (ltb 256 (text_length id)) job_id_too_long _
      (λ h k. ground (arith, h, text_length-units id))
      (λ h. ground (arith, h, text_length-units id)) (chars_verdict id)

-- validateJobOptions accepts options exactly when they are allowed, and returns an error otherwise. Allowed
-- are a priority of at most 2048, a token bucket with a capacity and a rate above 0, an ordering key of at
-- most 256 units of UTF-16 that is not "__", lifo only without an ordering key, a job id of at most 256
-- units without control characters, curly braces and colons, and a lock duration from a second to a day.
pub validate_job_options-IsAllowed :
    (opts : JobOptions) → Verdict (validate_job_options opts) (IsAllowed opts)
unfolding validate_job_options
validate_job_options-IsAllowed opts =
    let checks = both (check_priority opts.priority) _ (priority_verdict opts.priority) (
      both (check_token_bucket opts.token_bucket) _ (bucket_verdict opts.token_bucket) (
        both (validate_ordering_key opts.ordering_key) _ (key_verdict opts.ordering_key) (
          both (check_lifo opts.lifo opts.ordering_key) _ (lifo_verdict opts.lifo opts.ordering_key)
            (both (check_job_id opts.job_id) _ (id_verdict opts.job_id)
              (lock_verdict opts.lock_duration))))) in
    elim checks [
      | inl (h, (p, (t, (k, (l, (i, d)))))) ↦ inl (
        h,
        record {
          priority = p;
          token_bucket = t;
          ordering_key = k;
          lifo = l;
          job_id = i;
          lock_duration = d;
        },
      )
      | inr (e, n) ↦ inr (
        e,
        λ a.
            n (
              a.priority,
              (a.token_bucket, (a.ordering_key, (a.lifo, (a.job_id, a.lock_duration)))),
            ),
      )
    ]
