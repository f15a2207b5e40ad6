-- ===== src/Options.antt =====
-- The options of a job and their checks in src/utils.ts: validateJobPriority, validateOrderingKey,
-- validateJobScheduleOptions, validateJobOptions, validateJobId and validateJobDataSize, for options
-- whose numbers are whole and not negative. A number that is absent reads as 0 where the code has `?? 0`.
pub mod Bounds
use Prim.Native.Char.{code}
use glide_mq.Common.{
  ℕ, suc, ◌*◌, String, text_dec, ite, Bool, true, false, ◌&&◌, ◌||◌, not, Option, none, some, ltb,
  leb, ◌==◌, if◌then◌else◌, Result, ok, err, ◌>>◌,
}
use glide_mq.Scores.{PriorityError, priority_too_high, validate_job_priority}

-- What becomes of finished jobs: kept, deleted at once, or the newest so many and so old.
pub data Retention : Type 0 where
  keep : Retention
  remove : Retention
  newest : (count : ℕ) → Retention
  window : (age count : ℕ) → Retention

pub data DedupMode : Type 0 where
  simple throttle debounce : DedupMode

pub record Deduplication : Type 0 where
  pub id : String
  pub ttl : ℕ
  pub mode : DedupMode

pub record Backoff : Type 0 where
  pub type : String
  pub delay : ℕ

pub record TokenBucket : Type 0 where
  pub capacity : ℕ
  pub refill_rate : ℕ

pub record JobOptions : Type 0 where
  pub job_id : String
  pub delay : ℕ
  pub priority : ℕ
  pub lifo : Bool
  pub ordering_key : String
  pub token_bucket : Option TokenBucket
  pub attempts : ℕ
  pub backoff : Option Backoff
  pub lock_duration : Option ℕ
  pub remove_on_complete : Retention
  pub remove_on_fail : Retention
  pub deduplication : Option Deduplication
  pub ttl : ℕ
  pub fallbacks : ℕ

pub data OptionError : Type 0 where
  invalid_priority : ℕ → OptionError
  ordering_key_too_long : OptionError
  ordering_key_reserved : OptionError
  invalid_token_bucket : OptionError
  lifo_with_ordering_key : OptionError
  job_id_too_long : OptionError
  job_id_invalid : OptionError
  invalid_lock_duration : OptionError
  data_too_large : ℕ → OptionError

abbrev pub max_ordering_key_length : ℕ
max_ordering_key_length = 256

abbrev pub max_job_data_size : ℕ
max_job_data_size = 1048576

-- The length of a text in JavaScript: a character above U+FFFF takes two units.
unfoldable pub text_length : String → ℕ
text_length String.[] = 0
text_length (String.◌∷◌ c s) =
    let rest = text_length s in if ltb 65535 (code c) then suc (suc rest) else suc rest

unfoldable pub some_char : (ℕ → Bool) → String → Bool
some_char test String.[] = false
some_char test (String.◌∷◌ c s) = test (code c) || some_char test s

unfoldable pub is_empty_text : String → Bool
is_empty_text String.[] = true
is_empty_text (String.◌∷◌ c s) = false

unfoldable pub validate_ordering_key : String → Result OptionError (Unit {0})
unfolding text_length text_dec
validate_ordering_key key =
    if ltb max_ordering_key_length (text_length key)
    then err ordering_key_too_long
    else ite (text_dec key "__") (err ordering_key_reserved) (ok tt)

-- Control characters, curly braces and colons.
unfoldable pub is_invalid_id_char : ℕ → Bool
is_invalid_id_char c = leb c 31 || (c == 127) || (c == b'{') || (c == b'}') || (c == b':')

unfoldable pub validate_job_id : String → Result OptionError (Unit {0})
unfolding text_length some_char is_invalid_id_char
validate_job_id id =
    if ltb 256 (text_length id)
    then err job_id_too_long
    else if some_char is_invalid_id_char id
    then err job_id_invalid
    else ok tt

unfoldable pub priority_checked : Result PriorityError (Unit {0}) → Result OptionError (Unit {0})
priority_checked (ok _) = ok tt
priority_checked (err (priority_too_high p)) = err (invalid_priority p)

unfoldable pub check_priority : ℕ → Result OptionError (Unit {0})
unfolding priority_checked validate_job_priority
check_priority priority = priority_checked (validate_job_priority priority)

unfoldable pub check_token_bucket : Option TokenBucket → Result OptionError (Unit {0})
check_token_bucket none = ok tt
check_token_bucket (some tb) =
    if (tb.capacity == 0) || (tb.refill_rate == 0) then err invalid_token_bucket else ok tt

unfoldable pub check_lock_duration : Option ℕ → Result OptionError (Unit {0})
check_lock_duration none = ok tt
check_lock_duration (some ms) =
    if ltb ms 1000 || ltb 86400000 ms then err invalid_lock_duration else ok tt

unfoldable pub check_job_id : String → Result OptionError (Unit {0})
unfolding is_empty_text validate_job_id
check_job_id id = if is_empty_text id then ok tt else validate_job_id id

unfoldable pub check_lifo : Bool → String → Result OptionError (Unit {0})
unfolding is_empty_text
check_lifo lifo key = if lifo && not (is_empty_text key) then err lifo_with_ordering_key else ok tt

unfoldable pub validate_job_options : JobOptions → Result OptionError (Unit {0})
unfolding check_priority check_token_bucket validate_ordering_key check_lifo check_job_id
    check_lock_duration
validate_job_options opts = do
  check_priority opts.priority
  check_token_bucket opts.token_bucket
  validate_ordering_key opts.ordering_key
  check_lifo opts.lifo opts.ordering_key
  check_job_id opts.job_id
  check_lock_duration opts.lock_duration

-- The serialized data of a job, with its length in bytes of UTF-8. A text of at most a quarter of the
-- limit passes unmeasured, as no character takes more than four bytes.
pub record Payload : Type 0 where
  pub text : String
  pub byte_length : ℕ

unfoldable pub validate_job_data_size : Payload → Result OptionError (Unit {0})
unfolding text_length
validate_job_data_size p =
    if ltb max_job_data_size (4 * text_length p.text)
    then (if ltb max_job_data_size p.byte_length then err (data_too_large p.byte_length) else ok tt)
    else ok tt
