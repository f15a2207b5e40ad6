-- ===== src/Subjects.antt =====
-- The subject filters of a broadcast: matchSubject and compileSubjectMatcher of src/utils.ts. A subject
-- is a text of code points.
pub mod Tokens
pub mod Filter
use glide_mq.Common.{
  Bool, true, false, ◌||◌, List, [], ◌∷◌, Option, none, some, if◌then◌else◌, Result, ok, err, ◌>>=◌,
}
use glide_mq.Cron.Text.{Text, same_text, split}

-- `>` stands before the end of a pattern.
pub data SubjectError : Type 0 where
  wildcard_not_last : SubjectError

abbrev pub star : Text
star = b'*' ∷ []

abbrev pub rest_wildcard : Text
rest_wildcard = b'>' ∷ []

unfoldable pub is_empty : List Text → Bool
is_empty [] = true
is_empty (t ∷ ts) = false

-- The loop, on the tokens that are left.
unfoldable pub match_tokens : List Text → List Text → Result SubjectError Bool
unfolding same_text is_empty
match_tokens [] subject = ok (is_empty subject)
match_tokens (token ∷ pattern) [] =
    if same_text token rest_wildcard
    then (if is_empty pattern then ok false else err wildcard_not_last)
    else ok false
match_tokens (token ∷ pattern) (part ∷ subject) =
    let rest = match_tokens pattern subject in
    if same_text token rest_wildcard
    then (if is_empty pattern then ok true else err wildcard_not_last)
    else if same_text token star || same_text token part
    then rest
    else ok false

unfoldable pub match_subject : Text → Text → Result SubjectError Bool
unfolding match_tokens split
match_subject pattern subject = match_tokens (split b'.' pattern) (split b'.' subject)

-- `patterns.some((p) => matchSubject(p, subject))`
unfoldable pub some_matches : List Text → Text → Result SubjectError Bool
unfolding match_subject
some_matches [] subject = ok false
some_matches (p ∷ patterns) subject = do
  matched ← match_subject p subject
  let rest = some_matches patterns subject
  if matched then ok true else rest

-- `null` is no filter at all.
unfoldable pub compile_subject_matcher :
    Option (List Text) → Option (Text → Result SubjectError Bool)
unfolding some_matches match_subject
compile_subject_matcher none = none
compile_subject_matcher (some []) = none
compile_subject_matcher (some (p ∷ [])) = some (match_subject p)
compile_subject_matcher (some (p ∷ q ∷ patterns)) = some (some_matches (p ∷ q ∷ patterns))
