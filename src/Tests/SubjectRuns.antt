-- ===== src/Tests/SubjectRuns.antt =====
-- Runs of the subject filters of src/utils.ts.
use glide_mq.Common.{ℕ, ◌≢◌, ap, arith, ◌≡◌, refl, true, false, [], ◌∷◌, ok, err}
use glide_mq.Cron.Text.{Text, split}
use glide_mq.Cron.Search.{first}
use glide_mq.Subjects.{
  wildcard_not_last, rest_wildcard, match_subject, some_matches, compile_subject_matcher,
}
use glide_mq.Subjects.Tokens.{Fits, IsPattern, ends, ends_open, before_end}
use glide_mq.Subjects.Filter.{
  Decides, SomeFits, match_subject-Fits, compile_subject_matcher-SomeFits,
}

-- `a.*`, `b.>`, `>.a`, `a.b` and `b`
abbrev a_star : Text
a_star = b'a' ∷ b'.' ∷ b'*' ∷ []

abbrev b_rest : Text
b_rest = b'b' ∷ b'.' ∷ b'>' ∷ []

abbrev rest_first : Text
rest_first = b'>' ∷ b'.' ∷ b'a' ∷ []

abbrev a_b : Text
a_b = b'a' ∷ b'.' ∷ b'b' ∷ []

match_star : match_subject a_star a_b ≡ ok true
unfolding match_subject
match_star = refl

match_rest : match_subject b_rest (b'b' ∷ []) ≡ ok false
unfolding match_subject
match_rest = refl

match_malformed : match_subject rest_first a_b ≡ err wildcard_not_last
unfolding match_subject
match_malformed = refl

other_character : (c : ℕ) → c ≢ b'>' → c ∷ [] ≢ rest_wildcard
unfolding first
other_character c n q = n (ap (λ s. first s) q)

a_star-IsPattern : IsPattern (split b'.' a_star)
unfolding split first
a_star-IsPattern =
    before_end _ _ (λ q. other_character b'a' (omega arith) q)
      (before_end _ _ (λ q. other_character b'*' (omega arith) q) ends)

b_rest-IsPattern : IsPattern (split b'.' b_rest)
unfolding split first
b_rest-IsPattern = before_end _ _ (λ q. other_character b'b' (omega arith) q) ends_open

match_subject-Fits_example :
    Decides (match_subject a_star a_b) (Fits (split b'.' a_star) (split b'.' a_b))
match_subject-Fits_example = match_subject-Fits a_star a_b a_star-IsPattern

compile_subject_matcher-SomeFits_example :
    Decides (some_matches (b_rest ∷ a_star ∷ []) a_b) (SomeFits a_b (b_rest ∷ a_star ∷ []))
unfolding compile_subject_matcher
compile_subject_matcher-SomeFits_example =
    compile_subject_matcher-SomeFits (b_rest ∷ a_star ∷ []) a_b
      (some_matches (b_rest ∷ a_star ∷ [])) (b_rest-IsPattern, (a_star-IsPattern, tt)) refl
