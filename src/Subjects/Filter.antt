-- ===== src/Subjects/Filter.antt =====
-- matchSubject and compileSubjectMatcher of src/utils.ts, and the subjects that pass a filter.
use glide_mq.Common.{
  ◌≡◌, refl, subst, ◌⊎◌, inl, inr, Bool, true, false, List, [], ◌∷◌, some, Result, ok, All,
}
use glide_mq.Cron.Text.{Text, split}
use glide_mq.Subjects.{
  SubjectError, match_tokens, match_subject, some_matches, compile_subject_matcher,
}
use glide_mq.Subjects.Tokens.{Fits, IsPattern, match_tokens-Fits, matched_tokens, answered_tokens}

-- A subject passes a well-formed pattern when its parts fit the tokens, and else it is turned down.
abbrev pub Decides : Result SubjectError Bool → Type 0 → Type 0
Decides r P = ((r ≡ ok true) × P) ⊎ ((r ≡ ok false) × (P → ⊥))

-- On a pattern with `>` at its end only, matchSubject returns true when the parts of the subject fit
-- the tokens of the pattern, and false when they do not.
pub match_subject-Fits :
    (pattern subject : Text)
    → IsPattern (split b'.' pattern)
    → Decides (match_subject pattern subject) (Fits (split b'.' pattern) (split b'.' subject))
unfolding match_subject
match_subject-Fits pattern subject i =
    decided (answered_tokens (split b'.' pattern) (split b'.' subject) i)
  where
    decided :
        (b : Bool) × (match_tokens (split b'.' pattern) (split b'.' subject) ≡ ok b)
        → Decides (match_subject pattern subject) (Fits (split b'.' pattern) (split b'.' subject))
    decided (true, e) = inl (e, match_tokens-Fits (split b'.' pattern) (split b'.' subject) e)
    decided (false, e) =
        inr (e, λ f. let e' = matched_tokens (split b'.' pattern) (split b'.' subject) f in cc)

-- Some pattern of the filter fits the subject.
pub data SomeFits (subject : Text) : List Text → Type 0 where
  here :
      (p : Text) (patterns : List Text)
      → Fits (split b'.' p) (split b'.' subject)
      → SomeFits subject (p ∷ patterns)
  there :
      (p : Text) (patterns : List Text)
      → SomeFits subject patterns
      → SomeFits subject (p ∷ patterns)

abbrev pub ArePatterns : List Text → Type 0
ArePatterns patterns = All (λ p. IsPattern (split b'.' p)) patterns

no_pattern : (subject : Text) → SomeFits subject [] → ⊥
no_pattern subject h = elim h [ ]

cons_cases :
    (subject p : Text) (patterns : List Text)
    → SomeFits subject (p ∷ patterns)
    → Fits (split b'.' p) (split b'.' subject) ⊎ SomeFits subject patterns
cons_cases subject p patterns (here _ _ f) = inl f
cons_cases subject p patterns (there _ _ f) = inr f

decided_first :
    (subject p : Text) (patterns : List Text)
    → Decides (match_subject p subject) (Fits (split b'.' p) (split b'.' subject))
    → Decides (some_matches patterns subject) (SomeFits subject patterns)
    → Decides (some_matches (p ∷ patterns) subject) (SomeFits subject (p ∷ patterns))
unfolding some_matches
decided_first subject p patterns (inl (e, f)) d = inl (rw e refl, here p patterns f)
decided_first subject p patterns (inr (e, n)) (inl (e', f)) = inl (rw e e', there p patterns f)
decided_first subject p patterns (inr (e, n)) (inr (e', n')) =
    inr (rw e e', λ f. elim (cons_cases subject p patterns f) [ inl g ↦ n g | inr g ↦ n' g ])

some_matches-SomeFits :
    (patterns : List Text) (subject : Text)
    → ArePatterns patterns
    → Decides (some_matches patterns subject) (SomeFits subject patterns)
unfolding some_matches
some_matches-SomeFits [] subject a = inr (refl, no_pattern subject)
some_matches-SomeFits (p ∷ patterns) subject a =
    decided_first subject p patterns (match_subject-Fits p subject (a.0))
      (some_matches-SomeFits patterns subject (a.1))

decided_alone :
    (subject p : Text)
    → Decides (match_subject p subject) (Fits (split b'.' p) (split b'.' subject))
    → Decides (match_subject p subject) (SomeFits subject (p ∷ []))
decided_alone subject p (inl (e, f)) = inl (e, here p [] f)
decided_alone subject p (inr (e, n)) =
    inr (e, λ f. elim (cons_cases subject p [] f) [ inl g ↦ n g | inr g ↦ no_pattern subject g ])

-- The matcher that compileSubjectMatcher builds of patterns with `>` at their ends only returns true
-- when some pattern fits the subject, and false when none does.
pub compile_subject_matcher-SomeFits :
    (patterns : List Text) (subject : Text) (matcher : Text → Result SubjectError Bool)
    → ArePatterns patterns
    → compile_subject_matcher (some patterns) ≡ some matcher
    → Decides (matcher subject) (SomeFits subject patterns)
unfolding compile_subject_matcher
compile_subject_matcher-SomeFits [] subject matcher a h = cc
compile_subject_matcher-SomeFits (p ∷ []) subject matcher a h =
    let q : match_subject p ≡ matcher = cc in
    subst (λ f. Decides (f subject) (SomeFits subject (p ∷ []))) q
      (decided_alone subject p (match_subject-Fits p subject (a.0)))
compile_subject_matcher-SomeFits (p ∷ q ∷ patterns) subject matcher a h =
    let e : some_matches (p ∷ q ∷ patterns) ≡ matcher = cc in
    subst (λ f. Decides (f subject) (SomeFits subject (p ∷ q ∷ patterns))) e
      (some_matches-SomeFits (p ∷ q ∷ patterns) subject a)
