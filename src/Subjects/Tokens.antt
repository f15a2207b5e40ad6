-- ===== src/Subjects/Tokens.antt =====
-- The tokens of a subject pattern of matchSubject of src/utils.ts, and the parts that they fit.
use glide_mq.Common.{
  ◌≡◌, ◌≢◌, refl, sym, subst, inl, inr, Bool, true, false, List, [], ◌∷◌, ok, arith, Bool-cases, ap,
  ◌||◌,
}
use glide_mq.Cron.Text.{Text, same_text}
use glide_mq.Subjects.{star, rest_wildcard, is_empty, match_tokens}

-- The tokens of a pattern fit the parts of a subject.
pub data Fits : List Text → List Text → Type 0 where
  done : Fits [] []
  trailing : (part : Text) (subject : List Text) → Fits (rest_wildcard ∷ []) (part ∷ subject)
  wild :
      (part : Text) (pattern subject : List Text)
      → Fits pattern subject
      → Fits (star ∷ pattern) (part ∷ subject)
  same :
      (part : Text) (pattern subject : List Text)
      → part ≢ rest_wildcard
      → Fits pattern subject
      → Fits (part ∷ pattern) (part ∷ subject)

-- `>` stands at the end only.
pub data IsPattern : List Text → Type 0 where
  ends : IsPattern []
  ends_open : IsPattern (rest_wildcard ∷ [])
  before_end :
      (t : Text) (pattern : List Text)
      → t ≢ rest_wildcard
      → IsPattern pattern
      → IsPattern (t ∷ pattern)

same_text-eq : (s t : Text) → same_text s t ≡ true → s ≡ t
unfolding same_text
same_text-eq [] [] h = refl
same_text-eq [] (b ∷ t) h = cc
same_text-eq (a ∷ s) [] h = cc
same_text-eq (a ∷ s) (b ∷ t) h =
    let tails = same_text-eq s t (ground arith) in let heads : a ≡ b = ground arith in cc

same_text_self : (s : Text) → same_text s s ≡ true
unfolding same_text
same_text_self [] = refl
same_text_self (a ∷ s) = ground (arith, same_text_self s)

different_texts : (s t : Text) → s ≢ t → same_text s t ≡ false
different_texts s t n = elim (Bool-cases (same_text s t)) [
  | inl e ↦ absurd (n (same_text-eq s t e))
  | inr e ↦ e
]

wildcard-Fits :
    (t : Text) (pattern : List Text) (part : Text) (subject : List Text)
    → same_text t rest_wildcard ≡ true
    → match_tokens (t ∷ pattern) (part ∷ subject) ≡ ok true
    → Fits (t ∷ pattern) (part ∷ subject)
unfolding match_tokens
wildcard-Fits t [] part subject e h =
    subst (λ x. Fits (x ∷ []) (part ∷ subject)) (sym (same_text-eq t rest_wildcard e))
      (trailing part subject)
wildcard-Fits t (u ∷ pattern) part subject e h = absurd (ground (arith, e))

not_wildcard : (t : Text) → same_text t rest_wildcard ≡ false → t ≢ rest_wildcard
unfolding same_text
not_wildcard t e q = let e' = ap (λ x. same_text x rest_wildcard) q in cc

token-Fits :
    (t : Text) (pattern : List Text) (part : Text) (subject : List Text)
    → same_text t rest_wildcard ≡ false
    → (match_tokens pattern subject ≡ ok true → Fits pattern subject)
    → match_tokens (t ∷ pattern) (part ∷ subject) ≡ ok true
    → Fits (t ∷ pattern) (part ∷ subject)
unfolding match_tokens
token-Fits t pattern part subject e rest h = elim (Bool-cases (same_text t star)) [
  | inl a ↦
      subst (λ x. Fits (x ∷ pattern) (part ∷ subject)) (sym (same_text-eq t star a))
        (wild part pattern subject (rest (ground (arith, e, a))))
  | inr a ↦ elim (Bool-cases (same_text t part)) [
    | inl b ↦
        subst (λ x. Fits (t ∷ pattern) (x ∷ subject)) (same_text-eq t part b)
          (same t pattern subject (not_wildcard t e) (rest (ground (arith, e, b))))
    | inr b ↦ absurd (ground (arith, e, a, b))
  ]
]

pub match_tokens-Fits :
    (pattern subject : List Text) → match_tokens pattern subject ≡ ok true → Fits pattern subject
unfolding match_tokens
match_tokens-Fits [] [] h = done
match_tokens-Fits [] (b ∷ t) h = cc
match_tokens-Fits (t ∷ []) [] h = absurd (ground arith)
match_tokens-Fits (t ∷ u ∷ pattern) [] h = absurd (ground arith)
match_tokens-Fits (t ∷ pattern) (part ∷ subject) h = elim (Bool-cases (same_text t rest_wildcard)) [
  | inl e ↦ wildcard-Fits t pattern part subject e h
  | inr e ↦ token-Fits t pattern part subject e (match_tokens-Fits pattern subject) h
]

pub matched_tokens :
    (pattern subject : List Text) → Fits pattern subject → match_tokens pattern subject ≡ ok true
unfolding match_tokens
matched_tokens pattern subject done = refl
matched_tokens pattern subject (trailing part s) = refl
matched_tokens pattern subject (wild part p s f) = matched_tokens p s f
matched_tokens pattern subject (same part p s n f) =
    ground (arith, different_texts part rest_wildcard n, same_text_self part, matched_tokens p s f)

pub answered_tokens :
    (pattern subject : List Text)
    → IsPattern pattern
    → (b : Bool) × (match_tokens pattern subject ≡ ok b)
unfolding match_tokens
answered_tokens pattern subject ends = (is_empty subject, refl)
answered_tokens pattern [] ends_open = (false, refl)
answered_tokens pattern (part ∷ s) ends_open = (true, refl)
answered_tokens pattern [] (before_end t p n i) =
    (false, ground (arith, different_texts t rest_wildcard n))
answered_tokens pattern (part ∷ s) (before_end t p n i) =
    elim (Bool-cases (same_text t star || same_text t part)) [
      | inl e ↦
          let (b, q) = answered_tokens p s i in
          (b, ground (arith, different_texts t rest_wildcard n))
      | inr e ↦ (false, ground (arith, different_texts t rest_wildcard n))
    ]
