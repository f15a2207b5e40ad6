-- ===== src/InMemory/Numerals.antt =====
-- The ids of generateJobId in src/testing.ts: numerals, and the first one that is free.
use Prim.Native.Char.{code}
use glide_mq.Common.{
  ℕ, zero, suc, ◌+◌, ◌-◌, ◌*◌, ◌/◌, ◌%◌, ◌<◌, ◌≤◌, ◌≡◌, ◌≢◌, refl, ◌∙◌, ap, String, true, false,
  none, some, Map, get?, arith, if_intro, ◌⊎◌, inl, inr, ltb, Option, subst,
}
use glide_mq.Options.Bounds.{AllChars}
use glide_mq.InMemory.Add.{is_there, digit, digits_onto, decimal, free_id}

-- The number that a text of digits stands for, with `before` for the digits before it.
unfoldable pub value : String → ℕ → ℕ
value String.[] before = before
value (String.◌∷◌ c s) before = value s (before * 10 + (code c - 48))

abbrev pub IsDigit : ℕ → Type 0
IsDigit c = (48 ≤ c) × (c ≤ 57)

abbrev pub HasNoLeadingZero : String → Type 0
HasNoLeadingZero String.[] = ⊥
HasNoLeadingZero (String.◌∷◌ c s) = code c ≢ 48

-- The decimal numeral of a number above 0.
pub record IsNumeral (id : String) (n : ℕ) : Type 0 where
  pub digits : AllChars IsDigit id
  pub no_leading_zero : HasNoLeadingZero id
  pub value : value id 0 ≡ n

code-digit : (d : ℕ) → d < 10 → code (digit d) ≡ 48 + d
unfolding digit
code-digit zero h = refl
code-digit (suc zero) h = refl
code-digit (suc (suc zero)) h = refl
code-digit (suc (suc (suc zero))) h = refl
code-digit (suc (suc (suc (suc zero)))) h = refl
code-digit (suc (suc (suc (suc (suc zero))))) h = refl
code-digit (suc (suc (suc (suc (suc (suc zero)))))) h = refl
code-digit (suc (suc (suc (suc (suc (suc (suc zero))))))) h = refl
code-digit (suc (suc (suc (suc (suc (suc (suc (suc zero)))))))) h = refl
code-digit (suc (suc (suc (suc (suc (suc (suc (suc (suc zero))))))))) h = refl
code-digit (suc (suc (suc (suc (suc (suc (suc (suc (suc (suc d)))))))))) h = absurd (omega arith)

value-digits_onto :
    (fuel n : ℕ) (rest : String) → n < fuel → value (digits_onto fuel n rest) 0 ≡ value rest n
unfolding digits_onto value
value-digits_onto zero n rest h = absurd (omega arith)
value-digits_onto (suc fuel) n rest h =
    if_intro (λ s. value s 0 ≡ value rest n) (ltb n 10) _ _
      (λ k. ap (value rest) (ground (arith, k, code-digit n)))
      (λ k.
        value-digits_onto fuel (n / 10) (String.◌∷◌ (digit (n % 10)) rest) (ground (arith, k))
        ∙ ap (value rest) (omega (arith, code-digit (n % 10) (omega arith))))

digits-digits_onto :
    (fuel n : ℕ) (rest : String)
    → AllChars IsDigit rest
    → AllChars IsDigit (digits_onto fuel n rest)
unfolding digits_onto
digits-digits_onto zero n rest a = a
digits-digits_onto (suc fuel) n rest a =
    if_intro (AllChars IsDigit) (ltb n 10) _ _
      (λ k.
        let c = code-digit n (ground (arith, k)) in ((omega (arith, c), ground (arith, c, k)), a))
      (λ k.
        let c = code-digit (n % 10) (omega arith) in
        digits-digits_onto fuel (n / 10) _ ((omega (arith, c), omega (arith, c)), a))

leading-digits_onto :
    (fuel n : ℕ) (rest : String) → 0 < n → n < fuel → HasNoLeadingZero (digits_onto fuel n rest)
unfolding digits_onto
leading-digits_onto zero n rest p h = absurd (omega arith)
leading-digits_onto (suc fuel) n rest p h =
    if_intro HasNoLeadingZero (ltb n 10) _ _
      (λ k. let c = code-digit n (ground (arith, k)) in λ z. omega (arith, c))
      (λ k. leading-digits_onto fuel (n / 10) _ (ground (arith, k)) (ground (arith, k)))

pub decimal-IsNumeral : (n : ℕ) → 0 < n → IsNumeral (decimal n) n
unfolding decimal value
decimal-IsNumeral n p = record {
  digits = digits-digits_onto (suc n) n String.[] tt;
  no_leading_zero = leading-digits_onto (suc n) n String.[] p (omega arith);
  value = value-digits_onto (suc n) n String.[] (omega arith);
}

-- Each of the `k` numbers after `c` is the id of a job.
abbrev pub AllTaken : Map ℕ → ℕ → ℕ → Type 0
AllTaken jobs c zero = Unit
AllTaken jobs c (suc k) =
    ((id : String) × IsNumeral id (suc c) × (get? id jobs ≢ none)) × AllTaken jobs (suc c) k

-- The id is the first number after the counter that is no job's id, and the counter stands there; or so
-- many numbers as the collisions allow were taken.
abbrev pub Generated : Map ℕ → ℕ → ℕ → Option String × ℕ → Type 0
Generated jobs left c d =
    ((id : String) × (k : ℕ) × (d.0 ≡ some id)
      × (k < left)
      × (d.1 ≡ suc (c + k))
      × IsNumeral id (suc (c + k))
      × (get? id jobs ≡ none)
      × AllTaken jobs c k)
    ⊎ ((d.0 ≡ none) × (d.1 ≡ c + left) × AllTaken jobs c left)

not_there : (o : Option ℕ) → is_there o ≡ false → o ≡ none
unfolding is_there
not_there none h = refl
not_there (some n) h = cc

there : (o : Option ℕ) → is_there o ≡ true → o ≢ none
unfolding is_there
there none h e = absurd cc
there (some n) h e = cc

-- The loop of generateJobId on a counter and a number of collisions allowed returns the numeral of the first
-- number after the counter that is no job's id, and leaves the counter at it, when one of so many numbers
-- is free. Otherwise all of these are ids of jobs, and it returns none with the counter at the last.
pub free_id-Generated :
    (jobs : Map ℕ) (left id_counter : ℕ)
    → Generated jobs left id_counter (free_id jobs left id_counter)
unfolding free_id
free_id-Generated jobs zero c = inr (refl, omega arith, tt)
free_id-Generated jobs (suc left) c =
    let numeral = decimal-IsNumeral (suc c) (omega arith) in
    if_intro (Generated jobs (suc left) c) (is_there (get? (decimal (suc c)) jobs)) _ _
      (λ h. retried numeral (there _ h) (free_id-Generated jobs left (suc c)))
      (λ h. inl (
        decimal (suc c),
        0,
        refl,
        omega arith,
        omega arith,
        subst (IsNumeral (decimal (suc c))) (omega arith) numeral,
        not_there _ h,
        tt,
      ))
  where
    retried :
        IsNumeral (decimal (suc c)) (suc c)
        → get? (decimal (suc c)) jobs ≢ none
        → Generated jobs left (suc c) (free_id jobs left (suc c))
        → Generated jobs (suc left) c (free_id jobs left (suc c))
    retried n t (inl (id, k, e, l, m, i, f, a)) = inl (
      id,
      suc k,
      e,
      omega arith,
      omega (arith, m),
      subst (IsNumeral id) (omega arith) i,
      f,
      ((decimal (suc c), n, t), a),
    )
    retried n t (inr (e, m, a)) = inr (e, omega (arith, m), ((decimal (suc c), n, t), a))
