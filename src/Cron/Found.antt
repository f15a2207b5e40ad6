-- ===== src/Cron/Found.antt =====
-- The loop of searchCronWall of src/utils.ts, and the first match that `resolve` accepts.
use glide_mq.Common.{
  ℕ, zero, suc, ◌+◌, ◌≡◌, ◌⊎◌, inl, inr, Option, none, some, arith, ◌∙◌, ap, Option-cases, dec_lt,
}
use glide_mq.Cron.Calendar.{Wall, wall_plus_one_second}
use glide_mq.Cron.Search.{
  CronPattern, Move, skip, stop, walk, after_move, search_from, search_cron_wall, max_search_years,
  max_search_steps,
}
use glide_mq.Cron.Order.{
  IsPattern, IsWall, IsNear, IsLater, IsStrictlyLater, IsLater-trans, days_in_month_bounds,
}
use glide_mq.Cron.Steps.{Matched, target, Lands, walk-IsLater, walk-Lands}
use glide_mq.Cron.Instants.{
  IsLater-of_instants, wall_plus_one_second-instant, wall_plus_one_second-IsWall,
  wall_plus_one_second-IsLater,
}

-- `t` comes from the first matching time from `w` on that resolves.
pub record Found (cron : CronPattern) (resolve : Wall → Option ℕ) (w : Wall) (t : ℕ) : Type 0 where
  pub at : Wall
  pub wall : IsWall at
  pub matched : Matched cron at
  pub resolves : resolve at ≡ some t
  pub later : IsLater w at
  pub earliest :
      (v : Wall) → IsWall v → Matched cron v → IsLater w v → IsStrictlyLater v at → resolve v ≡ none

pub IsWall-IsNear : (w : Wall) → IsWall w → IsNear w
IsWall-IsNear w i = record {
  year = i.year;
  month = i.month;
  day = omega (arith, i.day, days_in_month_bounds w.year w.month);
  hour = omega (arith, i.hour);
  minute = omega (arith, i.minute);
  second = omega (arith, i.second);
}

IsStrictlyLater-irrefl : (v w : Wall) → IsLater v w → IsStrictlyLater w v → ⊥
IsStrictlyLater-irrefl v w h k = ground arith

pub same_or_later : (v w : Wall) → IsLater v w → (w ≡ v) ⊎ IsStrictlyLater v w
same_or_later v w (inl h) = inr (inl h)
same_or_later v w (inr (a, inl h)) = inr (inr (a, inl h))
same_or_later v w (inr (a, inr (b, inl h))) = inr (inr (a, inr (b, inl h)))
same_or_later v w (inr (a, inr (b, inr (c, inl h)))) = inr (inr (a, inr (b, inr (c, inl h))))
same_or_later v w (inr (a, inr (b, inr (c, inr (d, inl h))))) =
    inr (inr (a, inr (b, inr (c, inr (d, inl h)))))
same_or_later v w (inr (a, inr (b, inr (c, inr (d, inr (e, h)))))) =
    elim (dec_lt v.second w.second) [
      | yes k ↦ inr (inr (a, inr (b, inr (c, inr (d, inr (e, k))))))
      | no k ↦ inl (ground arith)
    ]

wall_plus_one_second_self : (v : Wall) → IsWall v → IsLater v (wall_plus_one_second v)
wall_plus_one_second_self v i =
    IsLater-of_instants v (wall_plus_one_second v) i (wall_plus_one_second-IsWall v)
      (omega (arith, wall_plus_one_second-instant v))

module _ (cron : CronPattern) (p : IsPattern cron) (resolve : Wall → Option ℕ) (w : Wall)
    (t : ℕ) where
  abbrev Passed : Wall → Type 0
  Passed u = (v : Wall) → IsWall v → Matched cron v → IsLater w v → IsLater u v

  Found-stop :
      (at : Wall)
      → Lands cron w (stop at)
      → Passed at
      → resolve at ≡ some t
      → Found cron resolve w t
  Found-stop at l k e = record {
    at = at;
    wall = l.0;
    matched = l.1;
    resolves = e;
    later = l.2;
    earliest = λ v i m h s. absurd (IsStrictlyLater-irrefl at v (k v i m h) s);
  }

  -- The search goes on from `u`, and no match before `u` resolves.
  Found-go_on :
      (u : Wall)
      → IsLater w u
      → Found cron resolve u t
      → ((v : Wall) → IsWall v → Matched cron v → IsLater w v → (resolve v ≡ none) ⊎ IsLater u v)
      → Found cron resolve w t
  Found-go_on u h f k = record {
    at = f.at;
    wall = f.wall;
    matched = f.matched;
    resolves = f.resolves;
    later = IsLater-trans w u f.at h f.later;
    earliest = λ v i m l s. elim (k v i m l) [ inl e ↦ e | inr l' ↦ f.earliest v i m l' s ];
  }

  after_move-Found :
      (continue : Wall → Option ℕ) (mv : Move)
      → Lands cron w mv
      → Passed (target mv)
      → ((u : Wall) → IsNear u → continue u ≡ some t → Found cron resolve u t)
      → after_move continue resolve mv ≡ some t
      → Found cron resolve w t
  unfolding after_move
  after_move-Found continue (skip u) l k rest h =
      Found-go_on u l.1 (rest u l.0 h) (λ v i m s. inr (k v i m s))
  after_move-Found continue (stop at) l k rest h = elim (Option-cases (resolve at)) [
    | inr (t', e) ↦ Found-stop at l k (ground arith)
    | inl e ↦
        let next = wall_plus_one_second at in
        Found-go_on next (IsLater-trans w at next l.2 (wall_plus_one_second_self at l.0))
          (rest next (IsWall-IsNear next (wall_plus_one_second-IsWall at)) (ground arith))
          λ v i m s. elim (same_or_later at v (k v i m s)) [
            | inl q ↦ inl (ap resolve q ∙ e)
            | inr q ↦ inr (wall_plus_one_second-IsLater at v l.0 i q)
          ]
  ]

pub search_from-Found :
    (cron : CronPattern) (p : IsPattern cron) (resolve : Wall → Option ℕ) (end_year steps : ℕ)
    (w : Wall) (t : ℕ)
    → IsNear w
    → search_from cron end_year resolve steps w ≡ some t
    → Found cron resolve w t
unfolding search_from
search_from-Found cron p resolve end_year zero w t i h = cc
search_from-Found cron p resolve end_year (suc steps) w t i h =
    after_move-Found cron p resolve w t (search_from cron end_year resolve steps) (walk cron w)
      (walk-Lands cron p w i) (λ v k m l. walk-IsLater cron p w v i k m l)
      (λ u j. search_from-Found cron p resolve end_year steps u t j) (ground arith)

-- When searchCronWall returns, for a pattern with a value in each time field and a calendar time to
-- start from, it returns what `resolve` made of the first time from there on that the pattern matches
-- and that `resolve` does not turn down.
pub search_cron_wall-Found :
    (cron : CronPattern) (start : Wall) (resolve : Wall → Option ℕ) (t : ℕ)
    → IsPattern cron
    → IsWall start
    → search_cron_wall cron start resolve ≡ some t
    → Found cron resolve start t
unfolding search_cron_wall
search_cron_wall-Found cron start resolve t p i h =
    search_from-Found cron p resolve (start.year + max_search_years) max_search_steps start t
      (IsWall-IsNear start i) h
