-- ===== src/Util/Times/Order.antt =====
-- The two ends that timespan.disambiguated returns.
use whooshy.Common.{
  ℕ, ◌+◌, ◌-◌, ◌≤◌, ◌≡◌, refl, sym, ◌∙◌, ap, Bool, true, false, ◌&&◌, ◌||◌, some, arith,
  if◌then◌else◌, ltb, Bool-cases, Option-cases, inl, inr,
}
use whooshy.Common.Result.{Result, ok, err, ◌>>=◌}
use whooshy.Util.Times.{
  Datetime, monthrange, is_none, lowest, highest, floor_adatetime, ceil_adatetime, At, exact, amb,
  floor, ceil,
}
use whooshy.Util.Times.Span.{
  date_after, same_date, time_after, next_day, year_of, year_or_zero, set_year, fill_years,
  fill_days, order_dates, order_times, disambiguated,
}
use whooshy.Util.Times.Bounds.{Below, new_datetime_fits, floor_adatetime-Below}

-- `a > b`
pub is_later : Datetime → Datetime → Bool
is_later a b = date_after a b || (same_date a b && time_after a b)

bind_ok :
    {A B : Type 0} (r : Result A) (k : A → Result B) (b : B)
    → (r >>= k) ≡ ok b
    → (a : A) × (r ≡ ok a) × (k a ≡ ok b)
bind_ok (ok a) k b h = (a, refl, h)
bind_ok (err e) k b h = absurd (cc h)

floor-Below : (x : At) (f c : Datetime) → floor x ≡ ok f → ceil x ≡ ok c → Below f c
unfolding floor ceil
floor-Below (exact d) f c hf hc =
    let ef : d ≡ f = cc hf in
    let ec : d ≡ c = cc hc in
    rw (← ef, ← ec)
      record {
        years = refl;
        months = omega arith;
        days = omega arith;
        hours = omega arith;
        minutes = omega arith;
        seconds = omega arith;
        microseconds = omega arith;
      }
floor-Below (amb a) f c hf hc = floor_adatetime-Below a f c hf hc

-- The year of what floor and ceil return.
floor-year : (x : At) (f : Datetime) → floor x ≡ ok f → year_of x ≡ some f.year
unfolding floor year_of floor_adatetime
floor-year (exact d) f h = let e : d ≡ f = cc h in rw e refl
floor-year (amb a) f h = elim (Option-cases a.year) [
  | inl unknown ↦ absurd (let bad = rw unknown at h in cc bad)
  | inr (y, known) ↦
      let (e, d, t) = new_datetime_fits (lowest y a) f (rw known at h) in rw (e, known) refl
]

ceil-year : (x : At) (c : Datetime) → ceil x ≡ ok c → year_of x ≡ some c.year
unfolding ceil year_of ceil_adatetime
ceil-year (exact d) f h = let e : d ≡ f = cc h in rw e refl
ceil-year (amb a) f h = elim (Option-cases a.year) [
  | inl unknown ↦ absurd (let bad = rw unknown at h in cc bad)
  | inr (y, known) ↦
      let (e, d, t) = new_datetime_fits (highest y a) f (rw known at h) in rw (e, known) refl
]

set_year-year_of : (y : ℕ) (x x' : At) → set_year y x ≡ ok x' → year_of x' ≡ some y
unfolding set_year year_of
set_year-year_of y (exact d) x' h = absurd (cc h)
set_year-year_of y (amb a) x' h =
    let e : amb (record a { year = some y }) ≡ x' = cc h in rw (← e) refl

-- A year that is set is one that a datetime can have.
set_year-floor : (y : ℕ) (x x' : At) (f : Datetime) → set_year y x ≡ ok x' → floor x' ≡ ok f → 1 ≤ y
unfolding set_year floor floor_adatetime
set_year-floor y (exact d) x' f h g = absurd (cc h)
set_year-floor y (amb a) x' f h g =
    let e : amb (record a { year = some y }) ≡ x' = cc h in
    let (e', d, t) = new_datetime_fits (lowest y (record a { year = some y })) f (rw (← e) at g) in
    ground (arith, d)

next_day_later :
    (s e e' : Datetime) → same_date s e ≡ true → next_day e ≡ ok e' → is_later s e' ≡ false
unfolding is_later same_date next_day date_after
next_day_later s e e' h n = elim (Bool-cases (ltb e.day (monthrange e.year e.month))) [
  | inl in_month ↦
      let n' = rw in_month at n in
      let q : record e { day = e.day + 1 } ≡ e' = cc n' in rw (← q) (ground (arith, h))
  | inr last ↦ elim (Bool-cases (ltb e.month 12)) [
    | inl in_year ↦
        let n' = rw (last, in_year) at n in
        let q : record e { month = e.month + 1; day = 1 } ≡ e' = cc n' in
        rw (← q) (ground (arith, h))
    | inr december ↦ elim (Bool-cases (ltb e.year 9999)) [
      | inl before_end ↦
          let n' = rw (last, december, before_end) at n in
          let q : record e { year = e.year + 1; month = 1; day = 1 } ≡ e' = cc n' in
          rw (← q) (ground (arith, h))
      | inr over ↦ absurd (let bad = rw (last, december, over) at n in cc bad)
    ]
  ]
]

order_times-is_later :
    (s e : Datetime) (r : Datetime × Datetime)
    → date_after s e ≡ false
    → order_times s e ≡ ok r
    → is_later r.0 r.1 ≡ false
unfolding order_times is_later
order_times-is_later s e r d h = elim (Bool-cases (same_date s e && time_after s e)) [
  | inl crossed ↦
      let h' = rw crossed at h in
      let (e', n, k) = bind_ok (next_day e) _ r h' in
      let same : (s, e') ≡ r = cc k in
      rw (← same) (next_day_later s e e' (ground (arith, crossed)) n)
  | inr straight ↦
      let h' = rw straight at h in
      let same : (s, e) ≡ r = cc h' in rw (← same) (rw (d, straight) refl)
]

Below-swapped :
    (s c f e : Datetime) → Below s c → date_after f c ≡ true → Below f e → date_after s e ≡ false
unfolding date_after
Below-swapped s c f e p h q =
    ground (arith, p.years, p.months, p.days, h, q.years, q.months, q.days)

earlier_year : (s e : Datetime) → s.year + 1 ≤ e.year → date_after s e ≡ false
unfolding date_after
earlier_year s e h = ground arith

fst_eq : {p q : At × At} → p ≡ q → p.0 ≡ q.0
fst_eq h = ap (λ (p : At × At). p.0) h

snd_eq : {p q : At × At} → p ≡ q → p.1 ≡ q.1
snd_eq h = ap (λ (p : At × At). p.1) h

some_inj : {a b : ℕ} → some a ≡ some b → a ≡ b
some_inj h = cc h

order_dates-date_after :
    (sa ea : Bool) (x y : At) (r : At × At) (s e : Datetime)
    → order_dates sa ea x y ≡ ok r
    → floor r.0 ≡ ok s
    → ceil r.1 ≡ ok e
    → date_after s e ≡ false
unfolding order_dates
order_dates-date_after sa ea x y r s e h hs he =
    let (f, hf, h1) = bind_ok (floor x) _ r h in
    let (c, hc, h2) = bind_ok (ceil y) _ r h1 in
    elim (Bool-cases (date_after f c)) [
      | inr ordered ↦
          let h3 = rw ordered at h2 in
          let q : (x, y) ≡ r = cc h3 in
          let hs' : ok f ≡ ok s = sym hf ∙ rw (fst_eq q) hs in
          let he' : ok c ≡ ok e = sym hc ∙ rw (snd_eq q) he in
          let es : f ≡ s = cc hs' in let ee : c ≡ e = cc he' in rw (← es, ← ee) ordered
      | inl crossed ↦ swapped sa ea f c (rw crossed at h2) hf hc crossed
    ]
  where
    swapped :
        (sa ea : Bool) (f c : Datetime)
        → (if sa
            then (set_year (year_or_zero (year_of y) - 1) x >>= λ x'. ok (x', y))
            else if ea
            then (set_year (year_or_zero (year_of x) + 1) y >>= λ y'. ok (x, y'))
            else ok (y, x))
          ≡ ok r
        → floor x ≡ ok f
        → ceil y ≡ ok c
        → date_after f c ≡ true
        → date_after s e ≡ false
    swapped true ea f c h hf hc crossed =
        let (x', hx, k) = bind_ok (set_year (year_or_zero (year_of y) - 1) x) _ r h in
        let q : (x', y) ≡ r = cc k in
        let hs' : floor x' ≡ ok s = rw (fst_eq q) hs in
        let he' : ceil y ≡ ok e = rw (snd_eq q) he in
        let ys = some_inj (sym (floor-year x' s hs') ∙ set_year-year_of _ x x' hx) in
        let one = set_year-floor _ x x' s hx hs' in
        let ye : year_or_zero (year_of y) ≡ e.year = rw (ceil-year y e he') refl in
        earlier_year s e (omega (arith, ys, one, ye))
    swapped false true f c h hf hc crossed =
        let (y', hy, k) = bind_ok (set_year (year_or_zero (year_of x) + 1) y) _ r h in
        let q : (x, y') ≡ r = cc k in
        let hs' : floor x ≡ ok s = rw (fst_eq q) hs in
        let he' : ceil y' ≡ ok e = rw (snd_eq q) he in
        let ye = some_inj (sym (ceil-year y' e he') ∙ set_year-year_of _ y y' hy) in
        let ys : year_or_zero (year_of x) ≡ s.year = rw (floor-year x s hs') refl in
        earlier_year s e (omega (arith, ys, ye))
    swapped false false f c h hf hc crossed =
        let q : (y, x) ≡ r = cc h in
        let hs' : floor y ≡ ok s = rw (fst_eq q) hs in
        let he' : ceil x ≡ ok e = rw (snd_eq q) he in
        Below-swapped s c f e (floor-Below y s c hs' hc) crossed (floor-Below x f e hf he')

-- Whatever the two ends and the base date are: if timespan.disambiguated returns, its start is not
-- after its end.
pub disambiguated-is_later :
    (start end : At) (base : Datetime) (r : Datetime × Datetime)
    → disambiguated start end base ≡ ok r
    → is_later r.0 r.1 ≡ false
unfolding disambiguated
disambiguated-is_later start end base r h =
    let (p1, e1, h1) = bind_ok (fill_years start end base) _ r h in
    let (p2, e2, h2) = bind_ok (fill_days p1.0 p1.1 base) _ r h1 in
    let (p3, e3, h3) =
      bind_ok (order_dates (is_none (year_of start)) (is_none (year_of end)) p2.0 p2.1) _ r h2 in
    let (s, e4, h4) = bind_ok (floor p3.0) _ r h3 in
    let (e, e5, h5) = bind_ok (ceil p3.1) _ r h4 in
    order_times-is_later s e r (order_dates-date_after _ _ p2.0 p2.1 p3 s e e3 e4 e5) h5
