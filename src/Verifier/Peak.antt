-- ===== src/Verifier/Peak.antt =====
-- `_check_must_not_exceed_in_window` of v3/verifier.py over a buffer that returns samples: the
-- peak passes exactly if every sample does.
use mathlib.Core.Path.{subst}
use ski_framework.Value.{Value, null, bool, int, float, str, obj, arr, Fields, find}
use ski_framework.Prelude.{
  ℕ, String, ◌≡◌, refl, ◌&&◌, none, some, List, [], ◌∷◌, arith, all, is_empty, if◌then◌else◌, ap,
  sym, ◌∙◌, ◌↔◌, In, Bool, true, inl, inr, Option-cases, some-injective, ◌>>=◌, suc,
}
use ski_framework.Value.Numeric.{Frac, le_frac, lt_frac, pos}
use ski_framework.Value.Numeric.Order.{le_frac_trans, le_frac_total, lt_frac-eq-not}
use ski_framework.Schema.{Assertion}
use ski_framework.Verifier.Handlers.{real}
use ski_framework.Verifier.Window.{
  Time, Buffer, Context, Sample, timed, bare, sample_value, sequence, extract_values, max_values,
  summarize_window, summarize_values, reported_peak, query_window, check_must_not_exceed_in_window,
}

-- The larger of two values is within a bound if both are.
le_frac-larger :
    (a b t : Frac) → le_frac (if lt_frac a b then b else a) t ≡ (le_frac a t && le_frac b t)
le_frac-larger a b t = grind (arith, lt_frac-eq-not a b, le_frac_trans, le_frac_total)

le_frac-max_values :
    (best : Frac) (xs : List Frac) (t : Frac)
    → le_frac (max_values best xs) t ≡ (le_frac best t && all (λ x. le_frac x t) xs)
unfolding max_values
le_frac-max_values best [] t = ground arith
le_frac-max_values best (x ∷ xs) t =
    ground
      (arith, le_frac-max_values (if lt_frac best x then x else best) xs t, le_frac-larger best x t)

-- A sample has a number: of a pair the second part, of an object its `value`, else the sample itself.
pub data Reads : Sample → Frac → Type 0 where
  of_pair : {t v : Value} {x : Frac} → real v ≡ some x → Reads (timed t v) x
  of_value :
      {d : Fields} {v : Value} {x : Frac}
      → find "value" d ≡ some v
      → real v ≡ some x
      → Reads (bare (obj d)) x
  of_bare : {v : Value} {x : Frac} → real v ≡ some x → Reads (bare v) x

-- Some sample has a number, and every number of a sample is at most the limit.
abbrev pub IsBelow : List Sample → Frac → Type 0
IsBelow samples t =
    ((s : Sample) × (x : Frac) × In s samples × Reads s x)
    × ((s : Sample) (x : Frac) → In s samples → Reads s x → le_frac x t ≡ true)

plain-real : (v : Value) (x : Frac) → real v ≡ some x → real (sample_value (bare v)) ≡ some x
unfolding real
plain-real (obj d) x h = cc h
plain-real null x h = h
plain-real (bool b) x h = h
plain-real (int n) x h = h
plain-real (float y) x h = h
plain-real (str y) x h = h
plain-real (arr y) x h = h

Reads-real : (s : Sample) (x : Frac) → Reads s x → real (sample_value s) ≡ some x
Reads-real (timed t v) x (of_pair h) = h
Reads-real (bare (obj d)) x (of_value e h) = rw e h
Reads-real (bare v) x (of_bare h) = plain-real v x h

real-Reads : (s : Sample) (x : Frac) → real (sample_value s) ≡ some x → Reads s x
unfolding real
real-Reads (timed t v) x h = of_pair h
real-Reads (bare (obj d)) x h = elim (Option-cases (find "value" d)) [
  | inl e ↦ cc (rw e at h)
  | inr (v, e) ↦ of_value e (rw e at h)
]
real-Reads (bare null) x h = of_bare h
real-Reads (bare (bool b)) x h = of_bare h
real-Reads (bare (int n)) x h = of_bare h
real-Reads (bare (float y)) x h = of_bare h
real-Reads (bare (str y)) x h = of_bare h
real-Reads (bare (arr y)) x h = of_bare h

-- The numbers that are extracted are those of the samples.
extract_values-Reads :
    (samples : List Sample) (x : Frac)
    → In x (extract_values samples) ↔ ((s : Sample) × In s samples × Reads s x)
unfolding extract_values
extract_values-Reads [] x = (λ m. absurd m, λ (s, m, r). absurd m)
extract_values-Reads (s ∷ samples) x =
    let rest = extract_values-Reads samples x in
    elim (Option-cases (real (sample_value s))) [
      | inl e ↦
          rw (e, extract_values)
            (
              λ m. let (k, at_k, r) = rest.0 m in (k, inr at_k, r),
              λ (k, at_k, r). rest.1 (k, missed k e at_k r, r),
            )
      | inr (y, e) ↦
          rw (e, extract_values)
            (
              λ m. elim m [
                | inl same ↦ (s, inl refl, real-Reads s x (e ∙ ap (λ z. some z) (sym same)))
                | inr n ↦ let (k, at_k, r) = rest.0 n in (k, inr at_k, r)
              ],
              λ (k, at_k, r). elim at_k [
                | inl same ↦
                    inl (some-injective (sym (Reads-real s x (subst (λ z. Reads z x) same r)) ∙ e))
                | inr n ↦ inr (rest.1 (k, n, r))
              ],
            )
    ]
  where
    missed :
        (k : Sample) → real (sample_value s) ≡ none → In k (s ∷ samples) → Reads k x → In k samples
    missed k e (inl same) r = absurd (cc (e, Reads-real s x (subst (λ z. Reads z x) same r)))
    missed k e (inr n) r = n

all-In :
    (xs : List Frac) (t : Frac)
    → (all (λ x. le_frac x t) xs ≡ true) ↔ ((x : Frac) → In x xs → le_frac x t ≡ true)
all-In [] t = (λ h x m. absurd m, λ h. refl)
all-In (x ∷ xs) t =
    let rest = all-In xs t in
    (
      λ h y m. elim m [
        | inl e ↦ rw e (both (le_frac x t) (all (λ z. le_frac z t) xs) h).0
        | inr n ↦ rest.0 (both (le_frac x t) (all (λ z. le_frac z t) xs) h).1 y n
      ],
      λ h. rw (h x (inl refl)) (rest.1 (λ y n. h y (inr n))),
    )
  where
    both : (a b : Bool) → a && b ≡ true → (a ≡ true) × (b ≡ true)
    both a b h = ground arith

peak_outcome :
    (xs : List Frac) (t : Frac)
    → (reported_peak (summarize_values xs) >>= λ peak. some (le_frac peak t))
      ≡ (if is_empty xs then none else some (all (λ x. le_frac x t) xs))
peak_outcome [] t = refl
peak_outcome (x ∷ xs) t = ap some (le_frac-max_values x xs t)

module _ (c : Context) (a : Assertion) {buffer : Buffer} {subject : String} {as_of : Time} (n : ℕ)
    (threshold : Frac) (samples : List Sample) (has_buffer : c.buffer ≡ some buffer)
    (has_subject : c.subject ≡ some subject) (has_as_of : c.as_of ≡ some as_of)
    (window : a.window_seconds ≡ some (pos (suc n))) (limit : real a.value ≡ some threshold)
    (answer : buffer.window_query subject as_of (suc n) (some a.metric)
      ≡ some (sequence samples)) where
  peak_values : check_must_not_exceed_in_window c a ≡ (
      if is_empty (extract_values samples)
      then none
      else some (all (λ x. le_frac x threshold) (extract_values samples)))
  unfolding check_must_not_exceed_in_window query_window summarize_window
  peak_values =
      rw (has_buffer, has_subject, has_as_of, window, limit, answer)
        (peak_outcome (extract_values samples) threshold)

  -- Let a buffer be given that answers the query of a window with samples, and let the limit be a
  -- real number. A sample has a number if the second part of a pair, the `value` of an object, or
  -- the sample itself is a real number. The window predicate on the peak is undecided exactly if
  -- no sample has a number, and is satisfied exactly if some sample has one and every number of a
  -- sample is at most the limit.
  pub window_peak :
      ((check_must_not_exceed_in_window c a ≡ none)
        ↔ ((s : Sample) (x : Frac) → In s samples → Reads s x → ⊥))
      × ((check_must_not_exceed_in_window c a ≡ some true) ↔ IsBelow samples threshold)
  window_peak = rw peak_values (decided (extract_values samples) (extract_values-Reads samples))
    where
      decided :
          (xs : List Frac)
          → ((x : Frac) → In x xs ↔ ((s : Sample) × In s samples × Reads s x))
          → (((if is_empty xs then none else some (all (λ x. le_frac x threshold) xs)) ≡ none)
              ↔ ((s : Sample) (x : Frac) → In s samples → Reads s x → ⊥))
            × (((if is_empty xs then none else some (all (λ x. le_frac x threshold) xs))
                  ≡ some true)
                ↔ IsBelow samples threshold)
      decided [] reads = (
        (λ h s x m r. (reads x).1 (s, m, r), λ h. refl),
        (λ h. cc h, λ ((s, x, m, r), below). absurd ((reads x).1 (s, m, r))),
      )
      decided (y ∷ ys) reads =
          let (s, m, r) = (reads y).0 (inl refl) in
          (
            (λ h. cc h, λ h. absurd (h s y m r)),
            (
              λ h. (
                (s, y, m, r),
                λ k x n q.
                    (all-In (y ∷ ys) threshold).0 (some-injective h) x ((reads x).1 (k, n, q)),
              ),
              λ (given, below). ap some (
                  (all-In (y ∷ ys) threshold).1
                    (λ x n. let (k, at_k, q) = (reads x).0 n in below k x at_k q)),
            ),
          )
