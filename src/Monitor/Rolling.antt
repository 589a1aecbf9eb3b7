-- ===== src/Monitor/Rolling.antt =====
-- Proofs about the monitor's window, and about its two views of it.
use ski_framework.Prelude.{
  ℕ, zero, suc, ◌+◌, ◌-◌, ◌≤◌, ◌≡◌, refl, sym, ap, ◌∙◌, inl, inr, none, some, List, [], ◌∷◌, ◌++◌,
  length, length-append, arith, Bool-cases, Option-cases, ◌==◌,
}
use ski_framework.Schema.{
  VerifierStatus, agreed, llm_contradiction, neuro_symbolic_divergence, unverifiable,
}
use ski_framework.Value.Numeric.{Frac, ℤ, pos, negsuc}
use ski_framework.Merkle.Slices.{drop, length-drop}
use ski_framework.Monitor.{
  Monitor, StatusInput, normalise_status, new_monitor, push_status, record_status, record_all,
  Counts, count_one, count_statuses, no_counts, count_agreed, monitor_snapshot, is_healthy,
}

drop-append :
    (k : ℕ) (xs ys : List VerifierStatus) → k ≤ length xs → drop k (xs ++ ys) ≡ drop k xs ++ ys
drop-append zero xs ys h = refl
drop-append (suc k) [] ys h = absurd (omega arith)
drop-append (suc k) (x ∷ xs) ys h = drop-append k xs ys (omega arith)

drop-drop : (a b : ℕ) (xs : List VerifierStatus) → drop a (drop b xs) ≡ drop (b + a) xs
drop-drop a zero xs = ap (λ (k : ℕ). drop k xs) (omega arith)
drop-drop zero (suc b) [] =
    let e : suc b + zero ≡ suc (b + zero) = omega arith in ap (λ (k : ℕ). drop k []) (sym e)
drop-drop (suc a) (suc b) [] =
    let e : suc b + suc a ≡ suc (b + suc a) = omega arith in ap (λ (k : ℕ). drop k []) (sym e)
drop-drop a (suc b) (x ∷ xs) =
    drop-drop a b xs
    ∙ (let e : suc b + a ≡ suc (b + a) = omega arith in ap (λ (k : ℕ). drop k (x ∷ xs)) (sym e))

-- the last `n` of a list
abbrev pub last : ℕ → List VerifierStatus → List VerifierStatus
last n xs = drop (length xs - n) xs

push_status-last :
    (n : ℕ) (s : VerifierStatus) (xs : List VerifierStatus)
    → push_status n s (last n xs) ≡ last n (xs ++ (s ∷ []))
unfolding push_status
push_status-last n s xs =
    let gone = length xs - n in
    let left = length-drop gone xs in
    let more = length-append xs (s ∷ []) in
    ap (drop (length (last n xs) + 1 - n)) (sym (drop-append gone xs (s ∷ []) (omega arith)))
    ∙ drop-drop (length (last n xs) + 1 - n) gone (xs ++ (s ∷ []))
    ∙ ap (λ (k : ℕ). drop k (xs ++ (s ∷ []))) (omega (arith, left, more))

append-assoc_one :
    (xs : List VerifierStatus) (s : VerifierStatus) (ys : List VerifierStatus)
    → (xs ++ (s ∷ [])) ++ ys ≡ xs ++ (s ∷ ys)
append-assoc_one [] s ys = refl
append-assoc_one (x ∷ xs) s ys = ap (λ zs. x ∷ zs) (append-assoc_one xs s ys)

append-nil : (xs : List VerifierStatus) → xs ++ [] ≡ xs
append-nil [] = refl
append-nil (x ∷ xs) = ap (λ zs. x ∷ zs) (append-nil xs)

-- the statuses among what was given
unfoldable pub accepted : List StatusInput → List VerifierStatus
unfolding normalise_status
accepted [] = []
accepted (i ∷ is) =
    let rest = accepted is in elim (normalise_status i) [ some s ↦ s ∷ rest | none ↦ rest ]

record_all-last :
    (is : List StatusInput) (before : List VerifierStatus) (m : Monitor)
    → m.statuses ≡ last m.window_size before
    → (record_all is m).statuses ≡ last m.window_size (before ++ accepted is)
unfolding record_all record_status accepted
record_all-last [] before m h = h ∙ ap (last m.window_size) (sym (append-nil before))
record_all-last (i ∷ is) before m h = elim (Option-cases (normalise_status i)) [
  | inl raised ↦ rw (record_all, record_status, accepted, raised) (record_all-last is before m h)
  | inr (s, e) ↦
      rw (record_all, record_status, accepted, e)
        (record_all-last is (before ++ (s ∷ []))
            (record m { statuses = push_status m.window_size s m.statuses })
            (ap (push_status m.window_size s) h ∙ push_status-last m.window_size s before)
          ∙ ap (last m.window_size) (append-assoc_one before s (accepted is)))
]

count_statuses-agreed :
    (ss : List VerifierStatus) (c : Counts)
    → (count_statuses ss c).agreed_count ≡ c.agreed_count + count_agreed ss
unfolding count_statuses count_agreed
count_statuses-agreed [] c = omega arith
count_statuses-agreed (agreed ∷ ss) c = omega (arith, count_statuses-agreed ss (count_one agreed c))
count_statuses-agreed (llm_contradiction ∷ ss) c =
    omega (arith, count_statuses-agreed ss (count_one llm_contradiction c))
count_statuses-agreed (neuro_symbolic_divergence ∷ ss) c =
    omega (arith, count_statuses-agreed ss (count_one neuro_symbolic_divergence c))
count_statuses-agreed (unverifiable ∷ ss) c =
    omega (arith, count_statuses-agreed ss (count_one unverifiable c))

-- the two views agree on whether the monitor is healthy
is_healthy-snapshot :
    (divide : ℕ → ℕ → Frac) (m : Monitor)
    → (monitor_snapshot divide m).is_healthy ≡ is_healthy divide m
unfolding monitor_snapshot is_healthy
is_healthy-snapshot divide m =
    let same : (count_statuses m.statuses no_counts).agreed_count ≡ count_agreed m.statuses =
      count_statuses-agreed m.statuses no_counts ∙ (omega arith) in
    elim (Bool-cases (length m.statuses == 0)) [
      | inl none_yet ↦ rw (monitor_snapshot, is_healthy, none_yet) refl
      | inr some_seen ↦ rw (monitor_snapshot, is_healthy, some_seen, same) refl
    ]

last-nil : (n : ℕ) → last n [] ≡ []
last-nil n = let e : 0 - n ≡ 0 = omega arith in ap (λ (k : ℕ). drop k []) e

new_monitor-empty : (w : ℤ) (t : Frac) (m : Monitor) → new_monitor w t ≡ some m → m.statuses ≡ []
unfolding new_monitor
new_monitor-empty (negsuc n) t m h = ground arith
new_monitor-empty (pos n) t m h = ground arith

-- the size that the constructor is given is the size of the window
new_monitor-window_size :
    (n : ℕ) (t : Frac) (m : Monitor) → new_monitor (pos n) t ≡ some m → m.window_size ≡ n
unfolding new_monitor
new_monitor-window_size n t m h = ground arith

-- A monitor that is made with a window of n holds, after any calls of `record`, the last n of the
-- statuses among what it was given, where a call that raises adds none; and `snapshot` and
-- `is_healthy` then agree on its health.
pub rolling_window :
    (divide : ℕ → ℕ → Frac) (n : ℕ) (t : Frac) (m : Monitor) (is : List StatusInput)
    → new_monitor (pos n) t ≡ some m
    → ((record_all is m).statuses ≡ last n (accepted is))
      × ((monitor_snapshot divide (record_all is m)).is_healthy
          ≡ is_healthy divide (record_all is m))
rolling_window divide n t m is h = (
  record_all-last is [] m (new_monitor-empty (pos n) t m h ∙ sym (last-nil m.window_size))
      ∙ ap (λ (k : ℕ). last k (accepted is)) (new_monitor-window_size n t m h),
  is_healthy-snapshot divide (record_all is m),
)
