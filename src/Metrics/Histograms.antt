-- ===== src/Metrics/Histograms.antt =====
-- `observe`: what a histogram holds of the values observed.
use sinkronisasi_dan_distrib.Base.{
  ℕ, ◌+◌, String, ◌≡◌, refl, ◌∙◌, sym, ap, if_pos, if_neg, List, [], ◌∷◌, lookup, lookup-insert,
  dec_string, ite, length, arith,
}
use sinkronisasi_dan_distrib.Metrics.{
  Labels, MetricsRegistry, metric_key, or_default, init, observe,
}

-- one call of `observe` or `inc_counter`
pub record Sample (N : Type 0) : Type 0 where
  pub name : String
  pub value : N
  pub labels : Labels

module _ {N : Type 0} (plus : N → N → N) (nought : N) where
  unfoldable pub observe_each : List (Sample N) → MetricsRegistry N → MetricsRegistry N
  unfolding observe
  observe_each [] m = m
  observe_each (x ∷ xs) m = observe_each xs (observe plus nought x.name x.value x.labels m)

  -- the values of the calls with a key, in order
  unfoldable pub values_of : String → List (Sample N) → List N
  values_of k [] = []
  values_of k (x ∷ xs) =
      let rest = values_of k xs in
      ite (dec_string (metric_key x.name x.labels) k) (x.value ∷ rest) rest

  -- the sum from the left, as the additions are made
  unfoldable pub sum_from : N → List N → N
  sum_from t [] = t
  sum_from t (v ∷ vs) = sum_from (plus t v) vs

  -- the count and the total of a key
  abbrev pub read_histogram : String → MetricsRegistry N → ℕ × N
  read_histogram k m = or_default (0, nought) (lookup k m.histograms)

  read_histogram-observe :
      (k : String) (x : Sample N) (m : MetricsRegistry N)
      → read_histogram k (observe plus nought x.name x.value x.labels m) ≡ (
          let (count, total) = read_histogram k m in
          ite
            (dec_string (metric_key x.name x.labels) k)
            (count + 1, plus total x.value)
            (count, total))
  unfolding observe
  read_histogram-observe k x m =
      let key = metric_key x.name x.labels in
      let v : ℕ × N = ((read_histogram key m).0 + 1, plus (read_histogram key m).1 x.value) in
      elim (dec_string key k) [
        | yes same ↦
            ap (or_default (0, nought))
              (lookup-insert key k v m.histograms ∙ if_pos (dec_string key k) same _ _)
            ∙ ap (λ j. ((read_histogram j m).0 + 1, plus (read_histogram j m).1 x.value)) same
            ∙ sym (if_pos (dec_string key k) same _ _)
        | no other ↦
            ap (or_default (0, nought))
              (lookup-insert key k v m.histograms ∙ if_neg (dec_string key k) other _ _)
            ∙ sym (if_neg (dec_string key k) other _ _)
      ]

  observe_each_lem :
      (k : String) (xs : List (Sample N)) (m : MetricsRegistry N)
      → ((read_histogram k (observe_each xs m)).0
          ≡ length (values_of k xs) + (read_histogram k m).0)
        × ((read_histogram k (observe_each xs m)).1
            ≡ sum_from (read_histogram k m).1 (values_of k xs))
  unfolding observe_each values_of sum_from
  observe_each_lem k [] m = (omega arith, refl)
  observe_each_lem k (x ∷ xs) m =
      let m' = observe plus nought x.name x.value x.labels m in
      let (count, total) = observe_each_lem k xs m' in
      let step = read_histogram-observe k x m in
      elim (dec_string (metric_key x.name x.labels) k) [
        | yes same ↦
            let here = step ∙ if_pos (dec_string (metric_key x.name x.labels) k) same _ _ in
            rw (if_pos (dec_string (metric_key x.name x.labels) k) same) (
              omega (arith, count, ap (λ (e : ℕ × N). e.0) here),
              total ∙ ap (λ (e : ℕ × N). sum_from e.1 (values_of k xs)) here,
            )
        | no other ↦
            let here = step ∙ if_neg (dec_string (metric_key x.name x.labels) k) other _ _ in
            rw (if_neg (dec_string (metric_key x.name x.labels) k) other) (
              count ∙ ap (λ (e : ℕ × N). length (values_of k xs) + e.0) here,
              total ∙ ap (λ (e : ℕ × N). sum_from e.1 (values_of k xs)) here,
            )
      ]

  -- After any calls of `observe` on a new registry, the histogram of a key holds how many of the
  -- calls had that key, and the sum of their values, added in the order of the calls; a key that no
  -- call had reads as a count of 0 and a total of 0.0.
  pub observe_each-summary :
      (k : String) (xs : List (Sample N))
      → let (count, total) = read_histogram k (observe_each xs init) in
        (count ≡ length (values_of k xs)) × (total ≡ sum_from nought (values_of k xs))
  unfolding lookup
  observe_each-summary k xs =
      let (count, total) = observe_each_lem k xs init in (count ∙ omega arith, total)
