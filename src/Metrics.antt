-- ===== src/Metrics.antt =====
-- src/utils/metrics.py: `MetricsRegistry`. `N` are Python's floats, `plus` their sum, `nought` is 0.0,
-- `one` is 1.0, and `show` and `show_count` give the text of a number in an f-string. A reading
-- of the clock is one of `N` too, and `minus` is their difference.
pub mod Histograms
mod Tests
use Prim.Native.Nat.{Ordering}
use Prim.Native.String.{◌++◌, compare}
use mathlib.Core.List.{◌++◌ as append}
use sinkronisasi_dan_distrib.Base.{
  ℕ, ◌+◌, String, Bool, true, false, Option, none, some, List, [], ◌∷◌, Dict, lookup, insert, map,
  dec_string, ite, if◌then◌else◌,
}

-- `Optional[Dict[str, str]]`
abbrev pub Labels : Type 0
Labels = Option (Dict String)

-- The registry that a timer observes is an argument of `exit_timer`.
pub record LatencyTimer (N : Type 0) : Type 0 where
  pub metric_name : String
  pub labels : Labels
  pub start_time : N

pub record MetricsRegistry (N : Type 0) : Type 0 where
  pub counters : Dict N
  pub gauges : Dict N
  pub histograms : Dict (ℕ × N)

abbrev pub is_before : String → String → Bool
is_before s t = elim (compare s t) [ Ordering.lt ↦ true | Ordering.eq ↦ true | Ordering.gt ↦ false ]

module _ {V : Type 0} where
  -- `sorted(d.items())`: the keys of a dictionary are different, so no two values are compared
  unfoldable pub insert_item : String × V → Dict V → Dict V
  insert_item e [] = e ∷ []
  insert_item e (f ∷ d) =
      let rest = insert_item e d in if is_before e.0 f.0 then e ∷ f ∷ d else f ∷ rest

  unfoldable pub sort_items : Dict V → Dict V
  unfolding insert_item
  sort_items [] = []
  sort_items (e ∷ d) = insert_item e (sort_items d)

-- `sep.join(parts)`
unfoldable pub join_with : String → List String → String
join_with sep [] = ""
join_with sep (p ∷ []) = p
join_with sep (p ∷ q ∷ ps) = p ++ sep ++ join_with sep (q ∷ ps)

unfoldable pub label_key : Labels → String
unfolding sort_items join_with
label_key none = ""
label_key (some labels) = join_with "," (map (λ e. e.0 ++ "=" ++ e.1) (sort_items labels))

unfoldable pub metric_key : String → Labels → String
unfolding label_key
metric_key name labels =
    ite (dec_string (label_key labels) "") name (name ++ "{" ++ label_key labels ++ "}")

abbrev pub or_default : {V : Type 0} → V → Option V → V
or_default v none = v
or_default v (some w) = w

module _ {N : Type 0} where
  abbrev pub init : MetricsRegistry N
  init = record { counters = []; gauges = []; histograms = [] }

  module _ (plus : N → N → N) (nought : N) where
    unfoldable pub inc_counter : String → N → Labels → MetricsRegistry N → MetricsRegistry N
    unfolding metric_key
    inc_counter name value labels m =
        let key = metric_key name labels in
        record m {
          counters = insert key (plus (or_default nought (lookup key m.counters)) value) m.counters;
        }

    unfoldable pub observe : String → N → Labels → MetricsRegistry N → MetricsRegistry N
    unfolding metric_key
    observe name value labels m =
        let key = metric_key name labels in
        let (count, total) = or_default (0, nought) (lookup key m.histograms) in
        record m { histograms = insert key (count + 1, plus total value) m.histograms }

  unfoldable pub track_latency : N → String → Labels → LatencyTimer N
  track_latency nought name labels = record {
    metric_name = name;
    labels = labels;
    start_time = nought;
  }

  -- `__enter__` and `__exit__`, at a reading of the clock
  unfoldable pub enter_timer : N → LatencyTimer N → LatencyTimer N
  enter_timer now t = record t { start_time = now }

  unfoldable pub exit_timer :
      (N → N → N) → (N → N → N) → N → N → LatencyTimer N → MetricsRegistry N → MetricsRegistry N
  unfolding observe
  exit_timer plus minus nought now t m =
      observe plus nought t.metric_name (minus now t.start_time) t.labels m

  unfoldable pub set_gauge : String → N → Labels → MetricsRegistry N → MetricsRegistry N
  unfolding metric_key
  set_gauge name value labels m = record m {
    gauges = insert (metric_key name labels) value m.gauges;
  }

  module _ (show : N → String) (show_count : ℕ → String) where
    unfoldable pub render_values : Dict N → List String
    render_values [] = []
    render_values ((key, value) ∷ d) = (key ++ " " ++ show value) ∷ render_values d

    unfoldable pub render_histograms : Dict (ℕ × N) → List String
    render_histograms [] = []
    render_histograms ((key, (count, total)) ∷ d) =
        (key ++ "_count " ++ show_count count)
        ∷ (key ++ "_sum " ++ show total)
        ∷ render_histograms d

    unfoldable pub render_prometheus : MetricsRegistry N → String
    unfolding render_values render_histograms sort_items join_with
    render_prometheus m =
        join_with "\n" (
          append (render_values (sort_items m.counters)) (
            append (render_values (sort_items m.gauges))
              (render_histograms (sort_items m.histograms))))
        ++ "\n"
