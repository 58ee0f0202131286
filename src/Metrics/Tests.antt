-- ===== src/Metrics/Tests.antt =====
-- Counters and histograms in whole numbers.
use sinkronisasi_dan_distrib.Base.{
  ◌-◌, ℕ, ◌+◌, String, ◌≡◌, refl, none, some, List, [], ◌∷◌, lookup, insert, dec_string, length,
}
use sinkronisasi_dan_distrib.Metrics.{
  track_latency, enter_timer, exit_timer, insert_item, sort_items, join_with, label_key, metric_key,
  init, inc_counter, observe, set_gauge, render_values, render_histograms, render_prometheus,
}
use sinkronisasi_dan_distrib.Metrics.Histograms.{
  Sample, observe_each, values_of, sum_from, read_histogram, observe_each-summary,
}

program : Unit {0}
unfolding lookup insert dec_string insert_item sort_items join_with label_key metric_key inc_counter
    observe set_gauge render_values render_histograms render_prometheus observe_each values_of
    sum_from
program = tt

abbrev plus : ℕ → ℕ → ℕ
plus a b = a + b

abbrev sample : String → ℕ → Sample ℕ
sample queue value = record {
  name = "wait";
  value = value;
  labels = some (("queue", queue) ∷ ("op", "get") ∷ []);
}

key_of : metric_key "wait" (some (("queue", "a") ∷ ("op", "get") ∷ [])) ≡ "wait{op=get,queue=a}"
unfolding program
key_of = refl

abbrev samples : List (Sample ℕ)
samples = sample "a" 3 ∷ sample "b" 5 ∷ sample "a" 4 ∷ []

observe_each-summary_example :
    let (count, total) =
      read_histogram plus 0 "wait{op=get,queue=a}" (observe_each plus 0 samples init) in
    (count ≡ length (values_of plus 0 "wait{op=get,queue=a}" samples))
    × (total ≡ sum_from plus 0 0 (values_of plus 0 "wait{op=get,queue=a}" samples))
observe_each-summary_example = observe_each-summary plus 0 "wait{op=get,queue=a}" samples

text_of :
    render_prometheus {N = ℕ}
      (λ n. "x")
      (λ n. "n")
      (inc_counter plus 0 "b" 1 none (inc_counter plus 0 "a" 1 none init))
    ≡ "a x\nb x\n"
unfolding program
text_of = refl

timed :
    read_histogram plus 0 "t"
      (exit_timer plus ◌-◌ 0 9 (enter_timer 4 (track_latency 0 "t" none)) init)
    ≡ (1, 5)
unfolding program enter_timer exit_timer track_latency
timed = refl
