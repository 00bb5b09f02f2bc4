-- ===== src/Tests/Windows.antt =====
-- Runs of the checks of a window of streams.
use fog_http_benchmark.Validity.Attribution.{object_value}
use fog_http_benchmark.Runtime.{is_text}
use fog_http_benchmark.Prelude.{
  contains, ◌≡◌, refl, true, false, none, some, [], ◌∷◌, ok, err, zero_division_error, map,
}
use fog_http_benchmark.Prelude.Int.{pos}
use fog_http_benchmark.Json.{
  json_eq, float_of_int, get, bool, int, float, str, arr, obj, Items, JsonObject, empty, entry,
  whole, items,
}
use fog_http_benchmark.Windows.{
  is_bool, streams_match, rounds_match, limits_match, window_workload_matches,
}
use fog_http_benchmark.Windows.Bounded.{IsWindow, window_workload_matches-IsWindow}
use fog_http_benchmark.Windows.Histogram.{
  positive, read_bins, Bins, histogram, bins_json, stream_chunk_bounds_match, bin_of,
}
use fog_http_benchmark.Windows.Distinct.{IsHistogram, histogram-IsHistogram, histogram-bins_json}

abbrev window_config : JsonObject
window_config = entry "rounds_per_batch" (int (pos 2)) (
    entry "attribution"
      (obj (
        entry "minimum_duration_s" (int (pos 1)) (entry "max_window_streams" (int (pos 50)) empty)))
      empty)

-- stopped by the limit: another round of eight streams would be the seventh
abbrev limited_window : JsonObject
limited_window = entry "minimum_duration_s" (float (whole 1)) (
    entry "minimum_rounds" (int (pos 2)) (
      entry "max_streams" (int (pos 50))
        (entry "target_reached" (bool false) (entry "stop_reason" (str "stream-limit") empty))))

abbrev limited_batch : JsonObject
limited_batch = entry "duration_s" (int (pos 0)) (
    entry "rounds" (int (pos 6))
      (entry "requests" (int (pos 48)) (entry "window" (obj limited_window) empty)))

limited_batch_matches : window_workload_matches limited_batch window_config 8 ≡ ok true
unfolding window_workload_matches get float_of_int limits_match whole rounds_match streams_match
    json_eq is_bool is_text
limited_batch_matches = refl

no_concurrency_raises :
    window_workload_matches limited_batch window_config 0 ≡ err zero_division_error
unfolding window_workload_matches get float_of_int limits_match whole rounds_match
no_concurrency_raises = refl

window_workload_matches-IsWindow_example : IsWindow limited_batch window_config 8
window_workload_matches-IsWindow_example =
    window_workload_matches-IsWindow limited_batch window_config 8 limited_batch_matches

abbrev two_bins : Bins
two_bins = (1024, 3) ∷ (4096, 1) ∷ []

two_bins_read : histogram (arr (bins_json two_bins)) ≡ some two_bins
unfolding histogram bins_json read_bins items positive get contains
two_bins_read = refl

repeated_size_refused : histogram (arr (bins_json ((1024, 3) ∷ (1024, 1) ∷ []))) ≡ none
unfolding histogram bins_json read_bins items positive get contains
repeated_size_refused = refl

histogram-IsHistogram_example :
    IsHistogram two_bins
    × ((vs : Items) × (arr (bins_json two_bins) ≡ arr vs)
        × (map bin_of (items vs) ≡ map some two_bins))
histogram-IsHistogram_example =
    histogram-IsHistogram (arr (bins_json two_bins)) two_bins two_bins_read

two_bins-IsHistogram : IsHistogram two_bins
two_bins-IsHistogram = (histogram-IsHistogram (arr (bins_json two_bins)) two_bins two_bins_read).0

histogram-bins_json_example : histogram (arr (bins_json two_bins)) ≡ some two_bins
histogram-bins_json_example = histogram-bins_json two_bins two_bins-IsHistogram

abbrev full_sample : JsonObject
full_sample = entry "chunks_read" (int (pos 4)) (
    entry "distribution"
      (obj (entry "min_bytes" (int (pos 1024)) (entry "max_bytes" (int (pos 4096)) empty))) empty)

sample_fits : stream_chunk_bounds_match full_sample 7168 ≡ true
unfolding stream_chunk_bounds_match positive get object_value
sample_fits = refl

small_chunks_refused : stream_chunk_bounds_match full_sample 16385 ≡ false
unfolding stream_chunk_bounds_match positive get object_value
small_chunks_refused = refl
