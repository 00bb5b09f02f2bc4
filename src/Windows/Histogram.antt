-- ===== src/Windows/Histogram.antt =====
-- The sizes of the chunks of a window: streaming/attribution_window.py.
use fog_http_benchmark.Prelude.{
  ℕ, suc, ◌*◌, Bool, false, ◌&&◌, Option, none, some, List, [], ◌∷◌, ◌++◌, map, contains, leb,
  nat_eq,
}
use fog_http_benchmark.Prelude.Int.{pos}
use fog_http_benchmark.Json.{
  Json, int, arr, obj, Items, nil, cons, JsonObject, empty, entry, get, items,
}
use fog_http_benchmark.Validity.Attribution.{object_value}

-- sizes with the number of chunks of each, in the order of insertion
abbrev pub Bins : Type 0
Bins = List (ℕ × ℕ)

abbrev pub sizes : Bins → List ℕ
sizes = map (λ bin. bin.0)

-- the value, if `type(value) is int` and it is positive
unfoldable pub positive : Json → Option ℕ
positive (int (pos (suc n))) = some (suc n)
positive _ = none

abbrev pub bin_of : Json → Option (ℕ × ℕ)
bin_of (obj item) = elim (positive (get item "size_bytes")) [
  | none ↦ none
  | some size ↦ elim (positive (get item "count")) [ none ↦ none | some count ↦ some (size, count) ]
]
bin_of _ = none

-- An item that is no dict makes `len(bins) != len(value)`.
unfoldable pub read_bins : List Json → Bins → Option Bins
read_bins [] result = some result
read_bins (item ∷ rest) result = elim (bin_of item) [
  | none ↦ none
  | some bin ↦ elim (contains bin.0 (sizes result)) [
    | false ↦ read_bins rest (result ++ bin ∷ [])
    | _ ↦ none
  ]
]

-- `{"size_bytes": size, "count": count}`
abbrev pub bin_json : ℕ → ℕ → Json
bin_json size count =
    obj (entry "size_bytes" (int (pos size)) (entry "count" (int (pos count)) empty))

-- the list of them, as the measurement writes it from the sorted bins
unfoldable pub bins_json : Bins → Items
bins_json [] = nil
bins_json ((size, count) ∷ bins) = cons (bin_json size count) (bins_json bins)

-- `object_list`, whose length has to be that of the list
unfoldable pub histogram : Json → Option Bins
histogram (arr (cons item rest)) = read_bins (items (cons item rest)) []
histogram _ = none

abbrev chunks_fit : ℕ → Option ℕ → Option ℕ → Option ℕ → Bool
chunks_fit body (some chunks) (some minimum) (some maximum) =
    leb chunks body
    && leb minimum maximum
    && leb maximum body
    && leb (minimum * chunks) body
    && leb body (maximum * chunks)
chunks_fit body _ _ _ = false

unfoldable pub stream_chunk_bounds_match : JsonObject → ℕ → Bool
stream_chunk_bounds_match sample body =
    let distribution = object_value (get sample "distribution") in
    chunks_fit body (positive (get sample "chunks_read")) (positive (get distribution "min_bytes"))
      (positive (get distribution "max_bytes"))
