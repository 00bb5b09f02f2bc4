-- ===== src/Json/Value.antt =====
-- JSON values. A dict is the list of its entries, in order.
use fog_http_benchmark.Prelude.{Bool, String, List, [], ◌∷◌}
use fog_http_benchmark.Prelude.Int.{ℤ}
use fog_http_benchmark.Json.Floats.{Float}

mutual
  pub data Json : Type 0 where
    null : Json
    bool : Bool → Json
    int : ℤ → Json
    float : Float → Json
    str : String → Json
    arr : Items → Json
    obj : JsonObject → Json

  pub data Items : Type 0 where
    nil : Items
    cons : Json → Items → Items

  pub data JsonObject : Type 0 where
    empty : JsonObject
    entry : String → Json → JsonObject → JsonObject

unfoldable pub items : Items → List Json
items nil = []
items (cons v vs) = v ∷ items vs

unfoldable pub to_items : List Json → Items
to_items [] = nil
to_items (v ∷ vs) = cons v (to_items vs)

unfoldable pub row_items : List JsonObject → Items
row_items [] = nil
row_items (r ∷ rs) = cons (obj r) (row_items rs)
