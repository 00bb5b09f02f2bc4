-- ===== src/Models.antt =====
-- The records of foghttp_benchmark/models.py that the load generator uses.
use fog_http_benchmark.Prelude.{ℕ, Bool, String, Option, List}
use fog_http_benchmark.Prelude.Int.{ℤ}
use fog_http_benchmark.Json.{JsonObject, Float}
use fog_http_benchmark.Statistics.{ErrorCounts}

pub record Scenario : Type 0 where
  pub name : String
  pub method : String
  pub path : String
  pub body : Option (List ℕ)
  pub json_body : Option JsonObject
  pub expected_status : ℤ
  pub expected_json_keys : List String
  pub expected_content_length : Option ℤ
  pub expected_redirects : Option ℤ
  pub expected_final_path : Option String
  pub follow_redirects : Bool
  pub request_limit : Option ℤ
  pub description : String

pub record ResponseOutcome : Type 0 where
  pub status_code : ℤ
  pub json_ok : Bool
  pub content_length : Option ℤ
  pub history_count : Option ℤ
  pub final_url : Option String

pub record LoadResult : Type 0 where
  pub latencies_ms : List Float
  pub errors : ℕ
  pub error_types : ErrorCounts
