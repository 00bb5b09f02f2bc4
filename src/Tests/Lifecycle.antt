-- ===== src/Tests/Lifecycle.antt =====
-- Runs of the checks of lifecycle cases.
use fog_http_benchmark.Prelude.{◌≡◌, ◌↔◌, List, [], ◌∷◌, IsDistinct}
use fog_http_benchmark.Prelude.Int.{pos}
use fog_http_benchmark.Json.{int, JsonObject}
use fog_http_benchmark.Validity.Lifecycle.{pid_reuse_reasons}
use fog_http_benchmark.Validity.Lifecycle.Processes.{owned_pids, pid_reuse_reasons_iff}
use fog_http_benchmark.Tests.{plain_runtime, fields}

-- the second case runs its server in the process of the first client
abbrev two_cases : List JsonObject
two_cases =
    fields (("client_pid", int (pos 101)) ∷ ("server_pid", int (pos 102)) ∷ [])
    ∷ fields (("client_pid", int (pos 103)) ∷ ("server_pid", int (pos 101)) ∷ [])
    ∷ []

pid_reuse_reasons_iff_example :
    (pid_reuse_reasons two_cases ≡ []) ↔ IsDistinct (owned_pids two_cases)
pid_reuse_reasons_iff_example = pid_reuse_reasons_iff two_cases
