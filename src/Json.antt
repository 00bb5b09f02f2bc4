-- ===== src/Json.antt =====
-- The values of saved reports and of report rows: what `json.loads` returns, and the plain dicts
-- that the suites build (`JsonObject` in foghttp_benchmark/models.py).
mod Floats
mod Value
mod Object
mod Equality
unfoldable pub use Floats.*
unfoldable pub use Value.*
unfoldable pub use Object.*
unfoldable pub use Equality.*
