-- ===== src/Vectorize.antt =====
-- extensions/vectorize/vectorize.go: what the caches and the router ask of a vectorizer.
use redis_vl_golang.Base.{String, List, Result}
use redis_vl_golang.Base.Int.{ℤ}
use redis_vl_golang.Base.Float.{Float64}

-- A vectorizer: its dimensions, its data type, and its calls, which may fail with a message.
pub record Vectorizer {ℓ} (S : Type ℓ) : Type ℓ where
  pub dims : ℤ
  pub dtype : String
  pub embed : String → S → Result String (List Float64) × S
  pub embed_many : List String → S → Result String (List (List Float64)) × S
