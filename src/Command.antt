-- ===== src/Command.antt =====
-- The arguments of a Redis command, as the sources pass them to go-redis.
use redis_vl_golang.Base.{ℕ, String, List, map}
use redis_vl_golang.Base.Int.{ℤ}
use redis_vl_golang.Base.Float.{Float64}

pub data Arg : Type 0 where
  str : String → Arg
  int : ℤ → Arg
  float : Float64 → Arg
  blob : List ℕ → Arg

unfoldable pub strs : List String → List Arg
strs = map str
