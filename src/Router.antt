-- ===== src/Router.antt =====
-- extensions/router/router.go: the semantic router.
--
-- The vectorizer and the server are parameters. A router is passed from call to call, beside the
-- state of the server; the slice of routes is the router's own.
pub mod Routes
pub mod Store
pub mod Creation
pub mod Answers
pub mod Matching
pub mod Limits
pub mod Names
mod Tests
use redis_vl_golang.Base.{
  String, ◌<>◌, str_eq, Bool, true, false, Option, none, some, List, [], ◌∷◌, Result, if◌then◌else◌,
}
use redis_vl_golang.Base.Int.{ℤ, pos, eq_ℤ}
use redis_vl_golang.Base.Float.{Float64}
use redis_vl_golang.Base.Dict.{Dict}
use redis_vl_golang.Vectors.Buffer.{VectorError}
use redis_vl_golang.Schema.Attrs.{SchemaError}
use redis_vl_golang.Index.Value.{Value}
use redis_vl_golang.Index.Server.{RedisError, IndexError}

pub record Route : Type 0 where
  pub name : String
  pub references : List String
  pub metadata : Dict Value
  pub distance_threshold : Float64

pub data RouteError : Type 0 where
  empty_name : RouteError
  no_references empty_reference bad_threshold : String → RouteError

-- `fewer_embeddings` is the panic on a vectorizer that returns fewer embeddings than texts.
pub data RouterError : Type 0 where
  bad_route : RouteError → RouterError
  schema : SchemaError → RouterError
  index : IndexError → RouterError
  not_vectorized : String → RouterError
  fewer_embeddings : RouterError
  vector : VectorError → RouterError
  redis vss_not_supported : RedisError → RouterError
  no_routes : String → RouterError
  nothing_given : RouterError
  unexpected_reply : Value → RouterError

pub record RoutingConfig : Type 0 where
  pub max_k : ℤ
  pub aggregation : String

-- The defaults of `NewSemanticRouter` and `UpdateConfig`
unfoldable pub config_of : RoutingConfig → RoutingConfig
config_of c = record {
  max_k = if eq_ℤ c.max_k (pos 0) then pos 1 else c.max_k;
  aggregation = if str_eq c.aggregation "" then "avg" else c.aggregation;
}

pub record Router : Type 0 where
  pub name : String
  pub routes : List Route
  pub config : RoutingConfig

unfoldable pub update_config : RoutingConfig → Router → Router
update_config c r = record r { config = config_of c }

abbrev pub route_vector_field : String
route_vector_field = "vector"

unfoldable pub ref_key : Router → String → String → String
ref_key r route_name reference_hash = r.name <> (":" <> (route_name <> (":" <> reference_hash)))
