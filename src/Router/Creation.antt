-- ===== src/Router/Creation.antt =====
-- router.go: `NewSemanticRouter`.
use redis_vl_golang.Base.{
  String, Bool, Option, none, some, List, [], ◌∷◌, Result, ok, err, map_err, ◌>>=◌,
}
use redis_vl_golang.Base.Int.{ℤ}
use redis_vl_golang.Vectors.Buffer.{Conversions}
use redis_vl_golang.Schema.Advisor.{none_set}
use redis_vl_golang.Schema.Attrs.{VectorAttrs, SchemaError}
use redis_vl_golang.Schema.Field.{new_tag_field, new_text_field, new_vector_field}
use redis_vl_golang.Schema.Index.{IndexSchema, new_index_schema}
use redis_vl_golang.Index.Value.{Scalars}
use redis_vl_golang.Index.Server.{Server, after, answered}
use redis_vl_golang.Index.Admin.{create}
use redis_vl_golang.Vectorize.{Vectorizer}
use redis_vl_golang.Router.{
  Route, Router, RouteError, RouterError, bad_route, schema, index, RoutingConfig, config_of,
  route_vector_field,
}
use redis_vl_golang.Router.Routes.{validate_all}
use redis_vl_golang.Router.Store.{index_routes}

unfoldable pub flat_attrs : ℤ → String → VectorAttrs
flat_attrs dims dtype = record (none_set dims dtype) {
  algorithm = "FLAT";
  distance_metric = "COSINE";
}

unfoldable pub router_schema : String → ℤ → String → Result SchemaError IndexSchema
unfolding flat_attrs
router_schema name dims dtype = do
  vf ← new_vector_field route_vector_field (flat_attrs dims dtype)
  new_index_schema
      (record {
        name = name;
        prefixes = name ∷ [];
        key_separator = "";
        storage_type = "";
        stopwords = none;
      })
      (new_tag_field "reference_id" none
        ∷ new_tag_field "route_name" none
        ∷ new_text_field "reference" none
        ∷ vf
        ∷ [])

module _ {ℓ} {S : Type ℓ} (hash : String → String) (conv : Conversions) (server : Server S)
    (c : Scalars) (v : Vectorizer S) where
  abbrev indexed : Bool → Router → IndexSchema → S → Result RouterError Router × S
  indexed overwrite r i s =
      after (λ _ s. after (λ _ s. (ok r, s)) (index_routes hash conv r server v r.routes s))
        (answered index (create server c i (record { overwrite = overwrite; drop = overwrite }) s))

  abbrev with_routes :
      String
      → RoutingConfig
      → Bool
      → List Route × Option RouteError
      → S
      → Result RouterError Router × S
  with_routes name config overwrite (routes, some e) s = (err (bad_route e), s)
  with_routes name config overwrite (routes, none) s =
      after (indexed overwrite (record { name = name; routes = routes; config = config_of config }))
        (map_err schema (router_schema name v.dims v.dtype), s)

  -- `NewSemanticRouter`, with a vectorizer.
  unfoldable pub new_semantic_router :
      String → List Route → RoutingConfig → Bool → S → Result RouterError Router × S
  new_semantic_router name routes config overwrite =
      with_routes name config overwrite (validate_all routes)
