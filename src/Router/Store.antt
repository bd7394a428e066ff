-- ===== src/Router/Store.antt =====
-- router.go: what a router writes to Redis and deletes there.
--
-- `Hashify` of a reference without extras is the parameter `hash`. `Scan` is one too: the keys of a
-- step, with the cursor of the next, or 0 after the last; the loop over its steps takes fuel.
use redis_vl_golang.Base.{
  ℕ, zero, suc, String, ◌<>◌, Bool, true, false, Option, none, some, List, [], ◌∷◌, ◌++◌, ◌==◌,
  Result, ok, err, map_err, ◌>>=◌,
}
use redis_vl_golang.Base.Float.{Float64}
use redis_vl_golang.Vectors.Buffer.{Conversions, to_buffer}
use redis_vl_golang.Index.Value.{Value, text, bytes}
use redis_vl_golang.Index.Server.{Server, Queued, queued_hset, RedisError, first_error, after}
use redis_vl_golang.Vectorize.{Vectorizer}
use redis_vl_golang.Router.{
  Route, RouteError, Router, RouterError, bad_route, redis, vector, not_vectorized,
  fewer_embeddings, ref_key, route_vector_field,
}
use redis_vl_golang.Router.Routes.{validate, merge_route, remove_first}

module _ (hash : String → String) (conv : Conversions) (r : Router) where
  unfoldable pub reference_command : String → String → List ℕ → Queued
  reference_command route_name reference blob =
      queued_hset (ref_key r route_name (hash reference)) (
        ("reference_id", text (hash reference))
        ∷ ("route_name", text route_name)
        ∷ ("reference", text reference)
        ∷ (route_vector_field, bytes blob)
        ∷ [])

  unfoldable pub reference_commands :
      String → String → List String → List (List Float64) → Result RouterError (List Queued)
  reference_commands dtype name [] embeddings = ok []
  reference_commands dtype name (reference ∷ refs) [] = err fewer_embeddings
  reference_commands dtype name (reference ∷ refs) (e ∷ embeddings) = do
    blob ← map_err vector (to_buffer conv e dtype)
    rest ← reference_commands dtype name refs embeddings
    ok (reference_command name reference blob ∷ rest)

  module _ {ℓ} {S : Type ℓ} (server : Server S) (v : Vectorizer S) where
    abbrev append_commands :
        List Queued → Result RouterError (List Queued) × S → Result RouterError (List Queued) × S
    append_commands cmds (err e, s) = (err e, s)
    append_commands cmds (ok rest, s) = (ok (cmds ++ rest), s)

    abbrev queue_route :
        Route
        → Result String (List (List Float64)) × S
        → (S → Result RouterError (List Queued) × S)
        → Result RouterError (List Queued) × S
    queue_route _ (err e, s) rest = (err (not_vectorized e), s)
    queue_route route (ok embeddings, s) rest =
        after (λ cmds s. append_commands cmds (rest s))
          (reference_commands v.dtype route.name route.references embeddings, s)

    unfoldable pub queue_routes : List Route → S → Result RouterError (List Queued) × S
    queue_routes [] s = (ok [], s)
    queue_routes (route ∷ routes) s =
        queue_route route (v.embed_many route.references s) (queue_routes routes)

    abbrev pub of_error : Option RedisError → Result RouterError (Unit {0})
    of_error none = ok tt
    of_error (some e) = err (redis e)

    abbrev pub exec_result : List (Result RedisError Value) × S → Result RouterError (Unit {0}) × S
    exec_result (answers, s) = (of_error (first_error answers), s)

    unfoldable pub index_routes : List Route → S → Result RouterError (Unit {0}) × S
    unfolding queue_routes
    index_routes routes s =
        after (λ cmds s. exec_result (server.exec cmds s)) (queue_routes routes s)

    abbrev add_valid : Route × Option RouteError → S → Result RouterError Router × S
    add_valid (new, some e) s = (err (bad_route e), s)
    add_valid (new, none) s =
        after (λ _ s. (ok (record r { routes = merge_route new r.routes }), s))
          (index_routes (new ∷ []) s)

    unfoldable pub add_route : Route → S → Result RouterError Router × S
    unfolding index_routes
    add_route new s = add_valid (validate new) s

    module _ (scan : ℕ → String → S → Result RedisError (List String × ℕ) × S) where
      abbrev Removed : Type ℓ
      Removed = Option (Result RouterError Router × S)

      abbrev pub after_del : Result RedisError ℕ × S → (S → Removed) → Removed
      after_del (err e, s) rest = some (err (redis e), s)
      after_del (ok n, s) rest = rest s

      abbrev pub del_keys : List String → S → (S → Removed) → Removed
      del_keys [] s rest = rest s
      del_keys (k ∷ ks) s rest = after_del (server.del (k ∷ ks) s) rest

      -- At the cursor 0 after a step the scan has ended.
      abbrev pub go_on : Bool → String → (ℕ → S → Removed) → ℕ → S → Removed
      go_on true name rest next s = some (ok (record r { routes = remove_first name r.routes }), s)
      go_on false name rest next s = rest next s

      abbrev pub after_scan :
          String → Result RedisError (List String × ℕ) × S → (ℕ → S → Removed) → Removed
      after_scan name (err e, s) rest = some (err (redis e), s)
      after_scan name (ok (ks, next), s) rest = del_keys ks s (go_on (next == 0) name rest next)

      unfoldable pub scan_route : ℕ → String → ℕ → S → Removed
      scan_route zero name cursor s = none
      scan_route (suc fuel) name cursor s =
          after_scan name (scan cursor (r.name <> (":" <> (name <> ":*"))) s) (scan_route fuel name)

      unfoldable pub remove_route : ℕ → String → S → Removed
      unfolding scan_route
      remove_route fuel name = scan_route fuel name 0
