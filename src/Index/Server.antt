-- ===== src/Index/Server.antt =====
-- What the package asks of a Redis server through go-redis, the errors of its methods (errors.go),
-- and the pair of a result and the server's next state that a method is.
--
-- The server is a parameter: a state type and its answers. A pipeline is answered command by
-- command, `HGetAll` in it with a map, and `run` is such a method alone; `Exec` returns the first
-- error among the answers.
use redis_vl_golang.Base.{
  ℕ, String, Bool, false, ◌||◌, Option, none, some, List, [], ◌∷◌, Result, ok, err, has_prefix,
  to_lower,
}
use redis_vl_golang.Base.Int.{ℤ}
use redis_vl_golang.Base.Dict.{Dict}
use redis_vl_golang.Command.{Arg}
use redis_vl_golang.Index.Value.{Value}
use redis_vl_golang.Index.Reply.{ReplyError}
use redis_vl_golang.Query.Vector.{QueryError}
use redis_vl_golang.Schema.Attrs.{SchemaError}

-- `redis.Nil`, or the message of an error.
pub data RedisError : Type 0 where
  redis_nil : RedisError
  redis_error : String → RedisError

-- What a pipeline holds: a command by its arguments, or a method of the client. A time to live is in
-- nanoseconds.
pub data Queued : Type 0 where
  queued_do : List Arg → Queued
  queued_hset : String → Dict Value → Queued
  queued_expire : String → ℤ → Queued
  queued_hgetall : String → Queued

pub record Server {ℓ} (S : Type ℓ) : Type ℓ where
  pub call : List Arg → S → Result RedisError Value × S
  pub exec : List Queued → S → List (Result RedisError Value) × S
  pub run : Queued → S → Result RedisError Value × S
  pub hgetall : String → S → Result RedisError (Dict String) × S
  pub del : List String → S → Result RedisError ℕ × S
  pub exists_keys : List String → S → Result RedisError ℕ × S

-- Why a record is refused (validate.go).
pub data RecordError : Type 0 where
  not_numeric not_string not_tags not_floats not_bytes : Value → RecordError
  wrong_dims wrong_bytes : ℤ → ℕ → RecordError
  bad_type : String → RecordError

pub data IndexError : Type 0 where
  index_not_found : String → IndexError
  redis : RedisError → IndexError
  reply : ReplyError → IndexError
  query : QueryError → IndexError
  schema : SchemaError → IndexError
  keys_length : ℕ → ℕ → IndexError
  no_id : String → ℕ → IndexError
  record_error : ℕ → String → RecordError → IndexError
  not_marshalled : ℕ → IndexError
  in_batch : ℕ → IndexError → IndexError
  no_document : String → IndexError
  page_size : IndexError
  nil_field : IndexError

-- `strings.Contains`
unfoldable pub contains : String → String → Bool
contains String.[] part = has_prefix String.[] part
contains (String.◌∷◌ c s) part = has_prefix (String.◌∷◌ c s) part || contains s part

unfoldable pub is_unknown_index_error : RedisError → Bool
is_unknown_index_error redis_nil = false
is_unknown_index_error (redis_error message) =
    let msg = to_lower message in
    contains msg "unknown index"
    || contains msg "no such index"
    || contains msg "unknown: index name"

abbrev pub Action {ℓ κ} : Type ℓ → Type κ → Type (ℓ ⊔ κ)
Action S A = S → Result IndexError A × S

module _ {ℓ κ} {S : Type ℓ} {A : Type κ} where
  abbrev pub return : A → Action S A
  return a s = (ok a, s)

  abbrev pub fail : IndexError → Action S A
  fail e s = (err e, s)

  abbrev pub lift : Result IndexError A → Action S A
  lift r s = (r, s)

-- `if err != nil { return err }` after a call that the server has answered.
infixl 5 ◌>>>◌
abbrev pub after {ℓ κ μ ν} :
    {S : Type ℓ} {A : Type κ} {B : Type μ} {E : Type ν}
    → (A → S → Result E B × S)
    → Result E A × S
    → Result E B × S
after f (err e, s) = (err e, s)
after f (ok a, s) = f a s

abbrev pub ◌>>>◌ {ℓ κ μ} :
    {S : Type ℓ} {A : Type κ} {B : Type μ} → Action S A → (A → Action S B) → Action S B
(m >>> f) s = after f (m s)

-- The error of `Exec`.
unfoldable pub first_error : List (Result RedisError Value) → Option RedisError
first_error [] = none
first_error (err e ∷ answers) = some e
first_error (ok v ∷ answers) = first_error answers

-- An answer of the server, with its error named.
abbrev pub answered {ℓ κ ν μ} :
    {S : Type ℓ} {A : Type κ} {D : Type μ} {E : Type ν} → (D → E) → Result D A × S → Result E A × S
answered name (err e, s) = (err (name e), s)
answered name (ok a, s) = (ok a, s)
