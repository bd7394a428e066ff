-- ===== src/Lib.antt =====
-- A verification library for redis-vl-golang, the Go client library for Redis as a vector database.
--
-- The program builds commands for Redis Search. A schema (schema/) describes an index and its
-- fields and renders as the arguments of FT.CREATE; filter expressions (filter/) and vectors
-- encoded as bytes (vectors/) go into queries (query/), which render as the arguments of FT.SEARCH;
-- the search index, the caches, the message history and the router send these commands.
--
-- The files:
-- Base: numbers, lists, options, results, Go maps as lists of entries (Base/Dict), text as the
--     sources use it (Base/Text), int (Base/Int) and float64 as bit patterns (Base/Float).
-- Command: the arguments of a command, `[]any` in the sources.
-- Filter/Escape: filter/escaper.go. Filter/Expression: `Expression` with `And`, `Or`, `String`
--     and `Err` of filter/filter.go; Filter/Tag: `TagField`; Filter/Fields: the other field types,
--     where `NumField` and `TimestampField` are one section over the formatting of a value.
-- Vectors/Half: the conversions of vectors/vectors.go between float32 and the 16-bit formats;
--     Vectors/Buffer: `Parse`, `Size`, `ToBuffer` and `FromBuffer`.
-- Schema/Attrs: the attributes and `VectorAttrs.Validate` of schema/fields.go; Schema/Field: the
--     constructors and `RedisArgs`; Schema/Index: `IndexSchema` of schema/schema.go;
--     Schema/Advisor: `RecommendCompression` of schema/advisor.go.
-- Query/Options: query/query.go with `BuildSearchArgs`, and in Query/Options/Grammar a reader of
--     the command; Query/Vector: query/vector.go; Query/Range: query/range.go; Query/Simple:
--     query/simple.go; Query/Terms: query/text.go.
-- Index/Value, Index/Ids: utils.go. Index/Reply: results.go, with the forms of a reply in
--     Index/Reply/Protocols, Index/Reply/Keyed (maps) and Index/Reply/Rows. Index/Server: errors.go and what go-redis does.
--     Index/Records: validate.go. Of index.go, Index/Search has `Search`, `Count` and `Query`;
--     Index/Load `Load` and the keys; Index/Paginate `Paginate` and `Clear`; Index/Admin `Create`,
--     `Delete`, `Exists`, `ListAll`, `Info`, `Fetch` and the deletions; Index/Admin/Existing
--     `FromExisting`. Index/Batch: batch.go.
-- Cache/Vectorizer: `Embed` and `EmbedMany` of extensions/cache/cached_vectorizer.go.
--     Cache/Embeddings: extensions/cache/embeddings.go, its operations in Cache/Embeddings/Store.
--     Cache/Semantic: extensions/cache/semantic.go, the entries in its Hits and its operations in
--     its Entries.
-- Router: extensions/router/router.go; Routes has the routes and thresholds, Store what is written
--     and deleted, Creation the constructor, Answers and Matching the matching of a statement.
-- History: extensions/history/history.go; Fields has the stored fields, Reading the operations.
-- Vectorize: the interface of extensions/vectorize/vectorize.go.
-- The modules called Tests, LoopTests and EntryTests hold runs at concrete inputs.
--
-- How state and errors are modelled: a method that changes its receiver is a function from the old
-- receiver to the new one, the setters of a query are a data type of calls, and a chain of calls is
-- a list of them. `Params` of a vector query may record an error in its receiver, so it returns
-- the receiver as well. A pair (value, error) is a `Result`; where the code would dereference a nil
-- pointer, the model has `none`. A map is visited in the order of its list of entries.
-- What talks to Redis is a function of the server's state that returns a result and the next state.
-- The server is a record of such functions, and a section's parameter: a command, a pipeline, the
-- methods that the sources call on the client. A theorem says what it asks of the server.
--
-- Bounds: Go's int is an integer of any size; the fields that hold one are only compared and
-- printed. A float32 is a number below 2 ^ 32 and a half one below 2 ^ 16, with sums that wrap.
-- `normalize` shifts a subnormal half left at most 10 times and has fuel for 11 rounds;
-- `decimal` has fuel for one digit more than the number itself. The loops that ask the server again
-- take fuel and return `none` without it: one round for each page, batch or step of a scan, so that
-- fuel above the number of hits, keys, records or queries is enough where each round takes one.
--
-- Parameters, since their code is not in the repository or is the hardware's: the conversions of
-- Go between float64 and narrower types, the arithmetic of float64, `strconv`, `encoding/json`,
-- SHA-256, the clock, random bytes, the formatting of times, `strings.ToLower` for the words of a
-- text query, the vectorizers, which call a remote service, and Redis.
--
-- Not modelled: letters beyond ASCII in `UseSearchHistory` of a vector query, times before the epoch
-- in `OnDate`, reading and writing YAML and the inference of a schema, the estimate of memory
-- savings, hybrid and aggregate queries with the methods that run them, the semantic message
-- history, the client of the managed cache, the vectorizers and rerankers, the server and the command
-- line tool. Most of this calls HTTP or a library that is not in the repository.
pub mod Base
pub mod Command
pub mod Filter
pub mod Vectors
pub mod Schema
pub mod Query
pub mod Vectorize
pub mod Index
pub mod Cache
pub mod Router
pub mod History
