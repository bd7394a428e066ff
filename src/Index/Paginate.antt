-- ===== src/Index/Paginate.antt =====
-- index.go: `Paginate` and `Clear`, the loops that ask the server again and again.
--
-- Neither loop has a bound of its own: each takes fuel here, and `none` is that the fuel did not
-- suffice. The callback of `Paginate` acts on the same state as the server. The query's options are
-- not written to, so there is nothing to restore at the end.
pub mod Pages
pub mod Empty
use redis_vl_golang.Base.{
  ℕ, zero, suc, ◌+◌, ◌*◌, String, Bool, true, false, Option, none, some, List, [], ◌∷◌, ◌++◌, map,
  length, ltb, Result, ok, err, map_err,
}
use redis_vl_golang.Base.Int.{ℤ, pos, leb_ℤ, pos_part}
use redis_vl_golang.Base.Dict.{Dict}
use redis_vl_golang.Command.{Arg, str, int}
use redis_vl_golang.Schema.Index.{IndexSchema}
use redis_vl_golang.Query.Options.{Options, no_options, Floats}
use redis_vl_golang.Index.Value.{Value, Scalars}
use redis_vl_golang.Index.Reply.{Document, SearchResult, ReplyError, parse_search_reply}
use redis_vl_golang.Index.Server.{Server, RedisError, IndexError, redis, reply, page_size, Action}
use redis_vl_golang.Index.Search.{Runnable, run_query, name_of}

-- How a loop ends: with the result and the state, or for want of fuel.
abbrev pub Ended {ℓ κ} : Type ℓ → Type κ → Type (ℓ ⊔ κ)
Ended S A = Option (Result IndexError A × S)

-- The query for one page.
abbrev pub at_page : Runnable → ℕ → ℕ → Runnable
at_page r offset num = record r {
  query = record r.query {
    options = record r.query.options { offset = pos offset; num = pos num };
  };
}

module _ {ℓ} {S : Type ℓ} (server : Server S) (c : Scalars) (i : IndexSchema) (f : Floats)
    (unmarshal : String → Option (Dict Value))
    (callback : List (Dict Value) → Action S (Unit {0})) where
  -- After the callback: the last page is shorter than a page.
  abbrev pub next_page : Bool → S → (S → Ended S (Unit {0})) → Ended S (Unit {0})
  next_page true s rest = some (ok tt, s)
  next_page false s rest = rest s

  abbrev after_callback :
      Bool → Result IndexError (Unit {0}) × S → (S → Ended S (Unit {0})) → Ended S (Unit {0})
  after_callback last (err e, s) rest = some (err e, s)
  after_callback last (ok _, s) rest = next_page last s rest

  abbrev pub after_query :
      ℕ → Result IndexError (List (Dict Value)) × S → (S → Ended S (Unit {0})) → Ended S (Unit {0})
  after_query size (err e, s) rest = some (err e, s)
  after_query size (ok [], s) rest = some (ok tt, s)
  after_query size (ok (d ∷ docs), s) rest =
      after_callback (ltb (length (d ∷ docs)) size) (callback (d ∷ docs) s) rest

  unfoldable pub pages : ℕ → Runnable → ℕ → ℕ → S → Ended S (Unit {0})
  pages zero r size offset s = none
  pages (suc fuel) r size offset s =
      after_query size (run_query server c i f unmarshal (at_page r offset size) s)
        (pages fuel r size (offset + size))

  abbrev pub positive_size : Bool → ℕ → Runnable → ℕ → S → Ended S (Unit {0})
  positive_size true fuel r size s = some (err page_size, s)
  positive_size false fuel r size s = pages fuel r size 0 s

  unfoldable pub paginate : ℕ → Runnable → ℤ → S → Ended S (Unit {0})
  paginate fuel r size = positive_size (leb_ℤ size (pos 0)) fuel r (pos_part size)

abbrev pub clear_size : ℕ
clear_size = 500

abbrev pub clear_options : Options
clear_options = record no_options { no_content = true }

abbrev pub clear_args : String → List Arg
clear_args name =
    str "FT.SEARCH"
    ∷ str name
    ∷ str "*"
    ∷ str "NOCONTENT"
    ∷ str "LIMIT"
    ∷ int (pos 0)
    ∷ int (pos clear_size)
    ∷ str "DIALECT"
    ∷ int (pos 2)
    ∷ []

-- `Clear` returns the number of keys deleted so far beside its error.
module _ {ℓ} {S : Type ℓ} (server : Server S) (c : Scalars) (i : IndexSchema) where
  abbrev pub Cleared : Type ℓ
  Cleared = Option ((ℕ × Option IndexError) × S)

  abbrev pub next_round : Bool → ℕ → S → (ℕ → S → Cleared) → Cleared
  next_round true total s rest = some ((total, none), s)
  next_round false total s rest = rest total s

  abbrev pub after_del : Bool → ℕ → Result RedisError ℕ × S → (ℕ → S → Cleared) → Cleared
  after_del last total (err e, s) rest = some ((total, some (redis e)), s)
  after_del last total (ok n, s) rest = next_round last (total + n) s rest

  abbrev delete_docs : ℕ → List Document → S → (ℕ → S → Cleared) → Cleared
  delete_docs total [] s rest = some ((total, none), s)
  delete_docs total (d ∷ docs) s rest =
      after_del (ltb (length (d ∷ docs)) clear_size) total
        (server.del (map (λ (e : Document). e.id) (d ∷ docs)) s) rest

  abbrev pub after_parse : ℕ → Result ReplyError SearchResult → S → (ℕ → S → Cleared) → Cleared
  after_parse total (err e) s rest = some ((total, some (reply e)), s)
  after_parse total (ok res) s rest = delete_docs total res.docs s rest

  abbrev pub after_search : ℕ → Result RedisError Value × S → (ℕ → S → Cleared) → Cleared
  after_search total (err e, s) rest = some ((total, some (redis e)), s)
  after_search total (ok v, s) rest =
      after_parse total (parse_search_reply c v clear_options) s rest

  unfoldable pub clear_from : ℕ → ℕ → S → Cleared
  clear_from zero total s = none
  clear_from (suc fuel) total s =
      after_search total (server.call (clear_args (name_of i)) s) (clear_from fuel)

  unfoldable pub clear : ℕ → S → Cleared
  unfolding clear_from
  clear fuel = clear_from fuel 0
