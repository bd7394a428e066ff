-- ===== src/Index/Load/Batches.antt =====
-- That the batches of `Load` write what one pipeline of all records would, and what an error in a
-- record leaves written.
use redis_vl_golang.Base.{
  ℕ, zero, suc, ◌+◌, ◌*◌, String, ◌≡◌, refl, sym, ap, ◌∙◌, arith, Option, none, some, List, [], ◌∷◌,
  length, Result, ok, err, take, drop, take-nil, drop-nil, drop_all, drop_add, take_all,
  take-take_add, drop-take_add, run_all, run_all-append,
}
use redis_vl_golang.Base.Dict.{Dict}
use redis_vl_golang.Schema.Index.{IndexSchema}
use redis_vl_golang.Index.Value.{Value, Scalars}
use redis_vl_golang.Index.Server.{Server, Queued, RedisError, IndexError, first_error}
use redis_vl_golang.Index.Load.{
  LoadOptions, batch_size_of, load_keys, batch_commands, load_batches, load, after_commands,
  after_exec, exec_error, with_keys, after_keys,
}
use redis_vl_golang.Index.Load.Parts.{
  both-eq-ok, batch_commands-nil, batch_commands-split, length-load_keys, times_size,
}

module _ (c : Scalars) (i : IndexSchema) (marshal : Dict Value → Option String)
    (ulid : ℕ → String) where
  module _ {ℓ} {S : Type ℓ} (server : Server S) (step : Queued → S → S) where
    -- A pipeline whose commands all succeed, each with its effect on the state.
    abbrev Executes : Type ℓ
    Executes =
        (batch : List Queued) (s : S)
        → (answers : List (Result RedisError Value)) × (first_error answers ≡ none)
          × (server.exec batch s ≡ (answers, run_all step batch s))

    load_batches-eq-err :
        (o : LoadOptions) (n fuel idx : ℕ) (ks : List String) (objs : List (Dict Value)) (s : S)
        (e : IndexError)
        → batch_commands c i marshal ulid o idx (take n ks) (take n objs) ≡ err e
        → load_batches c i marshal ulid server (suc fuel) o n idx ks objs s ≡ some (err e, s)
    unfolding load_batches
    load_batches-eq-err o n fuel idx ks [] s e h = cc (
      h,
      ap (batch_commands c i marshal ulid o idx (take n ks)) (take-nil {A = Dict Value} n),
      batch_commands-nil c i marshal ulid o idx (take n ks),
    )
    load_batches-eq-err o n fuel idx ks (obj ∷ objs) s e h =
        ap
          (λ r. after_commands c i marshal ulid server r s (
            load_batches c i marshal ulid server fuel o n (idx + n) (drop n ks)
              (drop n (obj ∷ objs))))
          h

    load_batches-nil :
        (o : LoadOptions) (n fuel idx : ℕ) (ks : List String) (s : S)
        → load_batches c i marshal ulid server fuel o n idx ks [] s ≡ some (ok tt, s)
    unfolding load_batches
    load_batches-nil o n zero idx ks s = refl
    load_batches-nil o n (suc fuel) idx ks s = refl

    load_batches-eq-ok :
        (o : LoadOptions) (n fuel idx : ℕ) (ks : List String) (objs : List (Dict Value)) (s : S)
        (cmds : List Queued)
        → Executes
        → batch_commands c i marshal ulid o idx (take n ks) (take n objs) ≡ ok cmds
        → load_batches c i marshal ulid server (suc fuel) o n idx ks objs s
          ≡ load_batches c i marshal ulid server fuel o n
              (idx + n)
              (drop n ks)
              (drop n objs)
              (run_all step cmds s)
    unfolding load_batches run_all
    load_batches-eq-ok o n fuel idx ks [] s cmds runs h =
        let emptied = drop-nil {A = Dict Value} n in
        let none_queued : ok [] ≡ ok cmds =
          sym (batch_commands-nil c i marshal ulid o idx (take n ks))
          ∙ ap (batch_commands c i marshal ulid o idx (take n ks)) (sym (take-nil n))
          ∙ h in
        let same : [] ≡ cmds = cc in
        sym (
          ap
            (λ os.
              load_batches c i marshal ulid server fuel o n (idx + n) (drop n ks) os
                (run_all step cmds s))
            emptied
          ∙ load_batches-nil o n fuel (idx + n) (drop n ks) (run_all step cmds s)
          ∙ ap (λ cs. some (ok tt, run_all step cs s)) (sym same))
    load_batches-eq-ok o n fuel idx ks (obj ∷ objs) s cmds runs h =
        let K =
          load_batches c i marshal ulid server fuel o n (idx + n) (drop n ks)
            (drop n (obj ∷ objs)) in
        let (answers, fine, sent) = runs cmds s in
        ap (λ r. after_commands c i marshal ulid server r s K) h
        ∙ ap (λ a. after_exec c i marshal ulid server a K) sent
        ∙ ap (λ p. exec_error c i marshal ulid server p (run_all step cmds s) K) fine

    -- The batches whose records all have commands: their commands have acted, in order.
    load_batches-skip :
        (o : LoadOptions) (n k fuel idx : ℕ) (ks : List String) (objs : List (Dict Value)) (s : S)
        (cmds : List Queued)
        → Executes
        → batch_commands c i marshal ulid o idx (take (k * n) ks) (take (k * n) objs) ≡ ok cmds
        → load_batches c i marshal ulid server (k + fuel) o n idx ks objs s
          ≡ load_batches c i marshal ulid server fuel o n
              (idx + k * n)
              (drop (k * n) ks)
              (drop (k * n) objs)
              (run_all step cmds s)
    unfolding run_all batch_commands
    load_batches-skip o n zero fuel idx ks objs s cmds runs h =
        let none_taken : 0 * n ≡ 0 = omega arith in
        let none_queued : ok [] ≡ ok cmds =
          ap (λ m. batch_commands c i marshal ulid o idx (take m ks) (take m objs)) (sym none_taken)
          ∙ h in
        let same : [] ≡ cmds = cc in
        ap (λ t. load_batches c i marshal ulid server t o n idx ks objs s) (omega arith)
        ∙ ap (λ j. load_batches c i marshal ulid server fuel o n j ks objs s) (omega arith)
        ∙ ap
            (λ cs.
              load_batches c i marshal ulid server fuel o n (idx + 0) ks objs (run_all step cs s))
            same
        ∙ ap
            (λ m.
              load_batches c i marshal ulid server fuel o n (idx + m) (drop m ks) (drop m objs)
                (run_all step cmds s))
            (sym none_taken)
    load_batches-skip o n (suc k) fuel idx ks objs s cmds runs h =
        let more : suc k * n ≡ n + k * n = omega arith in
        let split =
          sym (
            batch_commands-split c i marshal ulid o n idx (take (n + k * n) ks)
              (take (n + k * n) objs))
          ∙ ap (λ m. batch_commands c i marshal ulid o idx (take m ks) (take m objs)) (sym more)
          ∙ h in
        let (front, back, f, b, joined) = both-eq-ok _ _ split in
        let head =
          ap (λ xs. batch_commands c i marshal ulid o idx xs (take n objs))
            (sym (take-take_add n (k * n) ks))
          ∙ ap (batch_commands c i marshal ulid o idx (take n (take (n + k * n) ks)))
              (sym (take-take_add n (k * n) objs))
          ∙ f in
        let tail =
          ap (λ xs. batch_commands c i marshal ulid o (idx + n) xs (take (k * n) (drop n objs)))
            (sym (drop-take_add n (k * n) ks))
          ∙ ap (batch_commands c i marshal ulid o (idx + n) (drop n (take (n + k * n) ks)))
              (sym (drop-take_add n (k * n) objs))
          ∙ b in
        let plus_suc : suc k + fuel ≡ suc (k + fuel) = omega arith in
        let further : idx + n + k * n ≡ idx + suc k * n = omega arith in
        ap (λ t. load_batches c i marshal ulid server t o n idx ks objs s) plus_suc
        ∙ load_batches-eq-ok o n (k + fuel) idx ks objs s front runs head
        ∙ load_batches-skip o n k fuel (idx + n) (drop n ks) (drop n objs) (run_all step front s)
            back runs tail
        ∙ ap
            (λ t.
              load_batches c i marshal ulid server fuel o n (idx + n + k * n)
                (drop (k * n) (drop n ks)) (drop (k * n) (drop n objs)) t)
            (sym (run_all-append step front back s) ∙ ap (λ cs. run_all step cs s) joined)
        ∙ ap
            (λ xs.
              load_batches c i marshal ulid server fuel o n (idx + n + k * n) xs
                (drop (k * n) (drop n objs)) (run_all step cmds s))
            (sym (drop_add n (k * n) ks) ∙ ap (λ m. drop m ks) (sym more))
        ∙ ap
            (λ xs.
              load_batches c i marshal ulid server fuel o n (idx + n + k * n) (drop (suc k * n) ks)
                xs (run_all step cmds s))
            (sym (drop_add n (k * n) objs) ∙ ap (λ m. drop m objs) (sym more))
        ∙ ap
            (λ j.
              load_batches c i marshal ulid server fuel o n j (drop (suc k * n) ks)
                (drop (suc k * n) objs) (run_all step cmds s))
            further

    load_keyed :
        (fuel : ℕ) (o : LoadOptions) (objs : List (Dict Value)) (s : S) (ks : List String)
        → load_keys c i marshal ulid o objs ≡ ok ks
        → load c i marshal ulid server fuel o objs s
          ≡ with_keys c i marshal ulid server ks
              (load_batches c i marshal ulid server fuel o (batch_size_of o) 0 ks objs s)
    unfolding load
    load_keyed fuel o objs s ks h = ap (λ r. after_keys c i marshal ulid server fuel o objs r s) h

    -- Where every record has a key and commands and the pipelines' commands succeed, `Load` on any
    -- batch size writes all commands of all records, in order, and returns the keys: fuel for as many
    -- batches as records is enough.
    pub load_all :
        (o : LoadOptions) (objs : List (Dict Value)) (fuel : ℕ) (s : S) (ks : List String)
        (cmds : List Queued)
        → Executes
        → load_keys c i marshal ulid o objs ≡ ok ks
        → batch_commands c i marshal ulid o 0 ks objs ≡ ok cmds
        → load c i marshal ulid server (length objs + fuel) o objs s
          ≡ some (ok ks, run_all step cmds s)
    load_all o objs fuel s ks cmds runs keyed queued =
        let n = batch_size_of o in
        let k = length objs in
        let enough = times_size o k in
        let as_many = length-load_keys c i marshal ulid o objs ks keyed in
        let all_queued =
          ap (λ xs. batch_commands c i marshal ulid o 0 xs (take (k * n) objs))
            (take_all (k * n) ks (omega arith))
          ∙ ap (batch_commands c i marshal ulid o 0 ks) (take_all (k * n) objs enough)
          ∙ queued in
        load_keyed (k + fuel) o objs s ks keyed
        ∙ ap (with_keys c i marshal ulid server ks) (
            load_batches-skip o n k fuel 0 ks objs s cmds runs all_queued
            ∙ ap
                (λ xs.
                  load_batches c i marshal ulid server fuel o n (0 + k * n) (drop (k * n) ks) xs
                    (run_all step cmds s))
                (drop_all (k * n) objs enough)
            ∙ load_batches-nil o n fuel (0 + k * n) (drop (k * n) ks) (run_all step cmds s))

    -- Where a record has an error and the pipelines' commands succeed, `Load` returns that error: all
    -- records of the batches before have been written, and nothing of the batch that it is in.
    pub load_refused :
        (o : LoadOptions) (objs : List (Dict Value)) (k fuel : ℕ) (s : S) (ks : List String)
        (cmds : List Queued) (e : IndexError)
        → Executes
        → load_keys c i marshal ulid o objs ≡ ok ks
        → batch_commands c i marshal ulid o 0
            (take (k * batch_size_of o) ks)
            (take (k * batch_size_of o) objs)
          ≡ ok cmds
        → batch_commands c i marshal ulid o
            (k * batch_size_of o)
            (take (batch_size_of o) (drop (k * batch_size_of o) ks))
            (take (batch_size_of o) (drop (k * batch_size_of o) objs))
          ≡ err e
        → load c i marshal ulid server (k + suc fuel) o objs s ≡ some (err e, run_all step cmds s)
    load_refused o objs k fuel s ks cmds e runs keyed before refused =
        let n = batch_size_of o in
        load_keyed (k + suc fuel) o objs s ks keyed
        ∙ ap (with_keys c i marshal ulid server ks) (
            load_batches-skip o n k (suc fuel) 0 ks objs s cmds runs before
            ∙ ap
                (λ j.
                  load_batches c i marshal ulid server (suc fuel) o n j (drop (k * n) ks)
                    (drop (k * n) objs) (run_all step cmds s))
                (omega arith)
            ∙ load_batches-eq-err o n fuel (k * n) (drop (k * n) ks) (drop (k * n) objs)
                (run_all step cmds s) e refused)
