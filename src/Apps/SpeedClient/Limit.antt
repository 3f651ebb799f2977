-- ===== src/Apps/SpeedClient/Limit.antt =====
-- The limit of the speed over runs of the client.
use minimal_autosar_adaptive.Prelude.{
  sym, ◌≡◌, ◌≢◌, refl, ap, ◌∙◌, true, List, [], ◌∷◌, some, arith,
}
use minimal_autosar_adaptive.Core.Result.{PersistencyErrc, Result, ok, err}
use minimal_autosar_adaptive.Persistency.Files.{Env, calm}
use minimal_autosar_adaptive.Persistency.KeyValue.{Backend, tmp_name, set_value}
use minimal_autosar_adaptive.Persistency.KeyValue.Reads.{
  get_value-set_value, get_value-set_value_ne,
}
use minimal_autosar_adaptive.Persistency.Handle.{Streamed, set_value_string, fetch}
use minimal_autosar_adaptive.Apps.Float.{Float}
use minimal_autosar_adaptive.Apps.SpeedLogic.{last_speed}
use minimal_autosar_adaptive.Apps.SpeedClient.{
  SpeedClient, max_allowed_speed, default_max, start_client, on_tick, on_speed, Step, speed, tick,
  step, run,
}

speed-ne-limit : last_speed ≢ max_allowed_speed
speed-ne-limit e = ground arith

limit-ne-tmp : max_allowed_speed ≢ tmp_name last_speed
limit-ne-tmp e = ground arith

module _ {F : Type 0} (float : Float F) (streamed : Streamed F) where
  -- The stored limit as it is read where the file system works.
  stored_limit : Backend → Result F
  stored_limit kv = fetch streamed calm max_allowed_speed kv

  step-limit :
      (s : Step F) (c : SpeedClient F) → stored_limit (step float s c).0.kv ≡ stored_limit c.kv
  unfolding stored_limit step fetch on_tick on_speed set_value_string
  step-limit (speed env v) c =
      let other =
        get_value-set_value_ne env calm last_speed (float.to_string v) max_allowed_speed c.kv
          speed-ne-limit limit-ne-tmp in
      ground (arith, other)
  step-limit tick c = ground arith

  run-limit :
      (ss : List (Step F)) (c : SpeedClient F)
      → stored_limit (run float ss c).0.kv ≡ stored_limit c.kv
  unfolding run
  run-limit [] c = refl
  run-limit (s ∷ ss) c = run-limit ss (step float s c).0 ∙ step-limit s c

  -- The limit that a start reads, or the default where it reads none.
  limit_of : Result F → F
  limit_of (ok v) = v
  limit_of (err e) = default_max float

  start_client-limit :
      (env : Env) (kv : Backend)
      → (start_client float streamed calm env kv).max_speed ≡ limit_of (stored_limit kv)
  unfolding start_client stored_limit limit_of
  start_client-limit env kv = ground arith

  set_value-limit :
      (env : Env) (kv : Backend)
      → (set_value_string env max_allowed_speed (float.to_string (default_max float)) kv).1 ≡ ok tt
      → env.flushes ≡ true
      → streamed.read (float.to_string (default_max float)) ≡ some (default_max float)
      → stored_limit
          (set_value_string env max_allowed_speed (float.to_string (default_max float)) kv).0
        ≡ ok (default_max float)
  unfolding stored_limit fetch set_value_string
  set_value-limit env kv stored flushed law =
      let text = float.to_string (default_max float) in
      let found =
        get_value-set_value env max_allowed_speed text kv
          (set_value env max_allowed_speed text kv).0
          (ap (λ r. ((set_value env max_allowed_speed text kv).0, r)) stored) in
      ground (arith, found, law)

  fetch_limit : (kv : Backend) → fetch streamed calm max_allowed_speed kv ≡ stored_limit kv
  unfolding stored_limit
  fetch_limit kv = refl

  start_client-stored_as :
      (env : Env) (kv : Backend) (r : Result F)
      → stored_limit kv ≡ r
      → (set_value_string env max_allowed_speed (float.to_string (default_max float)) kv).1 ≡ ok tt
      → env.flushes ≡ true
      → streamed.read (float.to_string (default_max float)) ≡ some (default_max float)
      → let first = start_client float streamed calm env kv in
        stored_limit first.kv ≡ ok first.max_speed
  unfolding start_client
  start_client-stored_as env kv (ok v) e stored flushed law = ground (arith, fetch_limit kv, e)
  start_client-stored_as env kv (err c) e stored flushed law =
      let found = set_value-limit env kv stored flushed law in
      ground (arith, fetch_limit kv, e, found)

  start_client-stored :
      (env : Env) (kv : Backend)
      → (set_value_string env max_allowed_speed (float.to_string (default_max float)) kv).1 ≡ ok tt
      → env.flushes ≡ true
      → streamed.read (float.to_string (default_max float)) ≡ some (default_max float)
      → let first = start_client float streamed calm env kv in
        stored_limit first.kv ≡ ok first.max_speed
  start_client-stored env kv stored flushed law =
      start_client-stored_as env kv (stored_limit kv) refl stored flushed law

  -- A client that starts takes the limit that the storage has, or the default where it reads none,
  -- and one that starts where it ran before has the same limit, whatever it heard in between; if
  -- the default can be written with no byte lost and is read as it prints.
  pub start_client-run :
      (env again : Env) (kv : Backend) (ss : List (Step F))
      → (set_value_string env max_allowed_speed (float.to_string (default_max float)) kv).1 ≡ ok tt
      → env.flushes ≡ true
      → streamed.read (float.to_string (default_max float)) ≡ some (default_max float)
      → let first = start_client float streamed calm env kv in
        let second = start_client float streamed calm again (run float ss first).0.kv in
        ((v : F)
          → fetch streamed calm max_allowed_speed kv ≡ ok v
          → (first.max_speed ≡ v) × (second.max_speed ≡ v))
        × ((e : PersistencyErrc)
            → fetch streamed calm max_allowed_speed kv ≡ err e
            → (first.max_speed ≡ default_max float) × (second.max_speed ≡ default_max float))
  unfolding limit_of
  start_client-run env again kv ss stored flushed law =
      let first = start_client float streamed calm env kv in
      let same : (start_client float streamed calm again (run float ss first).0.kv).max_speed
          ≡ first.max_speed =
        start_client-limit again (run float ss first).0.kv
        ∙ ap limit_of (run-limit ss first)
        ∙ ap limit_of (start_client-stored env kv stored flushed law) in
      let read : first.max_speed ≡ limit_of (fetch streamed calm max_allowed_speed kv) =
        start_client-limit env kv ∙ ap limit_of (sym (fetch_limit kv)) in
      (
        λ v h. let found = read ∙ ap limit_of h in (found, same ∙ found),
        λ e h. let found = read ∙ ap limit_of h in (found, same ∙ found),
      )
