-- ===== src/Api/Pipeline/Commands.antt =====
-- A command of a pipeline returns, and does to the store what the replay of its entry does.
use daikon.Prelude.{ℕ, Bool, false, ◌≡◌, refl, sym, subst, Option, none, some}
use daikon.Prelude.Int.{pos, negsuc}
use daikon.Platform.{Platform}
use daikon.Error.{Result, ok, err, panic}
use daikon.Exec.{Exec, continue, pure}
use daikon.Exec.Steady.{is_panic}
use daikon.Value.{str}
use daikon.Store.{KvStore}
use daikon.Store.Strings.{incr, decr, incrby, append, getset}
use daikon.Store.Lists.{lpush, rpush, lpop, rpop}
use daikon.Store.Lists.Ranges.{lrange_returns, llen_returns}
use daikon.Store.Strings.Quiet.{
  set-Steady, set_with_ttl-Steady, incrby-Steady, append-Steady, getset-Steady,
}
use daikon.Store.Lists.Quiet.{lpush-Steady, rpush-Steady, lpop-Steady, rpop-Steady}
use daikon.Wal.{WalOperation}
use daikon.Replay.{run, ignore, ignore_result, apply_operation, apply_set}
use daikon.Api.Strings.{store_value}
use daikon.Api.Strings.Stored.{store_value-Steady}
use daikon.Api.Lists.{start_or_first, stop_or_last}
use daikon.Api.Pipeline.{
  PipelineCommand, cmd_get, cmd_delete, cmd_incr, cmd_decr, cmd_exists, cmd_lpop, cmd_rpop,
  cmd_llen, cmd_set, cmd_incr_by, cmd_append, cmd_get_set, cmd_mget, cmd_lpush, cmd_rpush,
  cmd_lrange, logged_operation, PipelineResult, result_of, run_command,
}
use daikon.Json.{JsonValue}

module _ ⦃P : Platform⦄ where
  -- Every command has a result, an error being one.
  abbrev pub Returns : Exec KvStore PipelineResult → Type 0
  Returns m = (s : KvStore) → (result : PipelineResult) × ((m s).0 ≡ ok result)

  result_of-returns :
      {A : Type 0} (reply : A → Option JsonValue) (r : Result A)
      → is_panic r ≡ false
      → (result : PipelineResult) × (result_of reply r ≡ ok result)
  unfolding result_of
  result_of-returns reply (ok a) h = (_, refl)
  result_of-returns reply (err e) h = (_, refl)
  result_of-returns reply panic h = cc

  pub run_command-Returns :
      (now : ℕ) (command : PipelineCommand) → Returns (run_command now command)
  unfolding run_command incr decr
  run_command-Returns now (cmd_get key) s = (_, refl)
  run_command-Returns now (cmd_exists key) s = (_, refl)
  run_command-Returns now (cmd_mget keys) s = (_, refl)
  run_command-Returns now (cmd_delete key) s = (_, refl)
  run_command-Returns now (cmd_set key value ttl_secs) s =
      result_of-returns _ _ ((store_value-Steady now key value ttl_secs).returns s)
  run_command-Returns now (cmd_incr key) s = result_of-returns _ _ ((incrby-Steady key _).returns s)
  run_command-Returns now (cmd_decr key) s = result_of-returns _ _ ((incrby-Steady key _).returns s)
  run_command-Returns now (cmd_incr_by key amount) s =
      result_of-returns _ _ ((incrby-Steady key amount).returns s)
  run_command-Returns now (cmd_append key value) s =
      result_of-returns _ _ ((append-Steady now key value).returns s)
  run_command-Returns now (cmd_get_set key value) s =
      result_of-returns _ _ ((getset-Steady now key (str value)).returns s)
  run_command-Returns now (cmd_lpush key values) s =
      result_of-returns _ _ ((lpush-Steady key values).returns s)
  run_command-Returns now (cmd_rpush key values) s =
      result_of-returns _ _ ((rpush-Steady key values).returns s)
  run_command-Returns now (cmd_lpop key) s = result_of-returns _ _ ((lpop-Steady key).returns s)
  run_command-Returns now (cmd_rpop key) s = result_of-returns _ _ ((rpop-Steady key).returns s)
  run_command-Returns now (cmd_lrange key start stop) s =
      result_of-returns _ _ (lrange_returns now key (start_or_first start) (stop_or_last stop) s)
  run_command-Returns now (cmd_llen key) s = result_of-returns _ _ (llen_returns now key s)

  ignore_result_store : {A : Type 0} (r : Result A × KvStore) → (ignore_result r).1 ≡ r.1
  unfolding ignore_result
  ignore_result_store (ok a, s) = refl
  ignore_result_store (err e, s) = refl
  ignore_result_store (panic, s) = refl

  ignore_store : {A : Type 0} (m : Exec KvStore A) (s : KvStore) → (ignore m s).1 ≡ (m s).1
  unfolding ignore
  ignore_store m s = ignore_result_store (m s)

  continue_store : {A : Type 0} (r : Result A) (s : KvStore) → (continue r (λ a. pure tt) s).1 ≡ s
  continue_store (ok a) s = refl
  continue_store (err e) s = refl
  continue_store panic s = refl

  run_store : {A : Type 0} (m : Exec KvStore A) (s : KvStore) → (run m s).1 ≡ (m s).1
  run_store m s = continue_store (m s).0 (m s).1

  -- What the replay of the entry of a command does to the store.
  unfoldable pub apply_logged : ℕ → Option WalOperation → KvStore → KvStore
  apply_logged now none s = s
  apply_logged now (some op) s = (apply_operation now op s).1

  pub run_command-apply_logged :
      (now : ℕ) (command : PipelineCommand) (s : KvStore)
      → (run_command now command s).1 ≡ apply_logged now (logged_operation command) s
  unfolding run_command logged_operation apply_logged apply_operation apply_set store_value
  run_command-apply_logged now (cmd_get key) s = refl
  run_command-apply_logged now (cmd_exists key) s = refl
  run_command-apply_logged now (cmd_mget keys) s = refl
  run_command-apply_logged now (cmd_delete key) s = refl
  run_command-apply_logged now (cmd_set key value none) s = refl
  run_command-apply_logged now (cmd_set key value (some ttl)) s = refl
  run_command-apply_logged now (cmd_incr key) s = sym (run_store (incr key) s)
  run_command-apply_logged now (cmd_decr key) s = sym (run_store (decr key) s)
  run_command-apply_logged now (cmd_incr_by key amount) s = sym (run_store (incrby key amount) s)
  run_command-apply_logged now (cmd_append key value) s = sym (run_store (append now key value) s)
  run_command-apply_logged now (cmd_get_set key value) s =
      sym (run_store (getset now key (str value)) s)
  run_command-apply_logged now (cmd_lpush key values) s = sym (ignore_store (lpush key values) s)
  run_command-apply_logged now (cmd_rpush key values) s = sym (ignore_store (rpush key values) s)
  run_command-apply_logged now (cmd_lpop key) s = sym (ignore_store (lpop key) s)
  run_command-apply_logged now (cmd_rpop key) s = sym (ignore_store (rpop key) s)
  run_command-apply_logged now (cmd_lrange key start stop) s = refl
  run_command-apply_logged now (cmd_llen key) s = refl

  continue_returns :
      {A : Type 0} (r : Result A) (s : KvStore)
      → is_panic r ≡ false
      → is_panic (continue r (λ a. pure tt) s).0 ≡ false
  continue_returns (ok a) s h = refl
  continue_returns (err e) s h = refl
  continue_returns panic s h = h

  run_returns :
      {A : Type 0} (m : Exec KvStore A) (s : KvStore)
      → is_panic (m s).0 ≡ false
      → is_panic (run m s).0 ≡ false
  run_returns m s h = continue_returns (m s).0 (m s).1 h

  ignore_result_returns :
      {A : Type 0} (r : Result A × KvStore)
      → is_panic r.0 ≡ false
      → is_panic (ignore_result r).0 ≡ false
  unfolding ignore_result
  ignore_result_returns (ok a, s) h = refl
  ignore_result_returns (err e, s) h = refl
  ignore_result_returns (panic, s) h = h

  ignore_returns :
      {A : Type 0} (m : Exec KvStore A) (s : KvStore)
      → is_panic (m s).0 ≡ false
      → is_panic (ignore m s).0 ≡ false
  unfolding ignore
  ignore_returns m s h = ignore_result_returns (m s) h

  -- Whether the replay of the entry of a command panics, where it has one.
  is_panic_logged : ℕ → Option WalOperation → KvStore → Bool
  is_panic_logged now none s = false
  is_panic_logged now (some op) s = is_panic (apply_operation now op s).0

  logged_returns :
      (now : ℕ) (command : PipelineCommand) (s : KvStore)
      → is_panic_logged now (logged_operation command) s ≡ false
  unfolding is_panic_logged logged_operation apply_operation apply_set incr decr
  logged_returns now (cmd_set key value none) s = (set-Steady now key (str value)).returns s
  logged_returns now (cmd_set key value (some ttl)) s =
      (set_with_ttl-Steady now key (str value) ttl).returns s
  logged_returns now (cmd_delete key) s = refl
  logged_returns now (cmd_incr key) s =
      run_returns (incrby key (pos 1)) s ((incrby-Steady key (pos 1)).returns s)
  logged_returns now (cmd_decr key) s =
      run_returns (incrby key (negsuc 0)) s ((incrby-Steady key (negsuc 0)).returns s)
  logged_returns now (cmd_incr_by key amount) s =
      run_returns (incrby key amount) s ((incrby-Steady key amount).returns s)
  logged_returns now (cmd_append key value) s =
      run_returns (append now key value) s ((append-Steady now key value).returns s)
  logged_returns now (cmd_get_set key value) s =
      run_returns (getset now key (str value)) s ((getset-Steady now key (str value)).returns s)
  logged_returns now (cmd_lpush key values) s =
      ignore_returns (lpush key values) s ((lpush-Steady key values).returns s)
  logged_returns now (cmd_rpush key values) s =
      ignore_returns (rpush key values) s ((rpush-Steady key values).returns s)
  logged_returns now (cmd_lpop key) s = ignore_returns (lpop key) s ((lpop-Steady key).returns s)
  logged_returns now (cmd_rpop key) s = ignore_returns (rpop key) s ((rpop-Steady key).returns s)
  logged_returns now (cmd_get key) s = refl
  logged_returns now (cmd_exists key) s = refl
  logged_returns now (cmd_mget keys) s = refl
  logged_returns now (cmd_lrange key start stop) s = refl
  logged_returns now (cmd_llen key) s = refl

  -- The entry of a command does not panic in a replay, either.
  pub apply_operation_returns :
      (now : ℕ) (command : PipelineCommand) (op : WalOperation) (s : KvStore)
      → logged_operation command ≡ some op
      → is_panic (apply_operation now op s).0 ≡ false
  unfolding is_panic_logged
  apply_operation_returns now command op s e =
      subst (λ o. is_panic_logged now o s ≡ false) e (logged_returns now command s)
