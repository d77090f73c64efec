-- ===== src/Api/Pipeline.antt =====
-- api.rs: POST /api/pipeline, a batch of commands. The log gets the entries of all commands first;
-- then the commands run on the store, those whose entry failed excepted.
pub mod Commands
pub mod Answers
pub mod Replayed
pub mod Validity
use daikon.Prelude.{
  ℕ, zero, ◌+◌, String, Bool, true, false, Option, none, some, is_some, List, [], ◌∷◌, format,
  is_empty, length, ltb, decimal, if◌then◌else◌,
}
use daikon.Prelude.Int.{ℤ}
use mathlib.Core.Option
use daikon.Platform.{Platform}
use daikon.Error.{Result, ok, err, panic, error_text}
use daikon.Exec.{Exec, pure, gets, modify, ◌>>=◌, ◌>>◌}
use daikon.Value.{Value, str, display}
use daikon.Store.{KvStore, get}
use daikon.Store.Strings.{delete, incr, decr, incrby, append, getset, mget, exists}
use daikon.Store.Lists.{lpush, rpush, lpop, rpop, lrange, llen}
use daikon.Crypto.{Bytes, Cipher}
use daikon.Wal.{
  WalOperation, Codec, new_entry, op_set, op_delete, op_incr, op_decr, op_incr_by, op_append,
  op_get_set, op_lpush, op_rpush, op_lpop, op_rpop,
}
use daikon.Wal
use daikon.Json.{
  JsonValue, json_bool, json_nat, json_int, json_text, json_object, json_option, json_list,
}
use daikon.Api.{
  Request, Response, App, Handler, success, bad_request, too_large, no_response, guarded,
  publish_keyspace_events, wal_error,
}
use daikon.Api.Strings.{store_value, optional_text}
use daikon.Api.Lists.{start_or_first, stop_or_last}

pub data PipelineCommand : Type 0 where
  cmd_get cmd_delete cmd_incr cmd_decr cmd_exists cmd_lpop cmd_rpop cmd_llen :
      String → PipelineCommand
  cmd_set : String → String → Option ℕ → PipelineCommand
  cmd_incr_by : String → ℤ → PipelineCommand
  cmd_append cmd_get_set : String → String → PipelineCommand
  cmd_mget : List String → PipelineCommand
  cmd_lpush cmd_rpush : String → List String → PipelineCommand
  cmd_lrange : String → Option ℤ → Option ℤ → PipelineCommand

abbrev pub max_pipeline_commands : ℕ
max_pipeline_commands = 1000

-- The operation that the log gets for a command that writes; a SET is logged with its plain text.
unfoldable pub logged_operation : PipelineCommand → Option WalOperation
logged_operation (cmd_set key value ttl_secs) = some (op_set key value ttl_secs)
logged_operation (cmd_delete key) = some (op_delete key)
logged_operation (cmd_incr key) = some (op_incr key)
logged_operation (cmd_decr key) = some (op_decr key)
logged_operation (cmd_incr_by key amount) = some (op_incr_by key amount)
logged_operation (cmd_append key value) = some (op_append key value)
logged_operation (cmd_get_set key value) = some (op_get_set key value)
logged_operation (cmd_lpush key values) = some (op_lpush key values)
logged_operation (cmd_rpush key values) = some (op_rpush key values)
logged_operation (cmd_lpop key) = some (op_lpop key)
logged_operation (cmd_rpop key) = some (op_rpop key)
logged_operation _ = none

-- A command with the error of its entry.
abbrev pub Checked : Type 0
Checked = PipelineCommand × Option String

module _ ⦃C : Cipher⦄ ⦃S : Codec⦄ where
  unfoldable pub append_result : Result (Unit {0}) × Bytes → Result (Option String) × Bytes
  append_result (ok done, file) = (ok none, file)
  append_result (err e, file) = (ok (some (error_text e)), file)
  append_result (panic, file) = (panic, file)

  unfoldable pub log_operation : Request → ℕ → Option WalOperation → Exec Bytes (Option String)
  unfolding append_result
  log_operation req idx none wal = (ok none, wal)
  log_operation req idx (some op) wal =
      append_result (Wal.append (req.attempts idx) (new_entry req.now op) wal)

  -- Phase 1: `idx` counts the commands. Each command is paired with its element of `wal_errors`.
  unfoldable pub log_commands : Request → ℕ → List PipelineCommand → Exec Bytes (List Checked)
  unfolding log_operation
  log_commands req idx [] = pure []
  log_commands req idx (command ∷ commands) = do
    wal_result ← log_operation req idx (logged_operation command)
    rest ← log_commands req (idx + 1) commands
    pure ((command, wal_result) ∷ rest)

module _ ⦃P : Platform⦄ where
  pub record PipelineResult : Type 0 where
    pub status : String
    pub value : Option JsonValue
    pub error : Option String

  abbrev pub ok_result : Option JsonValue → PipelineResult
  ok_result value = record { status = "ok"; value = value; error = none }

  abbrev pub error_result : String → PipelineResult
  error_result message = record { status = "error"; value = none; error = some message }

  unfoldable pub result_of :
      {A : Type 0} → (A → Option JsonValue) → Result A → Result PipelineResult
  result_of reply (ok a) = ok (ok_result (reply a))
  result_of reply (err e) = ok (error_result (error_text e))
  result_of reply panic = panic

  -- `match m { Ok(a) => …, Err(e) => … }`: an error is the result of the command.
  abbrev pub settled :
      {A : Type 0} → (A → Option JsonValue) → Exec KvStore A → Exec KvStore PipelineResult
  settled reply m s = let (r, s') = m s in (result_of reply r, s')

  abbrev looked_up :
      {A : Type 0} → (A → Option JsonValue) → (KvStore → Result A) → Exec KvStore PipelineResult
  looked_up reply f s = (result_of reply (f s), s)

  abbrev int_value : ℤ → Option JsonValue
  int_value n = some (json_int n)

  abbrev nat_value : ℕ → Option JsonValue
  nat_value n = some (json_nat n)

  abbrev text_value : Option String → Option JsonValue
  text_value = Option.map json_text

  abbrev shown_value : Option Value → Option JsonValue
  shown_value = Option.map (λ value. json_text (display value))

  abbrev deleted : (KvStore → Option Value × KvStore) → Exec KvStore PipelineResult
  deleted f s = let (old, s') = f s in (ok (ok_result (some (json_bool (is_some old)))), s')

  -- The arms of the second loop, up to the error of the entry.
  unfoldable pub run_command : ℕ → PipelineCommand → Exec KvStore PipelineResult
  run_command now (cmd_get key) = gets λ s. ok_result (shown_value (get now key s))
  run_command now (cmd_set key value ttl_secs) =
      settled (λ done. none) (store_value now key value ttl_secs)
  run_command now (cmd_delete key) = deleted (delete now key)
  run_command now (cmd_incr key) = settled int_value (incr key)
  run_command now (cmd_decr key) = settled int_value (decr key)
  run_command now (cmd_incr_by key amount) = settled int_value (incrby key amount)
  run_command now (cmd_append key value) = settled nat_value (append now key value)
  run_command now (cmd_get_set key value) = settled shown_value (getset now key (str value))
  run_command now (cmd_exists key) = gets λ s. ok_result (some (json_bool (exists now key s)))
  run_command now (cmd_mget keys) =
      gets λ s. ok_result (some (json_list optional_text (mget now keys s)))
  run_command now (cmd_lpush key values) = settled nat_value (lpush key values)
  run_command now (cmd_rpush key values) = settled nat_value (rpush key values)
  run_command now (cmd_lpop key) = settled text_value (lpop key)
  run_command now (cmd_rpop key) = settled text_value (rpop key)
  run_command now (cmd_lrange key start stop) =
      looked_up (λ values. some (json_list json_text values))
        (lrange now key (start_or_first start) (stop_or_last stop))
  run_command now (cmd_llen key) = looked_up nat_value (llen now key)

  unfoldable pub run_checked : ℕ → Checked → Exec KvStore PipelineResult
  run_checked now (command, none) = run_command now command
  run_checked now (command, some wal_err) = pure (error_result (format (wal_error ∷ wal_err ∷ [])))

  -- Phase 2.
  unfoldable pub run_commands : ℕ → List Checked → Exec KvStore (List PipelineResult)
  run_commands now [] = pure []
  run_commands now (checked ∷ rest) = do
    result ← run_checked now checked
    results ← run_commands now rest
    pure (result ∷ results)

  -- `Option::is_none` fields are left out.
  abbrev optional_field :
      String → Option JsonValue → List (String × JsonValue) → List (String × JsonValue)
  optional_field name none fields = fields
  optional_field name (some j) fields = (name, j) ∷ fields

  abbrev pub result_json : PipelineResult → JsonValue
  result_json result = json_object (
      ("status", json_text result.status)
      ∷ optional_field "value" result.value
          (optional_field "error" (Option.map json_text result.error) []))

  unfoldable pub finish_pipeline : Request → Result (List PipelineResult) → Handler
  finish_pipeline req (ok results) a = (
    success (json_object (("results", json_list result_json results) ∷ [])),
    publish_keyspace_events req.now a,
  )
  finish_pipeline req (err e) a = (no_response, a)
  finish_pipeline req panic a = (no_response, a)

  unfoldable pub run_pipeline : Request → Result (List Checked) → Handler
  unfolding finish_pipeline
  run_pipeline req (ok commands) a =
      let (results, s) = run_commands req.now commands a.store in
      finish_pipeline req results (record a { store = s })
  run_pipeline req (err e) a = (no_response, a)
  run_pipeline req panic a = (no_response, a)

module _ ⦃P : Platform⦄ ⦃C : Cipher⦄ ⦃S : Codec⦄ where
  unfoldable pub pipeline_exec : Request → List PipelineCommand → Handler
  unfolding run_pipeline
  pipeline_exec req commands = guarded req λ a.
      if is_empty commands
      then (bad_request "Pipeline must contain at least one command", a)
      else if ltb max_pipeline_commands (length commands)
      then (
        too_large (
            format
              ("Pipeline exceeds maximum of " ∷ decimal max_pipeline_commands ∷ " commands" ∷ [])),
        a,
      )
      else let (checked, file) = log_commands req 0 commands a.wal in
        run_pipeline req checked (record a { wal = file })
