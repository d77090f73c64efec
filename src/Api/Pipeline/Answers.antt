-- ===== src/Api/Pipeline/Answers.antt =====
-- What a pipeline answers, and what it does to the store.
use daikon.Prelude.{
  ℕ, ◌+◌, ◌≤◌, String, false, ◌≡◌, refl, ap, ◌∙◌, Option, none, some, List, [], ◌∷◌, map, length,
  is_empty, ltb, arith,
}
use daikon.Platform.{Platform}
use daikon.Error.{Result, ok, err, panic}
use daikon.Exec.Steady.{is_panic}
use daikon.Store.{KvStore}
use daikon.Crypto.{Bytes, Cipher}
use daikon.Wal.{WalOperation, WalEntry, Codec, new_entry}
use daikon.Wal.Lossless.{append_returns}
use daikon.Json.{json_object, json_list}
use daikon.Api.{Request, App, success, require_api_key, guarded, or_respond}
use daikon.Api.Pipeline.{
  PipelineCommand, Checked, max_pipeline_commands, logged_operation, append_result, log_operation,
  log_commands, PipelineResult, run_command, run_checked, run_commands, result_json,
  finish_pipeline, run_pipeline, pipeline_exec,
}
use daikon.Api.Pipeline.Commands.{run_command-Returns, apply_logged, run_command-apply_logged}

-- Every entry was written.
abbrev pub unfailed : List PipelineCommand → List Checked
unfailed = map (λ command. (command, none))

module _ ⦃P : Platform⦄ where
  run_checked_returns :
      (now : ℕ) (checked : Checked) (s : KvStore)
      → (result : PipelineResult) × ((run_checked now checked s).0 ≡ ok result)
  unfolding run_checked
  run_checked_returns now (command, none) s = run_command-Returns now command s
  run_checked_returns now (command, some wal_err) s = (_, refl)

  -- One result for each command.
  pub run_commands_answer :
      (now : ℕ) (commands : List Checked) (s : KvStore)
      → (results : List PipelineResult) × ((run_commands now commands s).0 ≡ ok results)
        × (length results ≡ length commands)
  unfolding run_commands
  run_commands_answer now [] s = ([], refl, refl)
  run_commands_answer now (checked ∷ rest) s =
      let (result, e) = run_checked_returns now checked s in
      let (results, f, n) = run_commands_answer now rest (run_checked now checked s).1 in
      (result ∷ results, rw (e, f) refl, omega (arith, n))

  -- What the operations of the entries do to a store, one after the other, where none is lost.
  unfoldable pub apply_all : ℕ → List PipelineCommand → KvStore → KvStore
  apply_all now [] s = s
  apply_all now (command ∷ commands) s =
      apply_all now commands (apply_logged now (logged_operation command) s)

  pub run_commands-apply_all :
      (now : ℕ) (commands : List PipelineCommand) (s : KvStore)
      → (run_commands now (unfailed commands) s).1 ≡ apply_all now commands s
  unfolding run_commands apply_all run_checked
  run_commands-apply_all now [] s = refl
  run_commands-apply_all now (command ∷ commands) s =
      let (result, e) = run_command-Returns now command s in
      let (results, f, n) =
        run_commands_answer now (unfailed commands) (run_command now command s).1 in
      rw (e, f)
        (run_commands-apply_all now commands (run_command now command s).1
          ∙ ap (apply_all now commands) (run_command-apply_logged now command s))

module _ ⦃C : Cipher⦄ ⦃S : Codec⦄ where
  -- `serde_json` does not panic.
  abbrev pub Serializes : Type 0
  Serializes = (entry : WalEntry) → is_panic (S.to_vec entry) ≡ false

  append_result_returns :
      (done : Result (Unit {0}) × Bytes)
      → is_panic done.0 ≡ false
      → (wal_err : Option String) × ((append_result done).0 ≡ ok wal_err)
  unfolding append_result
  append_result_returns (ok done, file) h = (none, refl)
  append_result_returns (err e, file) h = (_, refl)
  append_result_returns (panic, file) h = cc

  log_operation_returns :
      (serializes : Serializes) (req : Request) (idx : ℕ) (op : Option WalOperation) (wal : Bytes)
      → (wal_err : Option String) × ((log_operation req idx op wal).0 ≡ ok wal_err)
  unfolding log_operation
  log_operation_returns serializes req idx none wal = (none, refl)
  log_operation_returns serializes req idx (some op) wal =
      append_result_returns _
        (append_returns (req.attempts idx) (new_entry req.now op) wal (serializes _))

  log_commands_returns :
      (serializes : Serializes) (req : Request) (idx : ℕ) (commands : List PipelineCommand)
      (wal : Bytes)
      → (checked : List Checked) × ((log_commands req idx commands wal).0 ≡ ok checked)
        × (length checked ≡ length commands)
  unfolding log_commands
  log_commands_returns serializes req idx [] wal = ([], refl, refl)
  log_commands_returns serializes req idx (command ∷ commands) wal =
      let first = log_operation req idx (logged_operation command) wal in
      let (wal_err, e) = log_operation_returns serializes req idx (logged_operation command) wal in
      let (checked, f, n) = log_commands_returns serializes req (idx + 1) commands first.1 in
      ((command, wal_err) ∷ checked, rw (e, f) refl, omega (arith, n))

module _ ⦃P : Platform⦄ ⦃C : Cipher⦄ ⦃S : Codec⦄ where
  -- An authorised pipeline of 1 to 1000 commands is answered with 200 and one result for each
  -- command, whatever fails in the log or in the store.
  pub pipeline_exec_answers :
      (serializes : Serializes) (req : Request) (commands : List PipelineCommand) (a : App)
      → require_api_key req ≡ none
      → is_empty commands ≡ false
      → length commands ≤ 1000
      → (results : List PipelineResult) × ((pipeline_exec req commands a).0
          ≡ success (json_object (("results", json_list result_json results) ∷ [])))
        × (length results ≡ length commands)
  unfolding pipeline_exec guarded or_respond run_pipeline finish_pipeline
  pipeline_exec_answers serializes req commands a allowed some_command few =
      let (checked, e, n) = log_commands_returns serializes req 0 commands a.wal in
      let (results, f, m) = run_commands_answer req.now checked a.store in
      let within : ltb max_pipeline_commands (length commands) ≡ false = ground arith in
      (results, rw (allowed, some_command, within, e, f) refl, omega (arith, n, m))
