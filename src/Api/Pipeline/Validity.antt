-- ===== src/Api/Pipeline/Validity.antt =====
-- A pipeline keeps the invariants of the store and of the channels.
use daikon.Prelude.{
  ℕ, Option, none, some, List, [], ◌∷◌, length, is_empty, ltb, Bool-cases, inl, inr,
}
use daikon.Platform.{Platform}
use daikon.Error.{Result, ok, err, panic}
use daikon.Exec.{Exec}
use daikon.Exec.Keeps.{Keeps, Keeps-pure, keeps_rules}
use daikon.Value.{str}
use daikon.Store.{KvStore}
use daikon.Store.Strings.{incr, decr}
use daikon.Store.Validity
use daikon.Store.Strings.Validity.{delete-IsValid, incrby-IsValid, append-IsValid, getset-IsValid}
use daikon.Store.Lists.Validity.{lpush-IsValid, rpush-IsValid, lpop-IsValid, rpop-IsValid}
use daikon.Crypto.{Cipher}
use daikon.Wal.{Codec}
use daikon.Json.{JsonValue}
use daikon.Api.{Request}
use daikon.Api.Strings.Stored.{store_value-IsValid}
use daikon.Api.Validity.{KeepsApp, KeepsApp-guarded, publish_keyspace_events-IsValid}
use daikon.Api.Pipeline.{
  PipelineCommand, cmd_get, cmd_delete, cmd_incr, cmd_decr, cmd_exists, cmd_lpop, cmd_rpop,
  cmd_llen, cmd_set, cmd_incr_by, cmd_append, cmd_get_set, cmd_mget, cmd_lpush, cmd_rpush,
  cmd_lrange, Checked, max_pipeline_commands, log_commands, PipelineResult, settled, run_command,
  run_checked, run_commands, finish_pipeline, run_pipeline, pipeline_exec,
}

module _ ⦃P : Platform⦄ where
  Keeps-settled :
      {A : Type 0} (reply : A → Option JsonValue) (m : Exec KvStore A)
      → Keeps Validity.IsValid m
      → Keeps Validity.IsValid (settled reply m)
  Keeps-settled reply m k = record { after = λ s v. k.after s v }

  run_command-IsValid :
      (now : ℕ) (command : PipelineCommand) → Keeps Validity.IsValid (run_command now command)
  unfolding run_command incr decr
  run_command-IsValid now (cmd_get key) = record { after = λ s v. v }
  run_command-IsValid now (cmd_exists key) = record { after = λ s v. v }
  run_command-IsValid now (cmd_mget keys) = record { after = λ s v. v }
  run_command-IsValid now (cmd_delete key) = record { after = λ s v. delete-IsValid now key s v }
  run_command-IsValid now (cmd_set key value ttl_secs) =
      Keeps-settled _ _ (store_value-IsValid now key value ttl_secs)
  run_command-IsValid now (cmd_incr key) = Keeps-settled _ _ (incrby-IsValid key _)
  run_command-IsValid now (cmd_decr key) = Keeps-settled _ _ (incrby-IsValid key _)
  run_command-IsValid now (cmd_incr_by key amount) = Keeps-settled _ _ (incrby-IsValid key amount)
  run_command-IsValid now (cmd_append key value) = Keeps-settled _ _ (append-IsValid now key value)
  run_command-IsValid now (cmd_get_set key value) =
      Keeps-settled _ _ (getset-IsValid now key (str value))
  run_command-IsValid now (cmd_lpush key values) = Keeps-settled _ _ (lpush-IsValid key values)
  run_command-IsValid now (cmd_rpush key values) = Keeps-settled _ _ (rpush-IsValid key values)
  run_command-IsValid now (cmd_lpop key) = Keeps-settled _ _ (lpop-IsValid key)
  run_command-IsValid now (cmd_rpop key) = Keeps-settled _ _ (rpop-IsValid key)
  run_command-IsValid now (cmd_lrange key start stop) = record { after = λ s v. v }
  run_command-IsValid now (cmd_llen key) = record { after = λ s v. v }

  run_checked-IsValid :
      (now : ℕ) (checked : Checked) → Keeps Validity.IsValid (run_checked now checked)
  unfolding run_checked
  run_checked-IsValid now (command, none) = run_command-IsValid now command
  run_checked-IsValid now (command, some wal_err) = Keeps-pure _

  run_commands-IsValid :
      (now : ℕ) (commands : List Checked) → Keeps Validity.IsValid (run_commands now commands)
  unfolding run_commands
  run_commands-IsValid now [] = Keeps-pure []
  run_commands-IsValid now (checked ∷ rest) =
      let later = run_commands-IsValid now rest in search (keeps_rules, run_checked-IsValid)

  finish_pipeline-IsValid :
      (req : Request) (results : Result (List PipelineResult))
      → KeepsApp (finish_pipeline req results)
  unfolding finish_pipeline
  finish_pipeline-IsValid req (ok results) = record {
    after = λ a v. publish_keyspace_events-IsValid req.now a v;
  }
  finish_pipeline-IsValid req (err e) = record { after = λ a v. v }
  finish_pipeline-IsValid req panic = record { after = λ a v. v }

  run_pipeline-IsValid :
      (req : Request) (commands : Result (List Checked)) → KeepsApp (run_pipeline req commands)
  unfolding run_pipeline
  run_pipeline-IsValid req (ok commands) = record {
    after = λ a v.
        (finish_pipeline-IsValid req _).after _
          ((run_commands-IsValid req.now commands).after a.store v.0, v.1);
  }
  run_pipeline-IsValid req (err e) = record { after = λ a v. v }
  run_pipeline-IsValid req panic = record { after = λ a v. v }

module _ ⦃P : Platform⦄ ⦃C : Cipher⦄ ⦃S : Codec⦄ where
  pub pipeline_exec-IsValid :
      (req : Request) (commands : List PipelineCommand) → KeepsApp (pipeline_exec req commands)
  unfolding pipeline_exec
  pipeline_exec-IsValid req commands = KeepsApp-guarded req _ (record {
    after = λ a v. elim (Bool-cases (is_empty commands)) [
      | inl no_command ↦ rw no_command v
      | inr some_command ↦ elim (Bool-cases (ltb max_pipeline_commands (length commands))) [
        | inl many ↦ rw (some_command, many) v
        | inr few ↦
            rw (some_command, few)
              ((run_pipeline-IsValid req _).after
                (record a { wal = (log_commands req 0 commands a.wal).1 }) v)
      ]
    ];
  })
