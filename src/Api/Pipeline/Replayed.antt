-- ===== src/Api/Pipeline/Replayed.antt =====
-- What a pipeline writes to the log, and what the replay of pitr.rs makes of it.
use mathlib.Core.List.{append-nil, append_assoc}
use daikon.Prelude.{
  ℕ, ◌+◌, ◌≤◌, String, false, ◌≡◌, refl, sym, ap, ◌∙◌, Option, none, some, List, [], ◌∷◌, ◌++◌,
  length, is_empty, ltb, arith,
}
use daikon.Platform.{Platform}
use daikon.Error.{Result, ok, err, panic, ◌>>=◌}
use daikon.Exec.{Exec, continue, pure}
use daikon.Exec.Steady.{is_panic}
use daikon.Store.{KvStore, drain_keyspace_events}
use daikon.Store.Quiet.{quiet}
use daikon.Crypto.{Bytes, Cipher}
use daikon.Wal.{WalOperation, WalEntry, Codec, new_entry, append, read_all}
use daikon.Wal.Lines.{IsComplete}
use daikon.Wal.Lossless.{Lossless, append_reads}
use daikon.Replay.{apply_operation}
use daikon.Pitr.{replay, replay_step}
use daikon.Api.{Request, App, require_api_key, guarded, or_respond, publish_keyspace_events}
use daikon.Api.Pipeline.{
  PipelineCommand, Checked, max_pipeline_commands, logged_operation, append_result, log_operation,
  log_commands, run_pipeline, finish_pipeline, pipeline_exec,
}
use daikon.Api.Pipeline.Commands.{apply_logged, apply_operation_returns}
use daikon.Api.Pipeline.Answers.{apply_all, unfailed, run_commands_answer, run_commands-apply_all}

entry_of : ℕ → Option WalOperation → List WalEntry → List WalEntry
entry_of now none rest = rest
entry_of now (some op) rest = new_entry now op ∷ rest

-- The entries of the commands that write.
pub entries_of : ℕ → List PipelineCommand → List WalEntry
entries_of now [] = []
entries_of now (command ∷ commands) =
    entry_of now (logged_operation command) (entries_of now commands)

module _ ⦃P : Platform⦄ where
  stepped :
      (rest : KvStore → Result KvStore) (ran : Result (Unit {0}) × KvStore)
      → is_panic ran.0 ≡ false
      → replay_step rest ran ≡ rest ran.1
  unfolding replay_step
  stepped rest (ok u, s) h = refl
  stepped rest (err e, s) h = refl
  stepped rest (panic, s) h = cc

  replay_one :
      (now target : ℕ) (command : PipelineCommand) (op : Option WalOperation) (rest : List WalEntry)
      (s : KvStore)
      → ltb target now ≡ false
      → logged_operation command ≡ op
      → replay now target (entry_of now op rest) s ≡ replay now target rest (apply_logged now op s)
  unfolding entry_of apply_logged replay
  replay_one now target command none rest s early e = refl
  replay_one now target command (some op) rest s early e =
      rw (replay, early)
        (stepped (replay now target rest) (apply_operation now op s)
          (apply_operation_returns now command op s e))

  replay-apply_all :
      (now target : ℕ) (commands : List PipelineCommand) (s : KvStore)
      → ltb target now ≡ false
      → replay now target (entries_of now commands) s ≡ ok (apply_all now commands s)
  unfolding entries_of apply_all
  replay-apply_all now target [] s early = unfold replay in refl
  replay-apply_all now target (command ∷ commands) s early =
      replay_one now target command _ (entries_of now commands) s early refl
      ∙ replay-apply_all now target commands (apply_logged now (logged_operation command) s) early

module _ ⦃C : Cipher⦄ ⦃S : Codec⦄ where
  logged_result :
      (done : Result (Unit {0}) × Bytes)
      → (append_result done).0 ≡ ok none
      → done ≡ (ok tt, (append_result done).1)
  unfolding append_result
  logged_result (ok u, file) h = refl
  logged_result (err e, file) h = cc
  logged_result (panic, file) h = cc

  abbrev After :
      PipelineCommand
      → Option String
      → Result (List Checked) × Bytes
      → Result (List Checked) × Bytes
  After command wal_result (r, file) = continue r (λ rest. pure ((command, wal_result) ∷ rest)) file

  rest_logged :
      (command : PipelineCommand) (wal_result : Option String) (checked : List Checked)
      (ran : Result (List Checked) × Bytes)
      → (After command wal_result ran).0 ≡ ok ((command, none) ∷ checked)
      → (wal_result ≡ none) × (ran.0 ≡ ok checked) × ((After command wal_result ran).1 ≡ ran.1)
  rest_logged command wal_result checked (ok rest, file) h = (cc, cc, refl)
  rest_logged command wal_result checked (err e, file) h = cc
  rest_logged command wal_result checked (panic, file) h = cc

  abbrev Both :
      PipelineCommand
      → Result (Option String) × Bytes
      → Exec Bytes (List Checked)
      → Result (List Checked) × Bytes
  Both command (r, file) rest =
      continue r (λ wal_result file'. After command wal_result (rest file')) file

  both_logged :
      (command : PipelineCommand) (checked : List Checked) (first : Result (Option String) × Bytes)
      (rest : Exec Bytes (List Checked))
      → (Both command first rest).0 ≡ ok ((command, none) ∷ checked)
      → (first.0 ≡ ok none)
        × ((rest first.1).0 ≡ ok checked)
        × ((Both command first rest).1 ≡ (rest first.1).1)
  both_logged command checked (ok wal_result, file) rest h =
      let (e, f, same) = rest_logged command wal_result checked (rest file) h in (ap ok e, f, same)
  both_logged command checked (err e, file) rest h = cc
  both_logged command checked (panic, file) rest h = cc

  -- The log of an entry that was written, or of a command that writes none.
  logged_reads :
      (lossless : Lossless) (req : Request) (idx : ℕ) (op : Option WalOperation) (wal : Bytes)
      (entries : List WalEntry)
      → IsComplete wal
      → read_all wal ≡ ok entries
      → (log_operation req idx op wal).0 ≡ ok none
      → let wal' = (log_operation req idx op wal).1 in
        IsComplete wal' × (read_all wal' ≡ ok (entries ++ entry_of req.now op []))
  unfolding log_operation entry_of
  logged_reads lossless req idx none wal entries complete reads h =
      (complete, reads ∙ ap ok (sym (append-nil entries)))
  logged_reads lossless req idx (some op) wal entries complete reads h =
      let entry = new_entry req.now op in
      let done = append (req.attempts idx) entry wal in
      let (complete', reads') =
        append_reads lossless (req.attempts idx) entry wal (append_result done).1 complete
          (logged_result done h) in
      (complete', reads' ∙ ap (λ r. r >>= λ read. ok (read ++ entry ∷ [])) reads)

  entry_of-append :
      (now : ℕ) (op : Option WalOperation) (rest : List WalEntry)
      → entry_of now op [] ++ rest ≡ entry_of now op rest
  unfolding entry_of
  entry_of-append now none rest = refl
  entry_of-append now (some op) rest = refl

  log_commands_reads :
      (lossless : Lossless) (req : Request) (idx : ℕ) (commands : List PipelineCommand)
      (wal : Bytes) (entries : List WalEntry)
      → IsComplete wal
      → read_all wal ≡ ok entries
      → (log_commands req idx commands wal).0 ≡ ok (unfailed commands)
      → read_all (log_commands req idx commands wal).1 ≡ ok (entries ++ entries_of req.now commands)
  unfolding log_commands entries_of
  log_commands_reads lossless req idx [] wal entries complete reads h =
      reads ∙ ap ok (sym (append-nil entries))
  log_commands_reads lossless req idx (command ∷ commands) wal entries complete reads h =
      let op = logged_operation command in
      let first = log_operation req idx op wal in
      let (e, f, same) =
        both_logged command (unfailed commands) first (log_commands req (idx + 1) commands) h in
      let (complete', reads') = logged_reads lossless req idx op wal entries complete reads e in
      let later =
        log_commands_reads lossless req (idx + 1) commands first.1
          (entries ++ entry_of req.now op []) complete' reads' f in
      ap read_all same
      ∙ later
      ∙ ap ok (
          append_assoc entries (entry_of req.now op []) (entries_of req.now commands)
          ∙ ap (λ more. entries ++ more) (entry_of-append req.now op (entries_of req.now commands)))

module _ ⦃P : Platform⦄ ⦃C : Cipher⦄ ⦃S : Codec⦄ where
  -- An authorised pipeline of 1 to 1000 commands, each of whose entries was written, on a log of
  -- whole lines that reads: the log then reads to what it read to before and some more entries, and
  -- those, replayed in the same second by the recovery of pitr.rs up to any time from that second
  -- on, bring the store before the pipeline to the store after it, up to keyspace events.
  pub pipeline_exec-replay :
      (lossless : Lossless) (req : Request) (commands : List PipelineCommand) (target : ℕ) (a : App)
      (entries : List WalEntry)
      → require_api_key req ≡ none
      → is_empty commands ≡ false
      → length commands ≤ 1000
      → req.now ≤ target
      → IsComplete a.wal
      → read_all a.wal ≡ ok entries
      → (log_commands req 0 commands a.wal).0 ≡ ok (unfailed commands)
      → let a' = (pipeline_exec req commands a).1 in
        (more : List WalEntry) × (read_all a'.wal ≡ ok (entries ++ more))
        × (s : KvStore) × (replay req.now target more a.store ≡ ok s)
        × (quiet a'.store ≡ quiet s)
  unfolding pipeline_exec guarded or_respond run_pipeline finish_pipeline publish_keyspace_events
      drain_keyspace_events quiet
  pipeline_exec-replay lossless req commands target a entries allowed some_command few early
        complete reads logged =
      let within : ltb max_pipeline_commands (length commands) ≡ false = ground arith in
      let on_time : ltb target req.now ≡ false = ground arith in
      let (results, f, n) = run_commands_answer req.now (unfailed commands) a.store in
      (
        entries_of req.now commands,
        rw (allowed, some_command, within, logged, f)
            (log_commands_reads lossless req 0 commands a.wal entries complete reads logged),
        apply_all req.now commands a.store,
        replay-apply_all req.now target commands a.store on_time,
        rw (allowed, some_command, within, logged, f)
            (ap quiet (run_commands-apply_all req.now commands a.store)),
      )
