-- ===== src/Engine/Running/Ending.antt =====
-- internal/mirror/engine.go: how Run ends.
use gomm.Prelude.{
  ℕ, ◌≡◌, ◌≢◌, refl, ◌∙◌, Bool, true, false, List, [], ◌∷◌, Option, none, some, arith,
  if◌then◌else◌, lookup, bytes_eq,
}
use gomm.Policy.{ReplicationPolicy, new_policy, offset_syncs_topic}
use gomm.Config.{ReplicationConfig}
use gomm.Offset.Store.{SyncStore}
use gomm.Offset.Reader.{ReadEnd, caught_up, timed_out, stopped, crashed, pending, read_to_end}
use gomm.Engine.{flow_key, Engine}
use gomm.Engine.Bootstrap.{
  BootClients, BootStatus, boot_goes_on, boot_crashed, boot_reading, boot_policy_failed,
  boot_admin_failed, boot_reader_failed, boot_read_failed, boot_writer_failed, wire_writer,
  add_writer, after_read, read_syncs, boot_with, boot_flow, boot_rest, bootstrap_offset_syncs,
  store_at,
}
use gomm.Engine.Running.{
  RunClients, RunResult, engine_already_running, boot_failed, source_start_failed,
  discovery_start_failed, heartbeat_start_failed, checkpoint_start_failed, run_done, run_crashed,
  run_reading, start_components, after_start, after_boot, run,
}
use gomm.Engine.Running.Stopping.{AllStopped, shutdown-AllStopped}

-- The bootstrap leaves the engine running.
abbrev Same : Engine → Engine × BootStatus → Type 0
Same e out = out.0.running ≡ e.running

wire_writer-Same :
    (e : Engine) (found : Option ℕ) (w : ℕ) → (wire_writer e found w).running ≡ e.running
wire_writer-Same e none w = refl
wire_writer-Same e (some i) w = refl

add_writer-Same :
    (e : Engine) (r : ReplicationConfig) (topic : List ℕ) (connects : Bool)
    → Same e (add_writer e r topic connects)
add_writer-Same e r topic true = wire_writer-Same _ _ _
add_writer-Same e r topic false = refl

after_read-Same :
    (e : Engine) (r : ReplicationConfig) (topic : List ℕ) (i : ℕ) (connects : Bool) (s : SyncStore)
    (end : ReadEnd)
    → Same e (after_read e r topic i connects (s, end))
after_read-Same e r topic i connects s caught_up = add_writer-Same _ r topic connects
after_read-Same e r topic i connects s timed_out = add_writer-Same _ r topic connects
after_read-Same e r topic i connects s stopped = refl
after_read-Same e r topic i connects s crashed = refl
after_read-Same e r topic i connects s pending = refl

read_syncs-Same :
    (e : Engine) (r : ReplicationConfig) (clients : BootClients) (topic : List ℕ) (found : Option ℕ)
    → Same e (read_syncs e r clients topic found)
read_syncs-Same e r clients topic none = refl
read_syncs-Same e r clients topic (some i) =
    let (s, end) = read_to_end (store_at e i) clients.polls in
    after_read-Same e r topic i clients.writer_connects s end

boot_with-Same :
    (e : Engine) (r : ReplicationConfig) (clients : BootClients) (made : Option ReplicationPolicy)
    → Same e (boot_with e r clients made)
boot_with-Same e r clients none = refl
boot_with-Same e r clients (some policy) = ground (
  arith,
  read_syncs-Same e r clients (offset_syncs_topic policy r.source)
      (lookup (flow_key r) e.sync_stores),
)

boot_flow-Same :
    (e : Engine) (r : ReplicationConfig) (clients : BootClients) → Same e (boot_flow e r clients)
unfolding boot_flow
boot_flow-Same e r clients =
    ground (arith, boot_with-Same e r clients (new_policy r.replication_policy r.separator))

bootstrap-Same :
    (e : Engine) (flows : List (ReplicationConfig × BootClients))
    → Same e (bootstrap_offset_syncs e flows)
unfolding bootstrap_offset_syncs
bootstrap-Same e [] = refl
bootstrap-Same e ((r, clients) ∷ more) =
    rest (boot_flow e r clients) (boot_flow-Same e r clients) (λ f. bootstrap-Same f more)
  where
    rest :
        (out : Engine × BootStatus)
        → Same e out
        → ((f : Engine) → Same f (bootstrap_offset_syncs f more))
        → Same e (boot_rest (λ next. bootstrap_offset_syncs next more) out)
    rest (f, boot_goes_on) h later = later f ∙ h
    rest (f, other) h later = h

start_components-Same :
    (cs : RunClients) (e : Engine) → (start_components cs e).0.running ≡ e.running
start_components-Same cs e = ground arith

start_components-other :
    (cs : RunClients) (e : Engine) → (start_components cs e).1 ≢ engine_already_running
start_components-other cs e = ground arith

start_components-booted :
    (cs : RunClients) (e : Engine) (status : BootStatus)
    → (start_components cs e).1 ≢ boot_failed status
start_components-booted cs e status = ground arith

-- The bootstrap has returned an error.
abbrev IsBootError : BootStatus → Type 0
IsBootError status = (status ≢ boot_goes_on) × (status ≢ boot_crashed) × (status ≢ boot_reading)

-- Where a run is: after its shutdown all is stopped; an engine that runs already is left as it is; and
-- with the error of a phase, as also where it has panicked in the bootstrap or is still reading there,
-- the engine counts as running.
abbrev pub EndsSo : Engine → Engine × RunResult → Type 0
EndsSo e (out, run_done) = (e.running ≡ false) × (out.running ≡ false) × AllStopped out
EndsSo e (out, engine_already_running) = (e.running ≡ true) × (out ≡ e)
EndsSo e (out, run_crashed) = (e.running ≡ false) × (out.running ≡ true)
EndsSo e (out, run_reading) = (e.running ≡ false) × (out.running ≡ true)
EndsSo e (out, boot_failed status) = (e.running ≡ false) × (out.running ≡ true) × IsBootError status
EndsSo e (out, other) = (e.running ≡ false) × (out.running ≡ true)

after_start-EndsSo :
    (e f : Engine) (result : RunResult)
    → e.running ≡ false
    → f.running ≡ true
    → result ≢ engine_already_running
    → ((status : BootStatus) → result ≢ boot_failed status)
    → EndsSo e (after_start (f, result))
after_start-EndsSo e f run_done idle on ne nb =
    let (all, off) = shutdown-AllStopped f in (idle, off, all)
after_start-EndsSo e f engine_already_running idle on ne nb = absurd (ne refl)
after_start-EndsSo e f (boot_failed status) idle on ne nb = absurd (nb status refl)
after_start-EndsSo e f source_start_failed idle on ne nb = (idle, on)
after_start-EndsSo e f discovery_start_failed idle on ne nb = (idle, on)
after_start-EndsSo e f heartbeat_start_failed idle on ne nb = (idle, on)
after_start-EndsSo e f checkpoint_start_failed idle on ne nb = (idle, on)
after_start-EndsSo e f run_crashed idle on ne nb = (idle, on)
after_start-EndsSo e f run_reading idle on ne nb = (idle, on)

after_boot-EndsSo :
    (cs : RunClients) (e f : Engine) (status : BootStatus)
    → e.running ≡ false
    → f.running ≡ true
    → EndsSo e (after_boot cs (f, status))
after_boot-EndsSo cs e f boot_goes_on idle on =
    after_start-EndsSo e (start_components cs f).0 (start_components cs f).1 idle
      (start_components-Same cs f ∙ on) (start_components-other cs f) (start_components-booted cs f)
after_boot-EndsSo cs e f boot_crashed idle on = (idle, on)
after_boot-EndsSo cs e f boot_reading idle on = (idle, on)
after_boot-EndsSo cs e f boot_policy_failed idle on =
    (idle, on, ((λ h. cc h), (λ h. cc h), λ h. cc h))
after_boot-EndsSo cs e f boot_admin_failed idle on =
    (idle, on, ((λ h. cc h), (λ h. cc h), λ h. cc h))
after_boot-EndsSo cs e f boot_reader_failed idle on =
    (idle, on, ((λ h. cc h), (λ h. cc h), λ h. cc h))
after_boot-EndsSo cs e f boot_read_failed idle on =
    (idle, on, ((λ h. cc h), (λ h. cc h), λ h. cc h))
after_boot-EndsSo cs e f boot_writer_failed idle on =
    (idle, on, ((λ h. cc h), (λ h. cc h), λ h. cc h))

-- Run, on every engine and for whatever its clients do: an engine that runs already is left as it is; if
-- Run returns nil, every component has stopped, the sync readers and writers and the queues that the
-- engine keeps are closed, and it does not count as running. If Run returns the error of a phase, the
-- engine did not count as running before and does so afterwards; it does so too where Run has panicked
-- in the bootstrap or still reads offset syncs there, and neither is counted as an error that is returned.
pub run-EndsSo : (cs : RunClients) (e : Engine) → EndsSo e (run cs e)
unfolding run
run-EndsSo cs e = by_running e.running refl
  where
    by_running :
        (b : Bool)
        → e.running ≡ b
        → EndsSo e (
            if b
            then (e, engine_already_running)
            else after_boot cs (bootstrap_offset_syncs (record e { running = true }) cs.boots))
    by_running true on = (on, refl)
    by_running false off =
        let out = bootstrap_offset_syncs (record e { running = true }) cs.boots in
        after_boot-EndsSo cs e out.0 out.1 off
          (bootstrap-Same (record e { running = true }) cs.boots)
