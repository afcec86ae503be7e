-- ===== src/Host/Planning.antt =====
-- The host that records what it is told (crates/nmux-core/src/host.rs, `PlanningHost`). Its
-- `HashMap` is an association list in which insertion replaces an entry.
pub mod Log
use nmux.Base.{
  ℕ, ◌==◌, Bool, true, false, Text, Option, none, some, List, [], ◌∷◌, ◌++◌, if◌then◌else◌, ℕ-DecEq,
  List-DecEq,
}
use nmux.Host.{HostKind, HostSpec}

pub data ProcessStatus : Type 0 where
  running exited : ProcessStatus

pub record PaneProcess : Type 0 where
  pub pane_id : Text
  pub host_id : Text
  pub status : ProcessStatus

pub data HostEvent : Type 0 where
  started : Text → Text → HostKind → HostEvent
  input : Text → List ℕ → HostEvent
  resized : Text → ℕ → ℕ → HostEvent
  stopped : Text → HostEvent

pub data HostError : Type 0 where
  unsupported_host_kind : Text → HostKind → HostError
  unsupported_operation : Text → Text → HostError
  already_running : Text → HostError
  not_running : Text → HostError
  io : Text → Text → Text → HostError

pub data HostResult (A : Type 0) : Type 0 where
  ok : A → HostResult A
  err : HostError → HostResult A

pub record PlanningHost : Type 0 where
  pub processes : List (Text × PaneProcess)
  pub events : List HostEvent

unfoldable pub get_process : Text → List (Text × PaneProcess) → Option PaneProcess
get_process k [] = none
get_process k ((j, p) ∷ rest) = if j == k then some p else get_process k rest

unfoldable pub insert_process :
    Text → PaneProcess → List (Text × PaneProcess) → List (Text × PaneProcess)
insert_process k p [] = (k, p) ∷ []
insert_process k p ((j, q) ∷ rest) =
    if j == k then (k, p) ∷ rest else (j, q) ∷ insert_process k p rest

unfoldable pub is_running : ProcessStatus → Bool
is_running ProcessStatus.running = true
is_running ProcessStatus.exited = false

unfoldable pub running_process : PlanningHost → Text → Option PaneProcess
unfolding get_process is_running
running_process h pane_id = elim (get_process pane_id h.processes) [
  | none ↦ none
  | some p ↦ if is_running p.status then some p else none
]

unfoldable pub started_process : Text → HostSpec → PaneProcess
started_process pane_id spec = record {
  pane_id = pane_id;
  host_id = spec.id;
  status = ProcessStatus.running;
}

unfoldable pub start_pane : PlanningHost → Text → HostSpec → HostResult PaneProcess × PlanningHost
unfolding running_process insert_process started_process
start_pane h pane_id spec = elim (running_process h pane_id) [
  | some _ ↦ (err (HostError.already_running pane_id), h)
  | none ↦
      let process = started_process pane_id spec in
      (
        ok process,
        record {
          processes = insert_process pane_id process h.processes;
          events = h.events ++ HostEvent.started pane_id spec.id spec.kind ∷ [];
        },
      )
]

unfoldable pub check_pane : PlanningHost → Text → HostResult Unit
unfolding running_process
check_pane h pane_id = elim (running_process h pane_id) [
  | none ↦ err (HostError.not_running pane_id)
  | some _ ↦ ok tt
]

-- An operation that is only recorded, and refused for a pane that does not run.
unfoldable pub record_event : PlanningHost → Text → HostEvent → HostResult Unit × PlanningHost
unfolding running_process
record_event h pane_id event = elim (running_process h pane_id) [
  | none ↦ (err (HostError.not_running pane_id), h)
  | some _ ↦ (ok tt, record h { events = h.events ++ event ∷ [] })
]

unfoldable pub write_input : PlanningHost → Text → List ℕ → HostResult Unit × PlanningHost
unfolding record_event
write_input h pane_id bytes = record_event h pane_id (HostEvent.input pane_id bytes)

unfoldable pub resize_pane : PlanningHost → Text → ℕ → ℕ → HostResult Unit × PlanningHost
unfolding record_event
resize_pane h pane_id cols rows = record_event h pane_id (HostEvent.resized pane_id cols rows)

unfoldable pub stop_pane : PlanningHost → Text → HostResult PaneProcess × PlanningHost
unfolding running_process insert_process
stop_pane h pane_id = elim (running_process h pane_id) [
  | none ↦ (err (HostError.not_running pane_id), h)
  | some p ↦
      let process = record p { status = ProcessStatus.exited } in
      (
        ok process,
        record {
          processes = insert_process pane_id process h.processes;
          events = h.events ++ HostEvent.stopped pane_id ∷ [];
        },
      )
]

abbrev pub planning_new : PlanningHost
planning_new = record { processes = []; events = [] }
