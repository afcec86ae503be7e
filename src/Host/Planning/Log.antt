-- ===== src/Host/Planning/Log.antt =====
-- The log of a planning host and the panes that run (crates/nmux-core/src/host.rs).
use nmux.Base.{
  ◌≡◌, refl, ◌==◌, Bool, true, false, Text, Option-cases, inl, inr, some, is_some, List, [], ◌∷◌,
  ◌++◌, if◌then◌else◌, arith, ℕ, ℕ-DecEq, List-DecEq,
}
use nmux.Host.{HostSpec}
use nmux.Host.Planning.{
  PaneProcess, ProcessStatus, HostEvent, PlanningHost, planning_new, get_process, insert_process,
  is_running, running_process, started_process, start_pane, record_event, write_input, resize_pane,
  stop_pane,
}

-- What an operation can be asked to do.
pub data Request : Type 0 where
  start : Text → HostSpec → Request
  write : Text → List ℕ → Request
  resize : Text → ℕ → ℕ → Request
  stop : Text → Request

unfoldable pub serve : PlanningHost → Request → PlanningHost
unfolding start_pane write_input resize_pane stop_pane
serve h (Request.start pane_id spec) = (start_pane h pane_id spec).1
serve h (Request.write pane_id bytes) = (write_input h pane_id bytes).1
serve h (Request.resize pane_id cols rows) = (resize_pane h pane_id cols rows).1
serve h (Request.stop pane_id) = (stop_pane h pane_id).1

unfoldable pub serve_all : PlanningHost → List Request → PlanningHost
unfolding serve
serve_all h [] = h
serve_all h (r ∷ rs) = serve_all (serve h r) rs

-- Whether a pane runs after an event, if it ran before or not.
unfoldable pub after_event : Text → Bool → HostEvent → Bool
after_event k b (HostEvent.started pane_id host_id kind) = if pane_id == k then true else b
after_event k b (HostEvent.stopped pane_id) = if pane_id == k then false else b
after_event k b (HostEvent.input pane_id bytes) = b
after_event k b (HostEvent.resized pane_id cols rows) = b

-- Whether a pane runs by the log: its last start or stop is a start.
unfoldable pub runs_by : Text → Bool → List HostEvent → Bool
unfolding after_event
runs_by k b [] = b
runs_by k b (e ∷ es) = runs_by k (after_event k b e) es

runs_by-snoc :
    (k : Text) (b : Bool) (es : List HostEvent) (e : HostEvent)
    → runs_by k b (es ++ e ∷ []) ≡ after_event k (runs_by k b es) e
unfolding runs_by
runs_by-snoc k b [] e = refl
runs_by-snoc k b (d ∷ es) e = runs_by-snoc k (after_event k b d) es e

get_process-insert_process :
    (k j : Text) (p : PaneProcess) (ps : List (Text × PaneProcess))
    → get_process j (insert_process k p ps) ≡ (if k == j then some p else get_process j ps)
unfolding get_process insert_process
get_process-insert_process k j p [] = refl
get_process-insert_process k j p ((i, q) ∷ ps) = ground (arith, get_process-insert_process k j p ps)

-- The log and the processes agree on every pane.
abbrev Agrees : PlanningHost → Text → Type 0
Agrees h k = is_some (running_process h k) ≡ runs_by k false h.events

serve-Agrees : (h : PlanningHost) (r : Request) (k : Text) → Agrees h k → Agrees (serve h r) k
unfolding serve start_pane write_input resize_pane stop_pane record_event running_process
    after_event started_process is_running
serve-Agrees h (Request.start pane_id spec) k a = elim (Option-cases (running_process h pane_id)) [
  | inr (p, e) ↦ ground (arith, a, e)
  | inl e ↦ ground (
    arith,
    a,
    e,
    get_process-insert_process pane_id k (started_process pane_id spec) h.processes,
    runs_by-snoc k false h.events (HostEvent.started pane_id spec.id spec.kind),
  )
]
serve-Agrees h (Request.write pane_id bytes) k a = elim (Option-cases (running_process h pane_id)) [
  | inr (p, e) ↦ ground (arith, a, e, runs_by-snoc k false h.events (HostEvent.input pane_id bytes))
  | inl e ↦ ground (arith, a, e)
]
serve-Agrees h (Request.resize pane_id cols rows) k a =
    elim (Option-cases (running_process h pane_id)) [
      | inr (p, e) ↦
          ground (arith, a, e, runs_by-snoc k false h.events (HostEvent.resized pane_id cols rows))
      | inl e ↦ ground (arith, a, e)
    ]
serve-Agrees h (Request.stop pane_id) k a = elim (Option-cases (running_process h pane_id)) [
  | inr (p, e) ↦ ground (
    arith,
    a,
    e,
    get_process-insert_process pane_id k (record p { status = ProcessStatus.exited }) h.processes,
    runs_by-snoc k false h.events (HostEvent.stopped pane_id),
  )
  | inl e ↦ ground (arith, a, e)
]

new-Agrees : (k : Text) → Agrees planning_new k
unfolding running_process get_process runs_by
new-Agrees k = refl

serve_all-Agrees :
    (h : PlanningHost) (rs : List Request) (k : Text) → Agrees h k → Agrees (serve_all h rs) k
unfolding serve_all
serve_all-Agrees h [] k a = a
serve_all-Agrees h (r ∷ rs) k a = serve_all-Agrees (serve h r) rs k (serve-Agrees h r k a)

-- After any requests to a new host, refused ones included, a pane runs exactly if the last start or
-- stop of it in the log is a start.
pub running_process-serve_all :
    (rs : List Request) (k : Text)
    → is_some (running_process (serve_all planning_new rs) k)
      ≡ runs_by k false (serve_all planning_new rs).events
running_process-serve_all rs k = serve_all-Agrees planning_new rs k (new-Agrees k)
