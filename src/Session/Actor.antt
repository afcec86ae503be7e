-- ===== src/Session/Actor.antt =====
-- The session actor, which drains its scheduler into its core and keeps the trace, and the registry
-- of actors (crates/nmux-core/src/session.rs, `SessionActor` and `SessionRegistry`).
pub mod Laws
pub mod Registry
use nmux.Base.{
  ℕ, zero, suc, ◌==◌, Bool, true, false, Text, Option, none, some, List, [], ◌∷◌, if◌then◌else◌,
  is_some, map_option, ℕ-DecEq, List-DecEq,
}
use nmux.Base.Order.{text_lt}
use nmux.Terminal.{TerminalEngine}
use nmux.Session.{Session}
use nmux.Session.Event.{PendingSessionEvent, SessionTraceRecord, from_transition}
use nmux.Session.Core.{SessionCore, core_new, accept_pending}
use nmux.Session.Scheduler.{Scheduler, empty, push, pop_next, is_idle}
use nmux.Session.Trace.{SessionTraceRing, ring_new, ring_push}

module _ (E : TerminalEngine) where
  pub record SessionActor : Type 0 where
    pub core : SessionCore E
    pub scheduler : Scheduler
    pub trace : SessionTraceRing

  unfoldable pub actor_new : SessionCore E → ℕ → SessionActor
  unfolding empty ring_new
  actor_new core trace_cap = record { core = core; scheduler = empty; trace = ring_new trace_cap }

  unfoldable pub enqueue : SessionActor → PendingSessionEvent → SessionActor
  enqueue a p = record a { scheduler = push a.scheduler p }

  -- What `drain_next` does with what the scheduler popped.
  unfoldable pub drain_popped :
      SessionActor
      → Option PendingSessionEvent × Scheduler
      → Option SessionTraceRecord × SessionActor
  unfolding from_transition
  drain_popped a (none, left) = (none, record a { scheduler = left })
  drain_popped a (some pending, left) =
      let (core, transition) = accept_pending E a.core pending in
      (
        some (from_transition transition),
        record a {
          core = core;
          scheduler = left;
          trace = ring_push a.trace (from_transition transition);
        },
      )

  unfoldable pub drain_next : SessionActor → Option SessionTraceRecord × SessionActor
  unfolding drain_popped
  drain_next a = drain_popped a (pop_next a.scheduler)

  -- `while let Some(record) = self.drain_next()`, on fuel; `none` means that the fuel ran out.
  unfoldable pub drain_ready : ℕ → SessionActor → Option (List SessionTraceRecord × SessionActor)
  unfolding drain_next
  drain_ready zero a = none
  drain_ready (suc fuel) a =
      let (drained, a') = drain_next a in
      elim drained [
        | none ↦ some ([], a')
        | some r ↦ map_option (λ x. (r ∷ x.0, x.1)) (drain_ready fuel a')
      ]

  unfoldable pub actor_is_idle : SessionActor → Bool
  actor_is_idle a = is_idle a.scheduler

  -- The `BTreeMap` of actors by session id, in the order of the ids.
  abbrev pub SessionRegistry : Type 0
  SessionRegistry = List (Text × SessionActor)

  unfoldable pub get : Text → SessionRegistry → Option SessionActor
  get k [] = none
  get k ((j, a) ∷ rest) = if j == k then some a else get k rest

  unfoldable pub insert_actor : Text → SessionActor → SessionRegistry → SessionRegistry
  insert_actor k a [] = (k, a) ∷ []
  insert_actor k a ((j, b) ∷ rest) =
      if k == j
      then (k, a) ∷ rest
      else if text_lt k j
      then (k, a) ∷ (j, b) ∷ rest
      else (j, b) ∷ insert_actor k a rest

  unfoldable pub insert : SessionRegistry → SessionActor → SessionRegistry × Bool
  unfolding get insert_actor
  insert actors a =
      let session_id = a.core.session.id in
      if is_some (get session_id actors)
      then (actors, false)
      else (insert_actor session_id a actors, true)

  unfoldable pub remove_actor : Text → SessionRegistry → SessionRegistry
  remove_actor k [] = []
  remove_actor k ((j, a) ∷ rest) = if j == k then rest else (j, a) ∷ remove_actor k rest

  unfoldable pub remove : SessionRegistry → Text → Option SessionActor × SessionRegistry
  unfolding get remove_actor
  remove actors k = (get k actors, remove_actor k actors)
