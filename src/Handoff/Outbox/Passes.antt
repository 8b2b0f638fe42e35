-- ===== src/Handoff/Outbox/Passes.antt =====
-- The operator's calls and the recovery pass of the outbox: get, list, retry, launch and reconcile
-- (internal/daemon/handoff_outbox.go).
use arcmux.Prelude.{Time, Bool, true, false, Option, none, some, List, [], ◌∷◌, map}
use arcmux.Prelude.Text.{Text}
use arcmux.Prelude.Results.{Result, ok, err}
use arcmux.Handoff.Manifest.{Env}
use arcmux.Handoff.Record.{
  SourceState, SourceRecord, remote_prepared, launching_remote, source_accepted, source_retry_wait,
  launch_retry_wait,
}
use arcmux.Handoff.Store.{Error}
use arcmux.Handoff.Source.Lists.{list_source, runnable_source, is_runnable}
use arcmux.Handoff.Action as Act
use arcmux.Handoff.Action.{Action, State, Kind, pure, raise, ask, ◌>>=◌}
use arcmux.Handoff.Outbox.{Peer, Dto, record_dto}
use arcmux.Handoff.Outbox.Steps.{read_record}
use arcmux.Handoff.Outbox.Prepare.{attempt}
use arcmux.Handoff.Outbox.Launch.{attempt_launch}
use arcmux.Handoff.Outbox.Retire.{retire_pending, get_error}

-- What a pass has met: the first error of an attempt
abbrev pub first_error : Option Kind → Option Kind → Option Kind
first_error (some k) later = some k
first_error none later = later

abbrev pub pass_error : Bool → Option Kind → Option Kind
pass_error true first = some Act.unavailable
pass_error false first = first

module _ {W : Type 0} (env : Env) (peer : Peer W) where
  unfoldable pub get : Text → Action W Dto
  unfolding read_record get_error
  get id = do r ← read_record env peer get_error id; pure (record_dto r)

  unfoldable pub list : Action W (List Dto)
  list s = elim (list_source env s.files) [
    | ok rs ↦ (ok (map record_dto rs), s)
    | err e ↦ (err Act.unavailable, s)
  ]

  unfoldable pub retry_at : Text → SourceState → Action W Dto
  unfolding attempt attempt_launch
  retry_at id source_retry_wait = attempt env peer id true
  retry_at id launch_retry_wait = attempt_launch env peer id true
  retry_at id _ = raise Act.conflict

  unfoldable pub retry : Text → Action W Dto
  unfolding read_record get_error retry_at
  retry id = do r ← read_record env peer get_error id; retry_at id r.state

  unfoldable pub launch_from : Text → SourceState → Action W Dto
  unfolding attempt_launch
  launch_from id remote_prepared = attempt_launch env peer id true
  launch_from id launching_remote = attempt_launch env peer id true
  launch_from id launch_retry_wait = attempt_launch env peer id true
  launch_from id source_accepted = attempt_launch env peer id true
  launch_from id _ = raise Act.conflict

  unfoldable pub launch : Text → Action W Dto
  unfolding read_record get_error launch_from
  launch id = do r ← read_record env peer get_error id; launch_from id r.state

  -- The attempt that the state of a candidate calls for, in a pass
  unfoldable pub resume : Text → SourceState → Action W Dto
  unfolding read_record attempt attempt_launch retire_pending
  resume id source_accepted = do
    r ← read_record env peer (λ e. Act.unavailable) id
    retire_pending env peer r
  resume id launching_remote = attempt_launch env peer id false
  resume id launch_retry_wait = attempt_launch env peer id false
  resume id _ = attempt env peer id false

  -- An attempt whose error does not end the pass: what it answers is the error, if any.
  abbrev pub kept_error : Result Kind Dto × State W → Result Kind (Option Kind) × State W
  kept_error (ok d, s) = (ok none, s)
  kept_error (err k, s) = (ok (some k), s)

  unfoldable pub attempted : Action W Dto → Action W (Option Kind)
  attempted m s = kept_error (m s)

  -- The loop over the candidates; the answer is the first error, or that of a context that is done,
  -- whose kind is the one of an error that is not the outbox's own.
  unfoldable pub reconcile_from : Time → Option Kind → List SourceRecord → Action W (Option Kind)
  unfolding attempted resume is_runnable
  reconcile_from at first [] = do done ← ask peer.is_done; pure (pass_error done first)
  reconcile_from at first (c ∷ rest) = do
    done ← ask peer.is_done
    elim done [
      | true ↦ pure (some Act.unavailable)
      | false ↦ elim (is_runnable at c c.state) [
        | false ↦ reconcile_from at first rest
        | true ↦ do
          failed ← attempted (resume c.manifest.handoff_id c.state)
          reconcile_from at (first_error first failed) rest
      ]
    ]

  -- The pass over what RunnableSource finds
  unfoldable pub pass : Time → Result Error (List SourceRecord) → Action W (Option Kind)
  unfolding reconcile_from
  pass at (ok rs) s = reconcile_from at none rs s
  pass at (err e) s = (ok (some Act.unavailable), s)

  unfoldable pub reconcile : Time → Action W (Option Kind)
  unfolding pass
  reconcile at s = pass at (runnable_source env at s.files) s
