-- ===== src/Tests/ScopeTests.antt =====
-- Runs of the write-scope registry.
use Prim.Native.String.{String}
use zmodbit.Prelude.{◌≡◌, refl, none, List, [], ◌∷◌, Text, bytes, text_eq, starts_with}
use zmodbit.EventStore.Tables.{TaskRow}
use zmodbit.EventStore.WriteScopes.{
  ScopeRow, task_in, denied, is_active_state, is_terminal_state, covers, release_terminal,
  first_overlap, acquire_paths,
}
use zmodbit.Prelude.{true, arith}
use zmodbit.EventStore.Scopes.{IsDisjoint}
use zmodbit.EventStore.Held.{ScopeStep, acquires, tasks_become, run_scopes, run_scopes-IsDisjoint}

abbrev task_row : Text → String → TaskRow
task_row id state = record {
  task_id = id;
  session_id = bytes "s";
  goal_text = [];
  state = state;
  generation = 1;
  created_at = [];
  started_at = none;
  completed_at = none;
  failure_code = none;
  parent_task_id = none;
}

abbrev before_resume : List TaskRow
before_resume = task_row (bytes "a") "waiting_approval" ∷ task_row (bytes "b") "running" ∷ []

abbrev after_resume : List TaskRow
after_resume = task_row (bytes "a") "running" ∷ task_row (bytes "b") "running" ∷ []

abbrev row_of : Text → ScopeRow
row_of id = record { task_id = id; repo_key = bytes "r"; path = bytes "src" }

abbrev all_done : List TaskRow
all_done = task_row (bytes "a") "completed" ∷ task_row (bytes "b") "running" ∷ []

still_active :
    (h : ScopeRow)
    → task_in is_active_state all_done h ≡ true
    → task_in is_active_state after_resume h ≡ true
unfolding is_active_state text_eq
still_active h active = ground arith

nothing_held : IsDisjoint after_resume []
nothing_held h g i j = absurd i

abbrev scope_steps : List ScopeStep
scope_steps = acquires (bytes "a") (bytes "r") (bytes "src, doc/") ∷ tasks_become all_done ∷ []

run_scopes-IsDisjoint_example :
    let (tasks', rows') = run_scopes scope_steps after_resume [] in IsDisjoint tasks' rows'
run_scopes-IsDisjoint_example =
    run_scopes-IsDisjoint scope_steps after_resume [] ((λ h i active. still_active h active), tt)
      nothing_held

-- A file under an active task's directory is denied to another task.
overlap_denied :
    acquire_paths after_resume
      (bytes "b")
      (bytes "r")
      (bytes "src/api.rs" ∷ [])
      (row_of (bytes "a") ∷ [])
    ≡ (denied (bytes "a") (bytes "src/api.rs"), row_of (bytes "a") ∷ [])
unfolding text_eq starts_with is_active_state is_terminal_state covers release_terminal
    first_overlap acquire_paths
overlap_denied = refl
