-- ===== src/EventStore/Held.antt =====
-- crates/event-store/src/write_scopes.rs: who holds which paths over any acquisitions, releases and task states.
use zmodbit.Prelude.{◌≡◌, true, List, [], ◌∷◌, Text, arith}
use zmodbit.EventStore.Tables.{TaskRow}
use zmodbit.EventStore.WriteScopes.{
  ScopeRow, is_active_state, task_in, release_scopes, acquire_scopes,
}
use zmodbit.EventStore.Scopes.{In, In-retain, IsDisjoint, acquire_scopes-IsDisjoint}

-- What changes who holds what: an acquisition, a release, and other states of the tasks.
pub data ScopeStep : Type 0 where
  acquires : (task_id repo_key spec : Text) → ScopeStep
  releases : (task_id : Text) → ScopeStep
  tasks_become : (tasks : List TaskRow) → ScopeStep

abbrev pub run_scopes : List ScopeStep → List TaskRow → List ScopeRow → List TaskRow × List ScopeRow
run_scopes [] tasks rows = (tasks, rows)
run_scopes (acquires id repo spec ∷ steps) tasks rows =
    run_scopes steps tasks (acquire_scopes tasks id repo spec rows).1
run_scopes (releases id ∷ steps) tasks rows = run_scopes steps tasks (release_scopes id rows)
run_scopes (tasks_become later ∷ steps) tasks rows = run_scopes steps later rows

-- No task that holds a row becomes active when it was not.
abbrev pub NoneResumes : List ScopeStep → List TaskRow → List ScopeRow → Type 0
NoneResumes [] tasks rows = Unit
NoneResumes (acquires id repo spec ∷ steps) tasks rows =
    NoneResumes steps tasks (acquire_scopes tasks id repo spec rows).1
NoneResumes (releases id ∷ steps) tasks rows = NoneResumes steps tasks (release_scopes id rows)
NoneResumes (tasks_become later ∷ steps) tasks rows =
    ((h : ScopeRow)
      → In h rows
      → task_in is_active_state later h ≡ true
      → task_in is_active_state tasks h ≡ true)
    × NoneResumes steps later rows

later-IsDisjoint :
    (tasks later : List TaskRow) (rows : List ScopeRow)
    → ((h : ScopeRow)
        → In h rows
        → task_in is_active_state later h ≡ true
        → task_in is_active_state tasks h ≡ true)
    → IsDisjoint tasks rows
    → IsDisjoint later rows
later-IsDisjoint tasks later rows calm d h g i j = ground (arith, d h g i j, calm h i, calm g j)

-- Over any acquisitions, releases and changes of task states in which no task that holds paths becomes active again,
-- the paths of different active tasks of one repository stay apart.
pub run_scopes-IsDisjoint :
    (steps : List ScopeStep) (tasks : List TaskRow) (rows : List ScopeRow)
    → NoneResumes steps tasks rows
    → IsDisjoint tasks rows
    → let (tasks', rows') = run_scopes steps tasks rows in IsDisjoint tasks' rows'
unfolding release_scopes
run_scopes-IsDisjoint [] tasks rows h d = d
run_scopes-IsDisjoint (acquires id repo spec ∷ steps) tasks rows h d =
    run_scopes-IsDisjoint steps tasks (acquire_scopes tasks id repo spec rows).1 h
      (acquire_scopes-IsDisjoint tasks id repo spec rows d)
run_scopes-IsDisjoint (releases id ∷ steps) tasks rows h d =
    run_scopes-IsDisjoint steps tasks (release_scopes id rows) h
      (λ k g i j. d k g (In-retain _ rows k i) (In-retain _ rows g j))
run_scopes-IsDisjoint (tasks_become later ∷ steps) tasks rows (calm, h) d =
    run_scopes-IsDisjoint steps later rows h (later-IsDisjoint tasks later rows calm d)
