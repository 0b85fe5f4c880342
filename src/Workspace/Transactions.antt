-- ===== src/Workspace/Transactions.antt =====
-- crates/workspace/src/merge_transaction.rs: runs of the operations on one repository.
use zmodbit.Prelude.{
  ◌≡◌, refl, ap, subst, ◌∙◌, none, some, List, [], ◌∷◌, Bool, false, Text, Result, ok, err,
}
use zmodbit.Workspace.Merge.{
  opened, committed, MergeTransaction, new, recorded, merged, MergeTransactionError, Git, Workspace,
  Merging, ◌>>=◌, pure, throw, on_repo, load, save, message, open_and_merge, record_resolution,
  record_validation, has_failed, commit, rollback,
}
use zmodbit.Workspace.Merges.{
  IsMade, SoundIn, Sound, IsSound, Post, Holds, bind-Holds, pure-Holds, on_repo-Holds, save-Holds,
  load-Holds, open_transaction-Holds, archive-Holds, resolve_in-Holds, validate_in-Holds,
  commit_in-Holds, roll_out-Holds, unwind-Holds, merge_outcome-Holds,
}

-- The operations that a process calls on the workspace.
pub data Call : Type 0 where
  opening : (transaction_id source_branch target_branch : Text) → Call
  resolving : (path strategy : Text) → Call
  checking : (gate : Text) (passed : Bool) → Call
  committing rolling_back : Call

module _ {R E : Type 0} (repo : Git R E) where
  open_and_merge-Holds : (id s t : Text) → Holds (open_and_merge repo id s t) (λ r. Unit {0})
  unfolding open_and_merge new
  open_and_merge-Holds id s t = bind-Holds load-Holds λ existing _.
      bind-Holds (archive-Holds existing) λ _ _. bind-Holds (on_repo-Holds _) λ base _.
        bind-Holds (on_repo-Holds _) λ _ _. bind-Holds (on_repo-Holds _) λ tip _.
          bind-Holds (save-Holds (recorded id s t base tip) tt) λ _ _.
            bind-Holds (on_repo-Holds _) λ outcome _.
              bind-Holds (merge_outcome-Holds repo (recorded id s t base tip) outcome refl)
                λ tx sound. bind-Holds (save-Holds tx sound) λ _ _. pure-Holds _ tt

  record_resolution-Holds :
      (path strategy : Text) → Holds (record_resolution repo path strategy) Sound
  unfolding record_resolution
  record_resolution-Holds path strategy = bind-Holds load-Holds λ o s.
      bind-Holds (open_transaction-Holds o s)
        λ tx _. resolve_in-Holds repo path strategy tx tx.phase refl

  record_validation-Holds :
      (gate : Text) (passed : Bool) → Holds (record_validation repo gate passed) Sound
  unfolding record_validation
  record_validation-Holds gate passed = bind-Holds load-Holds λ o s.
      bind-Holds (open_transaction-Holds o s)
        λ tx sound. validate_in-Holds repo gate passed tx tx.phase refl sound

  commit-Holds : Holds (commit repo) Sound
  unfolding commit
  commit-Holds = bind-Holds load-Holds λ o s.
      bind-Holds (open_transaction-Holds o s) λ tx sound. commit_in-Holds repo tx tx.phase sound

  rollback-Holds : Holds (rollback repo) Sound
  unfolding rollback
  rollback-Holds = bind-Holds load-Holds λ o s. bind-Holds (open_transaction-Holds o s) λ tx _.
      bind-Holds (unwind-Holds repo tx tx.phase)
        λ _ _. bind-Holds (on_repo-Holds _) λ head _. roll_out-Holds repo tx _

  abbrev pub run_call : Call → Workspace R → Workspace R
  run_call (opening id s t) w = (open_and_merge repo id s t w).1
  run_call (resolving path strategy) w = (record_resolution repo path strategy w).1
  run_call (checking gate passed) w = (record_validation repo gate passed w).1
  run_call committing w = (commit repo w).1
  run_call rolling_back w = (rollback repo w).1

  abbrev pub run_calls : List Call → Workspace R → Workspace R
  run_calls [] w = w
  run_calls (c ∷ cs) w = run_calls cs (run_call c w)

  Post-IsSound :
      {A : Type 0} (P : A → Type 0) (r : Result (MergeTransactionError E) A × Workspace R)
      → Post P r
      → IsSound (r.1).stored
  Post-IsSound P (ok a, w) h = h.0
  Post-IsSound P (err e, w) h = h

  Holds-IsSound :
      {A : Type 0} {P : A → Type 0} {m : Merging R E A} (w : Workspace R)
      → Holds m P
      → IsSound w.stored
      → IsSound ((m w).1).stored
  Holds-IsSound {P = P} {m = m} w h s = Post-IsSound P (m w) (h.run w s)

  run_calls-IsSound :
      (cs : List Call) (w : Workspace R) → IsSound w.stored → IsSound (run_calls cs w).stored
  run_calls-IsSound [] w s = s
  run_calls-IsSound (opening id b t ∷ cs) w s =
      run_calls-IsSound cs _ (Holds-IsSound w (open_and_merge-Holds id b t) s)
  run_calls-IsSound (resolving path strategy ∷ cs) w s =
      run_calls-IsSound cs _ (Holds-IsSound w (record_resolution-Holds path strategy) s)
  run_calls-IsSound (checking gate passed ∷ cs) w s =
      run_calls-IsSound cs _ (Holds-IsSound w (record_validation-Holds gate passed) s)
  run_calls-IsSound (committing ∷ cs) w s = run_calls-IsSound cs _ (Holds-IsSound w commit-Holds s)
  run_calls-IsSound (rolling_back ∷ cs) w s =
      run_calls-IsSound cs _ (Holds-IsSound w rollback-Holds s)

  -- Whatever a repository is asked for, a transaction that it stores as committed has a merge commit, no conflict
  -- left and no failed validation.
  pub committed_validated :
      (cs : List Call) (r : R) (tx : MergeTransaction)
      → (run_calls cs (record { repo = r; stored = none })).stored ≡ some tx
      → tx.phase ≡ committed
      → IsMade tx.commit_sha × (tx.conflicts ≡ []) × (has_failed tx ≡ false)
  committed_validated cs r tx q p =
      subst (λ ph. SoundIn ph tx) p (subst IsSound q (run_calls-IsSound cs _ tt))

  run_call-opened :
      (c : Call) (w : Workspace R) (tx : MergeTransaction)
      → w.stored ≡ some tx
      → tx.phase ≡ opened
      → run_call c w ≡ w
  unfolding open_and_merge record_resolution record_validation commit rollback load throw pure ◌>>=◌
  run_call-opened (opening id s t) w tx q p = rw (q, p) refl
  run_call-opened (resolving path strategy) w tx q p = rw (q, p) refl
  run_call-opened (checking gate passed) w tx q p = rw (q, p) refl
  run_call-opened committing w tx q p = rw (q, p) refl
  run_call-opened rolling_back w tx q p = rw (q, p) refl

  run_calls-opened :
      (cs : List Call) (w : Workspace R) (tx : MergeTransaction)
      → w.stored ≡ some tx
      → tx.phase ≡ opened
      → run_calls cs w ≡ w
  run_calls-opened [] w tx q p = refl
  run_calls-opened (c ∷ cs) w tx q p =
      let same = run_call-opened c w tx q p in ap (run_calls cs) same ∙ run_calls-opened cs w tx q p

  -- A merge that git makes but cannot commit leaves its transaction open, and no call ever changes it again.
  pub unconcluded-opened :
      (id s t base tip : Text) (w : Workspace R) (r1 r2 r3 r4 r5 : R) (e : E) (cs : List Call)
      → w.stored ≡ none
      → repo.merge_base s t w.repo ≡ (ok base, r1)
      → repo.checkout t r1 ≡ (ok tt, r2)
      → repo.head r2 ≡ (ok tip, r3)
      → repo.start_merge s r3 ≡ (ok merged, r4)
      → repo.conclude_merge (message (recorded id s t base tip)) r4 ≡ (err e, r5)
      → (run_calls cs (open_and_merge repo id s t w).1).stored ≡ some (recorded id s t base tip)
  unfolding open_and_merge new load throw pure ◌>>=◌ on_repo save
  unconcluded-opened id s t base tip w r1 r2 r3 r4 r5 e cs q h1 h2 h3 h4 h5 =
      let left : (open_and_merge repo id s t w).1
          ≡ (record { repo = r5; stored = some (recorded id s t base tip) }) =
        rw (q, h1, h2, h3, h4, h5) refl in
      ap (λ v. (run_calls cs v).stored) left
      ∙ ap (λ (v : Workspace R). v.stored)
          (run_calls-opened cs (record { repo = r5; stored = some (recorded id s t base tip) })
            (recorded id s t base tip) refl refl)
