-- ===== src/Workspace/Merges.antt =====
-- crates/workspace/src/merge_transaction.rs: what a stored transaction has gone through.
use zmodbit.Prelude.{
  ◌≡◌, refl, sym, subst, Option, none, some, List, [], ◌∷◌, Bool, true, false, Text, push, Result,
  ok, err, Bool-cases, inl, inr,
}
use zmodbit.Workspace.Merge.{
  MergePhase, opened, conflicted, validating, committed, rolled_back, MergeTransaction,
  MergeOutcome, merged, conflict, MergeTransactionError, already_open, Git, Workspace, Merging,
  ◌>>=◌, ◌>>◌, next, pure, throw, ran, on_repo, load, save, remove_file, open_transaction, archive,
  merge_outcome, conclude, with_resolution, resolve_in, validate_in, has_failed, commit_in, unwind,
  roll_out,
}

abbrev pub IsMade : Option Text → Type 0
IsMade none = ⊥
IsMade (some sha) = Unit

-- A transaction under validation has its merge commit and no conflict left; a committed one, moreover, no failed
-- validation.
abbrev pub SoundIn : MergePhase → MergeTransaction → Type 0
SoundIn validating tx = IsMade tx.commit_sha × (tx.conflicts ≡ [])
SoundIn committed tx = IsMade tx.commit_sha × (tx.conflicts ≡ []) × (has_failed tx ≡ false)
SoundIn phase tx = Unit

abbrev pub Sound : MergeTransaction → Type 0
Sound tx = SoundIn tx.phase tx

abbrev pub IsSound : Option MergeTransaction → Type 0
IsSound none = Unit
IsSound (some tx) = Sound tx

module _ {R E : Type 0} where
  abbrev pub Post :
      {A : Type 0} → (A → Type 0) → Result (MergeTransactionError E) A × Workspace R → Type 0
  Post P (ok a, w) = IsSound w.stored × P a
  Post P (err e, w) = IsSound w.stored

  -- Run on a sound workspace, the code leaves a sound one, and a result with the property.
  pub record Holds {A : Type 0} (m : Merging R E A) (P : A → Type 0) : Type 0 where
    pub run : (w : Workspace R) → IsSound w.stored → Post P (m w)

  next-Post :
      {A B : Type 0} (P : A → Type 0) (Q : B → Type 0) (f : A → Merging R E B)
      (r : Result (MergeTransactionError E) A × Workspace R)
      → Post P r
      → ((a : A) → P a → Holds (f a) Q)
      → Post Q (next f r)
  next-Post P Q f (ok a, w) h k = (k a (h.1)).run w (h.0)
  next-Post P Q f (err e, w) h k = h

  pub bind-Holds :
      {A B : Type 0} {P : A → Type 0} {Q : B → Type 0} {m : Merging R E A} {f : A → Merging R E B}
      → Holds m P
      → ((a : A) → P a → Holds (f a) Q)
      → Holds (m >>= f) Q
  unfolding ◌>>=◌
  bind-Holds {P = P} {Q = Q} {m = m} {f = f} h k = record {
    run = λ w s. next-Post P Q f (m w) (h.run w s) k;
  }

  pub pure-Holds : {A : Type 0} {P : A → Type 0} (a : A) → P a → Holds (pure a) P
  unfolding pure
  pure-Holds a p = record { run = λ w s. (s, p) }

  pub throw-Holds :
      {A : Type 0} {P : A → Type 0} (e : MergeTransactionError E) → Holds (throw {A = A} e) P
  unfolding throw
  throw-Holds e = record { run = λ w s. s }

  ran-Post :
      {A : Type 0} (w : Workspace R) (r : Result E A × R)
      → IsSound w.stored
      → Post (λ a. Unit {0}) (ran w r)
  ran-Post w (ok a, r) h = (h, tt)
  ran-Post w (err e, r) h = h

  pub on_repo-Holds : {A : Type 0} (g : R → Result E A × R) → Holds (on_repo g) (λ a. Unit {0})
  unfolding on_repo
  on_repo-Holds g = record { run = λ w s. ran-Post w (g w.repo) s }

  pub save-Holds : (tx : MergeTransaction) → Sound tx → Holds (save tx) (λ u. Unit {0})
  unfolding save
  save-Holds tx h = record { run = λ w s. (h, tt) }

  pub load-Holds : Holds load IsSound
  unfolding load
  load-Holds = record { run = λ w s. (s, s) }

  pub remove_file-Holds : Holds remove_file (λ u. Unit {0})
  unfolding remove_file
  remove_file-Holds = record { run = λ w s. (tt, tt) }

  pub open_transaction-Holds :
      (o : Option MergeTransaction) → IsSound o → Holds (open_transaction o) Sound
  open_transaction-Holds none s = throw-Holds _
  open_transaction-Holds (some tx) s = pure-Holds tx s

  pub archive-Holds : (o : Option MergeTransaction) → Holds (archive o) (λ u. Unit {0})
  archive-Holds none = pure-Holds tt tt
  archive-Holds (some tx) =
      elim tx.phase
        as (λ ph.
          Holds
            (elim ph as (λ _. Merging R E (Unit {0})) [
              | committed ↦ remove_file
              | rolled_back ↦ remove_file
              | opened ↦ throw (already_open tx.transaction_id)
              | conflicted ↦ throw (already_open tx.transaction_id)
              | validating ↦ throw (already_open tx.transaction_id)
            ])
            (λ u. Unit {0})) [
              | committed ↦ remove_file-Holds
              | rolled_back ↦ remove_file-Holds
              | opened ↦ throw-Holds _
              | conflicted ↦ throw-Holds _
              | validating ↦ throw-Holds _
            ]

  pub save-pure : (tx : MergeTransaction) → Sound tx → Holds (save tx >> pure tx) Sound
  save-pure tx h = bind-Holds (save-Holds tx h) λ u t. pure-Holds tx h

  module _ (repo : Git R E) where
    pub conclude-Holds :
        (tx : MergeTransaction) (cs : List Text)
        → tx.conflicts ≡ cs
        → tx.phase ≡ conflicted
        → Holds (conclude repo tx cs) Sound
    conclude-Holds tx [] q p =
        bind-Holds (on_repo-Holds _)
          λ u a. bind-Holds (on_repo-Holds _) λ sha b. pure-Holds _ (tt, q)
    conclude-Holds tx (c ∷ cs) q p = pure-Holds tx (subst (λ ph. SoundIn ph tx) (sym p) tt)

    pub resolve_in-Holds :
        (path strategy : Text) (tx : MergeTransaction) (ph : MergePhase)
        → tx.phase ≡ ph
        → Holds (resolve_in repo path strategy tx ph) Sound
    resolve_in-Holds path strategy tx conflicted p = bind-Holds (on_repo-Holds _) λ u a.
        bind-Holds (conclude-Holds (with_resolution path strategy tx) _ refl p)
          λ tx' s. save-pure tx' s
    resolve_in-Holds path strategy tx opened p = throw-Holds _
    resolve_in-Holds path strategy tx validating p = throw-Holds _
    resolve_in-Holds path strategy tx committed p = throw-Holds _
    resolve_in-Holds path strategy tx rolled_back p = throw-Holds _

    pub validate_in-Holds :
        (gate : Text) (passed : Bool) (tx : MergeTransaction) (ph : MergePhase)
        → tx.phase ≡ ph
        → SoundIn ph tx
        → Holds (validate_in repo gate passed tx ph) Sound
    validate_in-Holds gate passed tx validating p s = save-pure _ (
        subst (λ ph. SoundIn ph (record tx { validation = push tx.validation (gate, passed) }))
          (sym p) s)
    validate_in-Holds gate passed tx opened p s = throw-Holds _
    validate_in-Holds gate passed tx conflicted p s = throw-Holds _
    validate_in-Holds gate passed tx committed p s = throw-Holds _
    validate_in-Holds gate passed tx rolled_back p s = throw-Holds _

    pub commit_in-Holds :
        (tx : MergeTransaction) (ph : MergePhase)
        → SoundIn ph tx
        → Holds (commit_in repo tx ph) Sound
    commit_in-Holds tx validating s = elim (Bool-cases (has_failed tx)) [
      | inl q ↦ rw (q) (throw-Holds _)
      | inr q ↦ rw (q) (save-pure _ (s.0, s.1, q))
    ]
    commit_in-Holds tx opened s = throw-Holds _
    commit_in-Holds tx conflicted s = throw-Holds _
    commit_in-Holds tx committed s = throw-Holds _
    commit_in-Holds tx rolled_back s = throw-Holds _

    pub roll_out-Holds : (tx : MergeTransaction) (b : Bool) → Holds (roll_out repo tx b) Sound
    roll_out-Holds tx true = throw-Holds _
    roll_out-Holds tx false = save-pure _ tt

    pub unwind-Holds :
        (tx : MergeTransaction) (ph : MergePhase) → Holds (unwind repo tx ph) (λ u. Unit {0})
    unwind-Holds tx conflicted = on_repo-Holds _
    unwind-Holds tx validating = on_repo-Holds _
    unwind-Holds tx opened = throw-Holds _
    unwind-Holds tx committed = throw-Holds _
    unwind-Holds tx rolled_back = throw-Holds _

    pub merge_outcome-Holds :
        (tx : MergeTransaction) (o : MergeOutcome)
        → tx.conflicts ≡ []
        → Holds (merge_outcome repo tx o) Sound
    merge_outcome-Holds tx merged q =
        bind-Holds (on_repo-Holds _)
          λ u a. bind-Holds (on_repo-Holds _) λ sha b. pure-Holds _ (tt, q)
    merge_outcome-Holds tx (conflict files) q = pure-Holds _ tt
