-- ===== src/Checkpoint/Fencing.antt =====
-- crates/checkpoint/src/lease.rs: what the fencing epochs guarantee.
use zmodbit.Prelude.{
  ◌≡◌, refl, false, some, ℕ, ◌+◌, ◌<◌, ◌≤◌, ◌^◌, Text, text_eq, text_eq_iff, All, get, get-insert,
  get-remove, text_eq_refl, err, Option-cases, inl, inr, max, List, [], ◌∷◌, length, ok, arith,
}
use zmodbit.Checkpoint.Lease.{
  LeaseFencer, SessionLease, stale_epoch, new, current_epoch, acquire, release, validate_commit,
  Call, acquires, releases, call, run_calls, next_epoch, succ_u64,
}

-- The epoch of an active lease is the current epoch of its scope.
abbrev pub IsFenced : LeaseFencer → Type 0
IsFenced f =
    (scope holder : Text) (e : ℕ)
    → get scope f.active ≡ some (holder, e)
    → current_epoch scope f ≡ e

call-IsFenced : (c : Call) (f : LeaseFencer) → IsFenced f → IsFenced (call c f)
unfolding call acquire release
call-IsFenced (acquires s t) f h scope holder e = ground (
  arith,
  text_eq_iff s scope,
  get-insert scope s (t, next_epoch s f) f.active,
  get-insert scope s (next_epoch s f) f.fencing,
  h scope holder e,
)
call-IsFenced (releases s) f h scope holder e = elim (Option-cases (get s f.active)) [
  | inl q ↦ ground (arith, h scope holder e)
  | inr ((who, n), q) ↦ ground (
    arith,
    text_eq_iff s scope,
    get-insert scope s (max (next_epoch s f) (succ_u64 n)) f.fencing,
    get-remove scope s f.active,
    h scope holder e,
  )
]

-- What a call does to the current epoch of a scope, while the counter has room.
call-current_epoch :
    (c : Call) (f : LeaseFencer) (scope : Text)
    → IsFenced f
    → current_epoch scope f + 1 < 2 ^ 64
    → (current_epoch scope f ≤ current_epoch scope (call c f))
      × (current_epoch scope (call c f) ≤ current_epoch scope f + 1)
unfolding call acquire release next_epoch
call-current_epoch (acquires s t) f scope h room =
    ground (arith, text_eq_iff s scope, get-insert scope s (next_epoch s f) f.fencing)
call-current_epoch (releases s) f scope h room = elim (Option-cases (get s f.active)) [
  | inl q ↦ ground arith
  | inr ((who, n), q) ↦ ground (
    arith,
    text_eq_iff s scope,
    get-insert scope s (max (next_epoch s f) (succ_u64 n)) f.fencing,
    h s who n,
  )
]

run_calls-IsFenced : (cs : List Call) (f : LeaseFencer) → IsFenced f → IsFenced (run_calls cs f)
unfolding run_calls
run_calls-IsFenced [] f h = h
run_calls-IsFenced (c ∷ cs) f h = run_calls-IsFenced cs (call c f) (call-IsFenced c f h)

run_calls-current_epoch :
    (cs : List Call) (f : LeaseFencer) (scope : Text)
    → IsFenced f
    → current_epoch scope f + length cs < 2 ^ 64
    → (current_epoch scope f ≤ current_epoch scope (run_calls cs f))
      × (current_epoch scope (run_calls cs f) ≤ current_epoch scope f + length cs)
unfolding run_calls
run_calls-current_epoch [] f scope h room = omega arith
run_calls-current_epoch (c ∷ cs) f scope h room =
    let (lo, hi) = call-current_epoch c f scope h (omega arith) in
    let (lo', hi') =
      run_calls-current_epoch cs (call c f) scope (call-IsFenced c f h) (omega arith) in
    omega arith

current_epoch-new : (scope : Text) → current_epoch scope new ≡ 0
unfolding get
current_epoch-new scope = refl

new-IsFenced : IsFenced new
unfolding get
new-IsFenced scope holder e q = ground arith

-- An epoch below the current one does not validate.
superseded-refused :
    (f : LeaseFencer) (scope session : Text) (e : ℕ)
    → IsFenced f
    → e < current_epoch scope f
    → validate_commit scope session e f ≡ err (stale_epoch scope session e (current_epoch scope f))
unfolding validate_commit
superseded-refused f scope session e h below = elim (Option-cases (get scope f.active)) [
  | inl q ↦ ground arith
  | inr ((who, n), q) ↦ ground (arith, h scope who n)
]

-- The epoch counter moves past a lease that is released.
release-epoch :
    (f : LeaseFencer) (scope holder : Text) (e : ℕ)
    → IsFenced f
    → get scope f.active ≡ some (holder, e)
    → e + 1 < 2 ^ 64
    → current_epoch scope (release scope f) ≡ e + 1
unfolding release next_epoch
release-epoch f scope holder e h q room = ground (
  arith,
  text_eq_refl scope,
  get-insert scope scope (max (next_epoch scope f) (succ_u64 e)) f.fencing,
  h scope holder e,
)

-- A lease that was held at some point of a registry's history and then released never validates again, for any
-- session, whatever calls follow, as long as fewer than 2^64 calls are made in all.
pub released-refused :
    (before after : List Call) (scope holder session : Text) (e : ℕ)
    → get scope (run_calls before new).active ≡ some (holder, e)
    → length before + length after + 1 < 2 ^ 64
    → let now = run_calls after (release scope (run_calls before new)) in
      validate_commit scope session e now
      ≡ err (stale_epoch scope session e (current_epoch scope now))
unfolding release call
released-refused before after scope holder session e held room =
    let f = run_calls before new in
    let h : IsFenced f = run_calls-IsFenced before new new-IsFenced in
    let start = current_epoch-new scope in
    let (_, few) = run_calls-current_epoch before new scope new-IsFenced (omega arith) in
    let at = h scope holder e held in
    let past = release-epoch f scope holder e h held (ground arith) in
    let h' : IsFenced (release scope f) = call-IsFenced (releases scope) f h in
    let (up, _) = run_calls-current_epoch after (release scope f) scope h' (ground arith) in
    superseded-refused (run_calls after (release scope f)) scope session e
      (run_calls-IsFenced after (release scope f) h') (ground arith)

-- Two commits that a registry with any history accepts for one scope come from one session with one epoch, the
-- current epoch of the scope.
pub validated-exclusive :
    (cs : List Call) (scope s s' : Text) (e e' : ℕ)
    → validate_commit scope s e (run_calls cs new) ≡ ok tt
    → validate_commit scope s' e' (run_calls cs new) ≡ ok tt
    → (s ≡ s') × (e ≡ e') × (e ≡ current_epoch scope (run_calls cs new))
unfolding validate_commit
validated-exclusive cs scope s s' e e' h h' =
    let f = run_calls cs new in
    elim (Option-cases (get scope f.active)) [
      | inl q ↦ absurd (ground arith)
      | inr ((who, n), q) ↦ ground (
        arith,
        text_eq_iff who s,
        text_eq_iff who s',
        run_calls-IsFenced cs new new-IsFenced scope who n,
      )
    ]

abbrev pub Keeps : Text → Call → Type 0
Keeps scope (acquires s t) = Unit
Keeps scope (releases s) = text_eq s scope ≡ false

call-Keeps :
    (c : Call) (f : LeaseFencer) (scope session : Text) (e : ℕ)
    → Keeps scope c
    → get scope f.active ≡ some (session, e)
    → get scope (call c f).active ≡ some (session, e)
unfolding call acquire release
call-Keeps (acquires s t) f scope session e k q =
    ground (arith, text_eq_iff s scope, get-insert scope s (t, next_epoch s f) f.active)
call-Keeps (releases s) f scope session e k q =
    ground (arith, text_eq_iff s scope, get-remove scope s f.active)

run_calls-Keeps :
    (cs : List Call) (f : LeaseFencer) (scope session : Text) (e : ℕ)
    → All (Keeps scope) cs
    → get scope f.active ≡ some (session, e)
    → get scope (run_calls cs f).active ≡ some (session, e)
unfolding run_calls
run_calls-Keeps [] f scope session e k q = q
run_calls-Keeps (c ∷ cs) f scope session e (k, ks) q =
    run_calls-Keeps cs (call c f) scope session e ks (call-Keeps c f scope session e k q)

-- A lease that was acquired validates through every continuation of calls that does not release its scope.
pub acquired-validates :
    (f : LeaseFencer) (scope session : Text) (l : SessionLease) (g : LeaseFencer) (cs : List Call)
    → acquire scope session f ≡ ok (l, g)
    → All (Keeps scope) cs
    → validate_commit scope session l.epoch (run_calls cs g) ≡ ok tt
unfolding acquire validate_commit
acquired-validates f scope session l g cs a k =
    let active = get-insert scope scope (session, next_epoch scope f) f.active in
    let held : get scope g.active ≡ some (session, l.epoch) =
      ground (arith, text_eq_refl scope, active) in
    let still = run_calls-Keeps cs g scope session l.epoch k held in
    ground (arith, text_eq_refl session)
