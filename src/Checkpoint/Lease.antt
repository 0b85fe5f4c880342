-- ===== src/Checkpoint/Lease.antt =====
-- crates/checkpoint/src/lease.rs: LeaseFencer. Epochs are u64, with the wrap-around of a release build written out.
use zmodbit.Prelude.{
  none, some, ℕ, ◌+◌, ◌%◌, ◌^◌, max, ◌&&◌, Text, text_eq, Map, get, insert, remove, unwrap_or, List,
  [], ◌∷◌, ◌==◌, if◌then◌else◌, Result, ok, err,
}

pub record SessionLease : Type 0 where
  pub scope : Text
  pub session_id : Text
  pub epoch : ℕ

pub data LeaseError : Type 0 where
  held_by_other : (scope holder : Text) → LeaseError
  stale_epoch : (scope session : Text) (lease_epoch current_epoch : ℕ) → LeaseError

pub record LeaseFencer : Type 0 where
  pub active : Map (Text × ℕ)
  pub fencing : Map ℕ

abbrev pub new : LeaseFencer
new = record { active = []; fencing = [] }

abbrev pub current_epoch : Text → LeaseFencer → ℕ
current_epoch scope f = unwrap_or (get scope f.fencing) 0

abbrev pub succ_u64 : ℕ → ℕ
succ_u64 n = (n + 1) % 2 ^ 64

unfoldable pub next_epoch : Text → LeaseFencer → ℕ
next_epoch scope f = succ_u64 (current_epoch scope f)

unfoldable pub acquire : Text → Text → LeaseFencer → Result LeaseError (SessionLease × LeaseFencer)
unfolding next_epoch
acquire scope session_id f = elim (get scope f.active) [
  | some (holder, e) ↦ err (held_by_other scope holder)
  | none ↦
      let epoch = next_epoch scope f in
      ok (
        record { scope = scope; session_id = session_id; epoch = epoch },
        record {
          active = insert scope (session_id, epoch) f.active;
          fencing = insert scope epoch f.fencing;
        },
      )
]

unfoldable pub release : Text → LeaseFencer → LeaseFencer
unfolding next_epoch
release scope f = elim (get scope f.active) [
  | none ↦ f
  | some (holder, epoch) ↦ record {
    active = remove scope f.active;
    fencing = insert scope (max (next_epoch scope f) (succ_u64 epoch)) f.fencing;
  }
]

unfoldable pub validate_commit : Text → Text → ℕ → LeaseFencer → Result LeaseError (Unit {0})
validate_commit scope session_id lease_epoch f =
    let stale = err (stale_epoch scope session_id lease_epoch (current_epoch scope f)) in
    elim (get scope f.active) [
      | none ↦ stale
      | some (holder, epoch) ↦
          if text_eq holder session_id && epoch == lease_epoch then ok tt else stale
    ]

-- A call that changes the registry.
pub data Call : Type 0 where
  acquires : (scope session : Text) → Call
  releases : (scope : Text) → Call

abbrev registry : LeaseFencer → Result LeaseError (SessionLease × LeaseFencer) → LeaseFencer
registry f (err e) = f
registry f (ok (l, g)) = g

unfoldable pub call : Call → LeaseFencer → LeaseFencer
unfolding acquire release
call (acquires scope session) f = registry f (acquire scope session f)
call (releases scope) f = release scope f

unfoldable pub run_calls : List Call → LeaseFencer → LeaseFencer
unfolding call
run_calls [] f = f
run_calls (c ∷ cs) f = run_calls cs (call c f)
