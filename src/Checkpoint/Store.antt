-- ===== src/Checkpoint/Store.antt =====
-- crates/checkpoint/src/lib.rs: the fenced checkpoint store; the time of a write is an argument.
use zmodbit.Prelude.{
  ◌≡◌, refl, Option, none, some, List, [], ◌∷◌, ℕ, Text, push, leb, Result, ok, err, if◌then◌else◌,
  arith,
}

pub record Checkpoint : Type 0 where
  pub epoch : ℕ
  pub payload : Text
  pub created_at_ms : ℕ

pub data CheckpointError : Type 0 where
  stale_epoch : (attempted current : ℕ) → CheckpointError

pub record CheckpointStore : Type 0 where
  pub current_epoch : ℕ
  pub latest : Option Checkpoint
  pub rejections : List (ℕ × ℕ)

unfoldable pub new : CheckpointStore
new = record { current_epoch = 0; latest = none; rejections = [] }

unfoldable pub write :
    ℕ → Text → ℕ → CheckpointStore → Result CheckpointError (Unit {0}) × CheckpointStore
write epoch payload now s =
    if leb epoch s.current_epoch
    then (
      err (stale_epoch epoch s.current_epoch),
      record s { rejections = push s.rejections (epoch, s.current_epoch) },
    )
    else (
      ok tt,
      record s {
        current_epoch = epoch;
        latest = some (record { epoch = epoch; payload = payload; created_at_ms = now });
      },
    )

abbrev pub write_all : List Checkpoint → CheckpointStore → CheckpointStore
write_all [] s = s
write_all (c ∷ cs) s = write_all cs (write c.epoch c.payload c.created_at_ms s).1

-- Of two checkpoints the second one replaces the first when its epoch is above.
abbrev pub newer : Option Checkpoint → Checkpoint → Option Checkpoint
newer none c = if leb c.epoch 0 then none else some c
newer (some b) c = if leb c.epoch b.epoch then some b else some c

-- The first of the checkpoints with the highest epoch above zero.
abbrev pub highest : Option Checkpoint → List Checkpoint → Option Checkpoint
highest best [] = best
highest best (c ∷ cs) = highest (newer best c) cs

abbrev epoch_of : Option Checkpoint → ℕ
epoch_of none = 0
epoch_of (some c) = c.epoch

-- The epoch of the store is that of its checkpoint.
abbrev pub IsFenced : CheckpointStore → Type 0
IsFenced s = s.current_epoch ≡ epoch_of s.latest

write-newer :
    (c : Checkpoint) (s : CheckpointStore) (best : Option Checkpoint)
    → s.latest ≡ best
    → s.current_epoch ≡ epoch_of best
    → ((write c.epoch c.payload c.created_at_ms s).1.latest ≡ newer best c)
      × ((write c.epoch c.payload c.created_at_ms s).1.current_epoch ≡ epoch_of (newer best c))
unfolding write
write-newer c s none h f = ground (arith, h, f)
write-newer c s (some b) h f = ground (arith, h, f)

write_all-latest :
    (cs : List Checkpoint) (s : CheckpointStore) (best : Option Checkpoint)
    → s.latest ≡ best
    → s.current_epoch ≡ epoch_of best
    → (write_all cs s).latest ≡ highest best cs
write_all-latest [] s best h f = h
write_all-latest (c ∷ cs) s best h f =
    let step = write-newer c s best h f in
    write_all-latest cs (write c.epoch c.payload c.created_at_ms s).1 (newer best c) (step.0)
      (step.1)

-- Whatever is written, in any order, a store keeps the first checkpoint of the highest epoch.
pub write_all-highest : (cs : List Checkpoint) → (write_all cs new).latest ≡ highest none cs
unfolding new
write_all-highest cs = write_all-latest cs new none refl refl
