-- ===== src/Tools/Tail.antt =====
-- crates/terminal/src/replay.rs. The run's log is the list of its bytes, or none when the file does not exist; it is
-- read whole from the offset, and read errors are not modelled.
use zmodbit.Prelude.{
  ◌≡◌, refl, ap, Option, none, some, ◌++◌, ℕ, ◌+◌, ◌-◌, ◌≤◌, min, max, Bool, ◌&&◌, Text, take, drop,
  length, leb, take-append-drop, length-append, length-take, Result, ok, err, arith,
}

pub record ReplayCursor : Type 0 where
  pub run_id : Text
  pub offset : ℕ

pub record ReplayFrame : Type 0 where
  pub run_id : Text
  pub from_offset : ℕ
  pub bytes : Text
  pub new_offset : ℕ
  pub dropped_bytes : ℕ
  pub caught_up_and_closed : Bool

pub data ReplayError : Type 0 where
  unknown_run : (run_id : Text) → ReplayError

-- `offset.clamp(earliest, total)`; subtraction stops at 0 as `saturating_sub` does.
abbrev pub from_offset_in : Text → ℕ → ℕ → ℕ
from_offset_in log offset window = max (length log - window) (min offset (length log))

abbrev pub frame_of : Text → ReplayCursor → ℕ → Bool → ReplayFrame
frame_of log cursor window_bytes run_has_exited =
    let from = from_offset_in log cursor.offset window_bytes in
    let bytes = drop from log in
    record {
      run_id = cursor.run_id;
      from_offset = from;
      bytes = bytes;
      new_offset = from + length bytes;
      dropped_bytes = from - min cursor.offset from;
      caught_up_and_closed = run_has_exited && leb (length log) (from + length bytes);
    }

unfoldable pub replay_tail : Option Text → ReplayCursor → ℕ → Bool → Result ReplayError ReplayFrame
replay_tail none cursor window_bytes run_has_exited = err (unknown_run cursor.run_id)
replay_tail (some log) cursor window_bytes run_has_exited =
    ok (frame_of log cursor window_bytes run_has_exited)

length-take-drop : (n : ℕ) (xs : Text) → n ≤ length xs → n + length (drop n xs) ≡ length xs
length-take-drop n xs le = omega (
  arith,
  le,
  length-append (take n xs) (drop n xs),
  ap length (take-append-drop n xs),
  length-take n xs,
)

-- A frame is at most a window long, is exactly the end of the log, and the bytes that it leaves out after the cursor
-- are those it reports as dropped.
pub frame_of-exact :
    (log : Text) (cursor : ReplayCursor) (window_bytes : ℕ) (run_has_exited : Bool)
    → (frame : ReplayFrame) × (replay_tail (some log) cursor window_bytes run_has_exited ≡ ok frame)
      × (length frame.bytes ≤ window_bytes)
      × (take frame.from_offset log ++ frame.bytes ≡ log)
      × (frame.from_offset ≡ min cursor.offset (length log) + frame.dropped_bytes)
      × (frame.new_offset ≡ length log)
unfolding replay_tail
frame_of-exact log cursor window exited =
    let from = from_offset_in log cursor.offset window in
    let whole = length-take-drop from log (omega arith) in
    (
      frame_of log cursor window exited,
      refl,
      omega (arith, whole),
      take-append-drop from log,
      omega arith,
      whole,
    )
