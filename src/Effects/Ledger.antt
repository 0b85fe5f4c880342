-- ===== src/Effects/Ledger.antt =====
-- crates/effects/src/lib.rs: Ledger over the bytes of its file. JSON encoding and decoding of a receipt are
-- parameters; a call that appends is told whether the disk takes its line, and a file is read as a whole.
use zmodbit.Prelude.{
  Bool, Option, none, some, List, [], ◌∷◌, ◌++◌, Text, lines, is_blank, newline, if◌then◌else◌,
  Result, ok, err, ◌>>=◌,
}
use zmodbit.Effects.Chain.{EffectReceipt, Bound, ChainError, verify, append}

pub record Codec : Type 0 where
  pub encode : EffectReceipt → Text
  pub decode : Text → Option EffectReceipt

pub data LedgerError : Type 0 where
  io corrupt_line : LedgerError
  chain : ChainError → LedgerError

pub record Ledger : Type 0 where
  pub file : Option Text
  pub receipts : List EffectReceipt

abbrev pub map_err : Result ChainError (Unit {0}) → Result LedgerError (Unit {0})
map_err (ok u) = ok u
map_err (err e) = err (chain e)

abbrev pub contents : Option Text → Text
contents none = []
contents (some t) = t

module _ (sha : Text → Text) (json : Codec) where
  -- The loop of `open` that reads the receipts.
  unfoldable pub load : List Text → Result LedgerError (List EffectReceipt)
  load [] = ok []
  load (l ∷ ls) =
      let rest = load ls in
      if is_blank l
      then rest
      else elim (json.decode l) [ none ↦ err corrupt_line | some r ↦ do rs ← rest; ok (r ∷ rs) ]

  unfoldable pub open_file : Option Text → Result LedgerError Ledger
  unfolding load
  open_file none = ok (record { file = none; receipts = [] })
  open_file (some t) = do
    rs ← load (lines t)
    _ ← map_err (verify sha rs)
    ok (record { file = some t; receipts = rs })

  -- `append`: the chain grows before the file does.
  unfoldable pub append_receipt : Bool → Bound → Ledger → Result LedgerError EffectReceipt × Ledger
  append_receipt disk_takes b l =
      let (r, rs) = append sha b l.receipts in
      if disk_takes
      then (
        ok r,
        record { file = some (contents l.file ++ (json.encode r ++ newline ∷ [])); receipts = rs },
      )
      else (err io, record { file = l.file; receipts = rs })
