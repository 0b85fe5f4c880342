-- ===== src/ProtocolState/Journal.antt =====
-- crates/protocol-state/src/lib.rs: ProtocolStateStore over the bytes of its file. JSON encoding and decoding of a
-- record are parameters, and the disk takes every line. `open` reads the file as a string, so its bytes must be UTF-8.
use zmodbit.Prelude.{
  Option, none, some, List, [], ◌∷◌, ◌++◌, Text, lines, newline, is_filled, retain, push, Result,
  ok, err, ◌>>=◌, ◌>>◌, ensure, is_utf8,
}
use zmodbit.ProtocolState.Records.{ProtocolRecord}

pub record RecordCodec : Type 0 where
  pub encode : ProtocolRecord → Text
  pub decode : Text → Option ProtocolRecord

pub data ProtocolStateError : Type 0 where
  serialization io : ProtocolStateError

pub record ProtocolStateStore : Type 0 where
  pub file : Option Text
  pub records : List ProtocolRecord

abbrev pub contents : Option Text → Text
contents none = []
contents (some t) = t

module _ (json : RecordCodec) where
  -- A line that does not decode ends the journal when it is the last one.
  abbrev pub undecoded : List Text → Result ProtocolStateError (List ProtocolRecord)
  undecoded [] = ok []
  undecoded (l ∷ ls) = err serialization

  unfoldable pub read_records : List Text → Result ProtocolStateError (List ProtocolRecord)
  read_records [] = ok []
  read_records (l ∷ ls) =
      let rest = read_records ls in
      elim (json.decode l) [ none ↦ undecoded ls | some r ↦ do rs ← rest; ok (r ∷ rs) ]

  unfoldable pub open_store : Option Text → Result ProtocolStateError ProtocolStateStore
  unfolding read_records
  open_store none = ok (record { file = none; records = [] })
  open_store (some t) = do
    ensure (is_utf8 t) io
    rs ← read_records (retain is_filled (lines t))
    ok (record { file = some t; records = rs })

  unfoldable pub append_record : ProtocolRecord → ProtocolStateStore → ProtocolStateStore
  append_record r s = record {
    file = some (contents s.file ++ (json.encode r ++ newline ∷ []));
    records = push s.records r;
  }
