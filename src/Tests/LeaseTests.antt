-- ===== src/Tests/LeaseTests.antt =====
-- Runs of the lease registry.
use zmodbit.Prelude.{
  ◌≡◌, refl, arith, some, List, [], ◌∷◌, Text, bytes, text_eq, get, insert, ok, err,
}
use zmodbit.Checkpoint.Lease.{
  LeaseFencer, SessionLease, new, current_epoch, next_epoch, acquire, release, validate_commit,
  stale_epoch, Call, acquires, call, run_calls,
}
use zmodbit.Checkpoint.Fencing.{released-refused}

abbrev scope_a : Text
scope_a = bytes "a"

abbrev alice : Text
alice = bytes "alice"

abbrev bob : Text
bob = bytes "bob"

abbrev first_calls : List Call
first_calls = acquires scope_a alice ∷ acquires scope_a bob ∷ []

held : get scope_a (run_calls first_calls new).active ≡ some (alice, 1)
unfolding get insert text_eq next_epoch acquire call run_calls
held = refl

abbrev released_registry : LeaseFencer
released_registry =
    run_calls (acquires scope_a bob ∷ []) (release scope_a (run_calls first_calls new))

-- Alice's lease of epoch 1 is refused after its release, when Bob holds the scope with epoch 3.
released-refused_example :
    validate_commit scope_a alice 1 released_registry
    ≡ err (stale_epoch scope_a alice 1 (current_epoch scope_a released_registry))
released-refused_example =
    released-refused first_calls (acquires scope_a bob ∷ []) scope_a alice alice 1 held
      (omega arith)

validated : validate_commit scope_a alice 1 (run_calls first_calls new) ≡ ok tt
unfolding get insert text_eq next_epoch acquire call run_calls validate_commit
validated = refl

abbrev alice_lease : SessionLease
alice_lease = record { scope = scope_a; session_id = alice; epoch = 1 }

abbrev alice_holds : LeaseFencer
alice_holds = record { active = (scope_a, (alice, 1)) ∷ []; fencing = (scope_a, 1) ∷ [] }

alice_acquires : acquire scope_a alice new ≡ ok (alice_lease, alice_holds)
unfolding get insert next_epoch acquire
alice_acquires = refl
