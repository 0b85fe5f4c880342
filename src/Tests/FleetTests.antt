-- ===== src/Tests/FleetTests.antt =====
-- A governor with one tenant, a plan of writes, and the instances of their theorems.
use zmodbit.Prelude.{
  ◌≡◌, refl, none, some, List, [], ◌∷◌, ℕ, zero, suc, ◌≤◌, Text, bytes, length, get, arith,
}
use zmodbit.Fleet.Governor.{ResourceGovernor, admit_subagent, tickets_of, capacity_of}
use zmodbit.Fleet.Issued.{IsNumeral}
use zmodbit.Fleet.Admissions.{Kept, admit_subagent-Kept}
use zmodbit.Fleet.Capacity.{IsBounded, GovernorCall, admitting, run_calls, run_calls-IsBounded}
use zmodbit.Fleet.Coordination.{ProposedWrite}

-- Numbers in unary.
abbrev print : ℕ → Text
print zero = []
print (suc n) = 49 ∷ print n

print-IsNumeral : (n : ℕ) → IsNumeral (print n)
print-IsNumeral zero = tt
print-IsNumeral (suc n) = (λ h. omega (arith, h), print-IsNumeral n)

printed : (m n : ℕ) → print m ≡ print n → m ≡ n
printed zero zero h = refl
printed zero (suc n) h = absurd (ground arith)
printed (suc m) zero h = absurd (ground arith)
printed (suc m) (suc n) h = omega (arith, printed m n (ground arith))

-- The tenant `a` may hold two tickets.
abbrev governor : ResourceGovernor
governor = record { capacity = (bytes "a", 2) ∷ []; active = []; counter = 0 }

admit_subagent-Kept_example : Kept print (bytes "a") governor (
    admit_subagent print
      (bytes "a")
      (bytes "child")
      (bytes "tree")
      (bytes "src" ∷ [])
      (bytes "read")
      (some (bytes "after_worktree"))
      governor)
admit_subagent-Kept_example =
    admit_subagent-Kept print print-IsNumeral printed (bytes "a") (bytes "child") (bytes "tree")
      (bytes "src" ∷ []) (bytes "read") (some (bytes "after_worktree")) governor tt

abbrev admission : GovernorCall
admission = admitting (bytes "a") (bytes "child") (bytes "tree") [] (bytes "read") none

governor-IsBounded : IsBounded governor
unfolding get
governor-IsBounded j = omega arith

run_calls-IsBounded_example :
    length
      (tickets_of (bytes "a") (run_calls print (admission ∷ admission ∷ admission ∷ []) governor))
    ≤ capacity_of (bytes "a") (run_calls print (admission ∷ admission ∷ admission ∷ []) governor)
run_calls-IsBounded_example =
    run_calls-IsBounded print print-IsNumeral printed (admission ∷ admission ∷ admission ∷ [])
      governor governor-IsBounded tt (bytes "a")

abbrev proposed : Text → Text → ProposedWrite
proposed task path = record { task_id = task; path = path }

abbrev proposals : List ProposedWrite
proposals =
    proposed (bytes "a") (bytes "x")
    ∷ proposed (bytes "b") (bytes "y")
    ∷ proposed (bytes "b") (bytes "x")
    ∷ []
