-- ===== src/Workload/Proof.antt =====
-- The counter of validated proofs, over any sequence of its two operations
-- (src/enclave/workload/Workload.cpp).
use crust_sworker.Prelude.{◌≡◌, true, false, List, [], ◌∷◌, arith}
use crust_sworker.Prelude.Int.{◌+ℤ◌, ◌-ℤ◌, pos, ◌≤ℤ◌, int_laws}
use crust_sworker.Workload.{
  Workload, report_add_validated_proof, report_reduce_validated_proof, report_has_validated_proof,
}

-- The main loop adds, a generated work report reduces.
pub data ProofCall : Type 0 where
  add reduce : ProofCall

unfoldable pub proof_step : ProofCall → Workload → Workload
proof_step add wl = report_add_validated_proof wl
proof_step reduce wl = report_reduce_validated_proof wl

unfoldable pub run_proof : List ProofCall → Workload → Workload
unfolding proof_step
run_proof [] wl = wl
run_proof (c ∷ cs) wl = run_proof cs (proof_step c wl)

abbrev pub InRange : Workload → Type 0
InRange wl = (pos 0 ≤ℤ wl.validated_proof) × (wl.validated_proof ≤ℤ pos 2)

proof_step-InRange : (c : ProofCall) (wl : Workload) → InRange wl → InRange (proof_step c wl)
unfolding proof_step report_add_validated_proof report_reduce_validated_proof
proof_step-InRange add wl h = grind int_laws
proof_step-InRange reduce wl h = grind int_laws

run_proof-InRange : (cs : List ProofCall) (wl : Workload) → InRange wl → InRange (run_proof cs wl)
unfolding run_proof
run_proof-InRange [] wl h = h
run_proof-InRange (c ∷ cs) wl h = run_proof-InRange cs _ (proof_step-InRange c wl h)

has_after_add :
    (w : Workload) → InRange w → report_has_validated_proof (report_add_validated_proof w) ≡ true
unfolding report_has_validated_proof report_add_validated_proof ◌+ℤ◌
has_after_add w r = ground arith

none_after_two :
    (w : Workload)
    → InRange w
    → report_has_validated_proof (report_reduce_validated_proof (report_reduce_validated_proof w))
      ≡ false
unfolding report_has_validated_proof report_reduce_validated_proof ◌-ℤ◌
none_after_two w r = ground arith

-- From a counter between 0 and 2, any sequence of additions and reductions leaves it between 0 and
-- 2; one addition after that makes `report_has_validated_proof` true, and two reductions make it
-- false, so that a report is never allowed more than twice for one validation.
pub run_proof_bounds :
    (cs : List ProofCall) (wl : Workload)
    → InRange wl
    → InRange (run_proof cs wl)
      × (report_has_validated_proof (report_add_validated_proof (run_proof cs wl)) ≡ true)
      × (report_has_validated_proof
            (report_reduce_validated_proof (report_reduce_validated_proof (run_proof cs wl)))
          ≡ false)
run_proof_bounds cs wl h =
    let r = run_proof-InRange cs wl h in (r, has_after_add _ r, none_after_two _ r)
