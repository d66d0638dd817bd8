-- ===== src/Identity/Heights.antt =====
-- The report height that `id_gen_upgrade_data` in src/enclave/identity/Identity.cpp goes on to.
use crust_sworker.Prelude.{
  ℕ, zero, suc, ◌+◌, ◌-◌, ◌*◌, ◌^◌, ◌≤◌, ◌<◌, ◌≡◌, arith, ltb, Bool-cases, inl, inr, ltb→lt, ltb→le,
}
use crust_sworker.Status.{crust_success, era_length}
use crust_sworker.Workload.{Workload, sub_size}
use crust_sworker.Identity.{upgrade_condition, advance, upgrade_report_height}

sub_size_plain : (a b : ℕ) → b ≤ a → a < 2 ^ 64 → sub_size a b ≡ a - b
sub_size_plain a b h k = omega arith

-- A height that the loop may stop at.
abbrev pub IsReached : ℕ → ℕ → ℕ → Type 0
IsReached block_height start r =
    (r < block_height) × (block_height ≤ r + era_length) × ((k : ℕ) × (r ≡ start + era_length * k))

advance-IsReached :
    (fuel block_height h : ℕ)
    → h < block_height
    → block_height ≤ h + fuel
    → block_height < 2 ^ 64
    → IsReached block_height h (advance fuel block_height h)
unfolding advance
advance-IsReached zero b h lt le bound = absurd (omega arith)
advance-IsReached (suc fuel) b h lt le bound =
    let plain = sub_size_plain b h (omega arith) bound in
    elim (Bool-cases (ltb era_length (sub_size b h))) [
      | inr stop ↦
          let q = ltb→le era_length (sub_size b h) stop in
          rw stop (lt, omega (arith, q, plain), (0, omega arith))
      | inl go ↦
          let q = ltb→lt era_length (sub_size b h) go in
          let (below, near, (k, e)) =
            advance-IsReached fuel b (h + era_length) (omega (arith, q, plain)) (omega arith)
              bound in
          rw go (below, near, (k + 1, omega (arith, e)))
    ]

-- For a block height that id_gen_upgrade_data lets through, the report height that it goes on to is the last one
-- below the block height that is a whole number of eras after the reported height: the block
-- height is at most one era above it. Block heights are below 2 ^ 64.
pub upgrade_report_height-IsReached :
    (block_height : ℕ) (wl : Workload)
    → block_height < 2 ^ 64
    → upgrade_condition block_height wl ≡ crust_success
    → IsReached block_height wl.report_height (upgrade_report_height block_height wl)
unfolding upgrade_report_height upgrade_condition
upgrade_report_height-IsReached b wl bound h =
    advance-IsReached b b wl.report_height (ground arith) (omega arith) bound
