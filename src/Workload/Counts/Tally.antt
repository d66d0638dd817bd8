-- ===== src/Workload/Counts/Tally.antt =====
-- The count of one status when a single file changes (`wl_spec_info` in
-- src/enclave/workload/Workload.cpp).
use crust_sworker.Prelude.{
  Bool-cases, inl, inr, ℕ, ◌+◌, ◌≡◌, refl, sym, ap₂, true, false, List, arith, if◌then◌else◌,
  sum_by,
}
use crust_sworker.Prelude.Int.{ℤ, pos, ◌-ℤ◌, to_int32}
use crust_sworker.Workload.{
  Spec, WlSpec, FileEntry, FileStatus, unconfirmed, valid, lost, deleted, same_status, get_spec,
  put_spec, add_spec, sub_spec,
}
use crust_sworker.Workload.Counts.{
  one_if, size_if, tally, IsSmall, add_spec-pos, sub_spec-pos, add_spec-neg, get_spec-put_spec,
}
use crust_sworker.Prelude.Changes.{Replaces, Removes, sum_by-Replaces, sum_by-Removes}

abbrev pub spec_of : ℕ → ℕ → Spec
spec_of k b = record { num = pos k; size = pos b }

spec_of_eq : (k l b d : ℕ) → k ≡ l → b ≡ d → spec_of k b ≡ spec_of l d
spec_of_eq k l b d p q = ap₂ spec_of p q

module _ (c : FileStatus) {e f : FileEntry} {fs gs : List FileEntry} (r : Replaces e f fs gs) where
  -- A file that leaves the status.
  pub tally_out :
      same_status e.status.current c ≡ true
      → same_status f.status.current c ≡ false
      → tally c fs ≡ spec_of (sum_by (one_if c) gs + 1) (sum_by (size_if c) gs + e.old_size)
  tally_out p q =
      spec_of_eq _ _ _ _ (ground (arith, sum_by-Replaces (one_if c) r))
        (ground (arith, sum_by-Replaces (size_if c) r))

  -- A file that enters it.
  pub tally_in :
      same_status e.status.current c ≡ false
      → same_status f.status.current c ≡ true
      → tally c gs ≡ spec_of (sum_by (one_if c) fs + 1) (sum_by (size_if c) fs + f.old_size)
  tally_in p q =
      spec_of_eq _ _ _ _ (ground (arith, sum_by-Replaces (one_if c) r))
        (ground (arith, sum_by-Replaces (size_if c) r))

  -- A change between two other statuses.
  pub tally_same :
      same_status e.status.current c ≡ false
      → same_status f.status.current c ≡ false
      → tally c gs ≡ tally c fs
  tally_same p q =
      spec_of_eq _ _ _ _ (ground (arith, sum_by-Replaces (one_if c) r))
        (ground (arith, sum_by-Replaces (size_if c) r))

module _ (c : FileStatus) {e : FileEntry} {fs gs : List FileEntry} (r : Removes e fs gs) where
  pub tally_removed :
      same_status e.status.current c ≡ true
      → tally c fs ≡ spec_of (sum_by (one_if c) gs + 1) (sum_by (size_if c) gs + e.old_size)
  tally_removed p =
      spec_of_eq _ _ _ _ (ground (arith, sum_by-Removes (one_if c) r))
        (ground (arith, sum_by-Removes (size_if c) r))

  pub tally_removed_other : same_status e.status.current c ≡ false → tally c gs ≡ tally c fs
  tally_removed_other p =
      spec_of_eq _ _ _ _ (ground (arith, sum_by-Removes (one_if c) r))
        (ground (arith, sum_by-Removes (size_if c) r))

pub same_status-eq : (a b : FileStatus) → same_status a b ≡ true → a ≡ b
same_status-eq unconfirmed b h = ground arith
same_status-eq valid b h = ground arith
same_status-eq lost b h = ground arith
same_status-eq deleted b h = ground arith

pub same_status_refl : (a : FileStatus) → same_status a a ≡ true
same_status_refl unconfirmed = refl
same_status_refl valid = refl
same_status_refl lost = refl
same_status_refl deleted = refl

-- The two writes of `set_wl_spec(to, from, change)`.
abbrev pub moved_spec : FileStatus → FileStatus → ℤ → WlSpec → WlSpec
moved_spec to from change s =
    let s' = put_spec to (add_spec change (get_spec to s)) s in
    put_spec from (sub_spec change (get_spec from s')) s'

get_spec-moved_spec :
    (to from c : FileStatus) (change : ℤ) (s : WlSpec)
    → same_status to from ≡ false
    → get_spec c (moved_spec to from change s) ≡ (
        if same_status from c
        then sub_spec change (get_spec c s)
        else (if same_status to c then add_spec change (get_spec c s) else get_spec c s))
get_spec-moved_spec to from c change s h = ground (
  arith,
  get_spec-put_spec from c (sub_spec change (get_spec from s')) s',
  get_spec-put_spec to from (add_spec change (get_spec to s)) s,
  get_spec-put_spec to c (add_spec change (get_spec to s)) s,
  same_status-eq from c,
  same_status-eq to c,
)
  where
    s' : WlSpec
    s' = put_spec to (add_spec change (get_spec to s)) s

same_status_ne :
    (to from c : FileStatus)
    → same_status from c ≡ true
    → same_status to from ≡ false
    → same_status to c ≡ false
same_status_ne to from c p q = ground (arith, same_status-eq from c)

-- One entry of the statistics stays right when a file moves between two statuses.
module _ (to from c : FileStatus) {e f : FileEntry} {fs gs : List FileEntry}
    (r : Replaces e f fs gs) (small : IsSmall e) (size : f.old_size ≡ e.old_size)
    (old : e.status.current ≡ from) (new : f.status.current ≡ to) where
  pub moved_counted :
      (s : WlSpec)
      → same_status to from ≡ false
      → get_spec c s ≡ tally c fs
      → get_spec c (moved_spec to from (to_int32 (pos e.old_size)) s) ≡ tally c gs
  moved_counted s ne h = elim (Bool-cases (same_status from c)) [
    | inl p ↦
        rw
          (
            get_spec-moved_spec to from c _ s ne,
            p,
            h,
            tally_out c r (rw old p) (rw new (same_status_ne to from c p ne)),
          )
          (sub_spec-pos e.old_size _ _ small.0 small.1)
    | inr p ↦ elim (Bool-cases (same_status to c)) [
      | inl q ↦
          rw
            (
              get_spec-moved_spec to from c _ s ne,
              p,
              q,
              h,
              tally_in c r (rw old p) (rw new q),
              size,
            )
            (add_spec-pos e.old_size _ _ small.0 small.1)
      | inr q ↦
          rw (get_spec-moved_spec to from c _ s ne, p, q, h)
            (sym (tally_same c r (rw old p) (rw new q)))
    ]
  ]

-- One entry stays right when a file leaves: it is erased, or becomes deleted.
module _ (from c : FileStatus) (e : FileEntry) (small : IsSmall e)
    (old : e.status.current ≡ from) where
  pub left_counted :
      (s : WlSpec) (fs gs : List FileEntry)
      → get_spec c s ≡ tally c fs
      → (same_status from c ≡ true
          → tally c fs ≡ spec_of (sum_by (one_if c) gs + 1) (sum_by (size_if c) gs + e.old_size))
      → (same_status from c ≡ false → tally c gs ≡ tally c fs)
      → get_spec c
          (put_spec from (add_spec (to_int32 (pos 0 -ℤ pos e.old_size)) (get_spec from s)) s)
        ≡ tally c gs
  left_counted s fs gs h out same = elim (Bool-cases (same_status from c)) [
    | inl p ↦
        rw (get_spec-put_spec from c _ s, p, same_status-eq from c p, h, out p)
          (add_spec-neg e.old_size _ _ small.0 small.1)
    | inr p ↦ rw (get_spec-put_spec from c _ s, p, h) (sym (same p))
  ]

-- One entry stays right when a file comes in.
pub came_counted :
    (to c : FileStatus) (e : FileEntry) (s : WlSpec) (fs gs : List FileEntry)
    → IsSmall e
    → get_spec c s ≡ tally c fs
    → (same_status to c ≡ true
        → tally c gs ≡ spec_of (sum_by (one_if c) fs + 1) (sum_by (size_if c) fs + e.old_size))
    → (same_status to c ≡ false → tally c gs ≡ tally c fs)
    → get_spec c (put_spec to (add_spec (to_int32 (pos e.old_size)) (get_spec to s)) s) ≡ tally c gs
came_counted to c e s fs gs small h came same = elim (Bool-cases (same_status to c)) [
  | inl p ↦
      rw (get_spec-put_spec to c _ s, p, same_status-eq to c p, h, came p)
        (add_spec-pos e.old_size _ _ small.0 small.1)
  | inr p ↦ rw (get_spec-put_spec to c _ s, p, h) (sym (same p))
]
