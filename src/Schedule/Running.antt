-- ===== src/Schedule/Running.antt =====
-- The calls that run, and what src/enclave/schedule/Schedule.cpp knows of them, in any interleaving.
use crust_sworker.Prelude.{
  ℕ, ◌+◌, ◌≡◌, ◌↔◌, false≢true, refl, ap, ap₂, sym, ◌∙◌, Bool, true, false, ◌||◌, List, [], ◌∷◌,
  ◌++◌, arith, if◌then◌else◌, Bool-cases, inl, inr,
}
use crust_sworker.Prelude.Int.{pos, ◌+ℤ◌, ◌-ℤ◌, ltb_ℤ}
use crust_sworker.Schedule.{
  Process, same_process, block_procs, Counts, sched_add, sched_del, any_running, release_lock,
}

-- The counters, with the calls that are between their `sched_add` and their `sched_del`.
pub record Sched : Type 0 where
  pub counts : Counts
  pub running : List Process

abbrev pub idle : Sched
idle = record { counts = λ p. pos 0; running = [] }

-- A call begins, or one of those that run ends.
pub data Step : Sched → Sched → Type 0 where
  enter :
      (id : Process) (c : Counts) (ps : List Process)
      → Step
          (record { counts = c; running = ps })
          (record { counts = sched_add id c; running = id ∷ ps })
  leave :
      (id : Process) (c : Counts) (before after : List Process)
      → Step
          (record { counts = c; running = before ++ (id ∷ after) })
          (record { counts = sched_del id c; running = before ++ after })

pub data Reachable : Sched → Type 0 where
  start : Reachable idle
  next : {s t : Sched} → Reachable s → Step s t → Reachable t

-- How often a process stands in a list.
unfoldable pub occurrences : Process → List Process → ℕ
unfolding same_process
occurrences p [] = 0
occurrences p (q ∷ qs) = let n = occurrences p qs in if same_process q p then n + 1 else n

unfoldable pub member : Process → List Process → Bool
unfolding same_process
member p [] = false
member p (q ∷ qs) = same_process p q || member p qs

occurrences-append :
    (p : Process) (xs ys : List Process)
    → occurrences p (xs ++ ys) ≡ occurrences p xs + occurrences p ys
unfolding occurrences
occurrences-append p [] ys = omega arith
occurrences-append p (x ∷ xs) ys = ground (arith, occurrences-append p xs ys)

-- The counters count the running calls.
abbrev pub IsExact : Sched → Type 0
IsExact s = (p : Process) → s.counts p ≡ pos (occurrences p s.running)

count_up : (n : ℕ) → pos n +ℤ pos 1 ≡ pos (n + 1)
unfolding ◌+ℤ◌
count_up n = ground arith

count_down : (n : ℕ) → pos (n + 1) -ℤ pos 1 ≡ pos n
unfolding ◌-ℤ◌
count_down n = ground arith

sched_add-occurrences :
    (id p : Process) (c : Counts) (ps : List Process)
    → c p ≡ pos (occurrences p ps)
    → sched_add id c p ≡ pos (occurrences p (id ∷ ps))
unfolding sched_add occurrences
sched_add-occurrences id p c ps h = elim (Bool-cases (same_process id p)) [
  | inl e ↦ rw (sched_add, e, h) (count_up (occurrences p ps))
  | inr e ↦ rw (sched_add, e, h) refl
]

sched_del-occurrences :
    (id p : Process) (c : Counts) (before after : List Process)
    → c p ≡ pos (occurrences p (before ++ (id ∷ after)))
    → sched_del id c p ≡ pos (occurrences p (before ++ after))
unfolding sched_del occurrences
sched_del-occurrences id p c before after h =
    let with_id = occurrences-append p before (id ∷ after) in
    let without = occurrences-append p before after in
    elim (Bool-cases (same_process id p)) [
      | inl e ↦
          let n : occurrences p (before ++ (id ∷ after)) ≡ occurrences p (before ++ after) + 1 =
            ground arith in
          rw (sched_del, e, h, n) (count_down (occurrences p (before ++ after)))
      | inr e ↦
          let n : occurrences p (before ++ (id ∷ after)) ≡ occurrences p (before ++ after) =
            ground arith in
          rw (sched_del, e, h, n) refl
    ]

Step-IsExact : (s t : Sched) → Step s t → IsExact s → IsExact t
Step-IsExact _ _ (enter id c ps) h p = sched_add-occurrences id p c ps (h p)
Step-IsExact _ _ (leave id c before after) h p = sched_del-occurrences id p c before after (h p)

Reachable-IsExact : (s : Sched) → Reachable s → IsExact s
unfolding occurrences
Reachable-IsExact _ start = λ p. refl
Reachable-IsExact t (next {s} r step) = Step-IsExact s t step (Reachable-IsExact s r)

-- Some process of the first list is among the running ones.
unfoldable any_member : List Process → List Process → Bool
unfolding member
any_member [] running = false
any_member (q ∷ qs) running = member q running || any_member qs running

occurrences-member :
    (p : Process) (ps : List Process) → ltb_ℤ (pos 0) (pos (occurrences p ps)) ≡ member p ps
unfolding occurrences member same_process
occurrences-member p [] = ground arith
occurrences-member p (q ∷ qs) = ground (arith, occurrences-member p qs)

member-same :
    (p q : Process) (ps : List Process) → same_process p q ≡ true → member p ps ≡ member q ps
unfolding member same_process
member-same p q [] h = refl
member-same p q (x ∷ ps) h = ground (arith, member-same p q ps h)

any_member-elim :
    (qs ps : List Process)
    → any_member qs ps ≡ true
    → (p : Process) × (member p qs ≡ true) × (member p ps ≡ true)
unfolding any_member member same_process
any_member-elim [] ps h = absurd (false≢true h)
any_member-elim (q ∷ qs) ps h = elim (Bool-cases (member q ps)) [
  | inl e ↦ (q, ground arith, e)
  | inr e ↦ let r = any_member-elim qs ps (ground arith) in (r.0, ground arith, r.2)
]

any_member-intro :
    (p : Process) (qs ps : List Process)
    → member p qs ≡ true
    → member p ps ≡ true
    → any_member qs ps ≡ true
unfolding any_member member
any_member-intro p [] ps h k = absurd (false≢true h)
any_member-intro p (q ∷ qs) ps h k = elim (Bool-cases (same_process p q)) [
  | inl e ↦ let m = member-same p q ps e in ground arith
  | inr e ↦ ground (arith, any_member-intro p qs ps)
]

any_running-any_member :
    (qs : List Process) (s : Sched) → IsExact s → any_running qs s.counts ≡ any_member qs s.running
unfolding any_running any_member
any_running-any_member [] s h = refl
any_running-any_member (q ∷ qs) s h =
    ap₂ (λ a b. a || b) (ap (λ c. ltb_ℤ (pos 0) c) (h q) ∙ occurrences-member q s.running)
      (any_running-any_member qs s h)

-- In any interleaving of calls that begin and end, sched_check for a process lets go of the lock just
-- when one of the calls that run at the time is of a kind that the process makes way for.
pub release_lock-Reachable :
    (s : Sched) (id : Process)
    → Reachable s
    → (release_lock id s.counts ≡ true)
      ↔ ((p : Process) × (member p (block_procs id) ≡ true) × (member p s.running ≡ true))
unfolding release_lock
release_lock-Reachable s id r =
    let e = any_running-any_member (block_procs id) s (Reachable-IsExact s r) in
    (
      λ h. any_member-elim (block_procs id) s.running (sym e ∙ h),
      λ (p, m, k). e ∙ any_member-intro p (block_procs id) s.running m k,
    )
