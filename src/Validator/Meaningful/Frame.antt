-- ===== src/Validator/Meaningful/Frame.antt =====
-- What a validation of the files keeps (`validate_meaningful_file` in
-- src/enclave/validator/Validator.cpp).
use crust_sworker.Prelude.{
  ℕ, zero, suc, ◌≡◌, ◌⊎◌, refl, sym, ap, ◌∙◌, subst, inl, inr, Bool, true, false, not, ◌||◌, List,
  [], ◌∷◌, ◌++◌, some, if◌then◌else◌, ◌==◌, Bool-cases, Option-cases, length, take, map, arith,
}
use crust_sworker.Prelude.Int.{ℤ, pos, to_int32}
use crust_sworker.Status.{CrustStatus, crust_success}
use crust_sworker.Crypto.{Crypto}
use crust_sworker.Workload.{
  Workload, FileEntry, FileStatus, valid, lost, unconfirmed, deleted, same_status, modify,
  set_wl_spec, set_wl_spec_related, set_report_file_flag,
}
use crust_sworker.Workload.Counts.Tally.{same_status-eq}
use crust_sworker.Storage.{set_current, is_current}
use crust_sworker.Validator.Meaningful.Block.{World, Verdict, passed, failed, offline, check_file}
use crust_sworker.Validator.Meaningful.{
  merge_new_files, file_at, apply_verdict, is_offline, check_files, count_changes,
  validate_meaningful_file, is_upgrade_done, check_file_num, sample_index,
}

-- Changes of a current status that include those between valid and lost.
pub record IsChange (R : FileStatus → FileStatus → Type 0) : Type 0 where
  pub stays : (a : FileStatus) → R a a
  pub twice : (a b d : FileStatus) → R a b → R b d → R a d
  pub loses : R valid lost
  pub recovers : R lost valid

module _ (R : FileStatus → FileStatus → Type 0) (Q : List FileEntry → Type 0) where
  -- The same file, but for such a change.
  pub SameFile : FileEntry → FileEntry → Type 0
  SameFile e f = (now : FileStatus) × R e.status.current now × (f ≡ set_current now e)

  unfoldable pub SameFiles : List FileEntry → List FileEntry → Type 0
  SameFiles [] [] = Unit
  SameFiles [] (y ∷ ys) = ⊥
  SameFiles (x ∷ xs) [] = ⊥
  SameFiles (x ∷ xs) (y ∷ ys) = SameFile x y × SameFiles xs ys

  -- What a step keeps of the workload.
  unfoldable pub Keeps : Workload → Workload → Type 0
  Keeps wl after =
      SameFiles wl.checked_files after.checked_files
      × (after.reported_files_idx ≡ wl.reported_files_idx)
      × (Q wl.new_files → Q after.new_files)

  module _ (ok : IsChange R) where
    SameFiles-refl : (xs : List FileEntry) → SameFiles xs xs
    unfolding SameFiles SameFile set_current
    SameFiles-refl [] = tt
    SameFiles-refl (x ∷ xs) =
        ((x.status.current, ok.stays x.status.current, refl), SameFiles-refl xs)

    SameFile-trans : (x y z : FileEntry) → SameFile x y → SameFile y z → SameFile x z
    unfolding SameFile set_current
    SameFile-trans x y z (a, r, e) (b, r', e') = (
      b,
      ok.twice x.status.current a b r (subst (λ f. R f.status.current b) e r'),
      e' ∙ ap (set_current b) e,
    )

    SameFiles-trans :
        (xs ys zs : List FileEntry) → SameFiles xs ys → SameFiles ys zs → SameFiles xs zs
    unfolding SameFiles
    SameFiles-trans [] [] zs h k = k
    SameFiles-trans [] (y ∷ ys) zs h k = absurd h
    SameFiles-trans (x ∷ xs) [] zs h k = absurd h
    SameFiles-trans (x ∷ xs) (y ∷ ys) [] h k = absurd k
    SameFiles-trans (x ∷ xs) (y ∷ ys) (z ∷ zs) (f, h) (g, k) =
        (SameFile-trans x y z f g, SameFiles-trans xs ys zs h k)

    -- A change of the file at an index.
    SameFiles-modify :
        (i : ℕ) (now : FileStatus) (xs : List FileEntry) (e : FileEntry)
        → file_at i xs ≡ some e
        → R e.status.current now
        → SameFiles xs (modify i (set_current now) xs)
    unfolding modify file_at SameFiles SameFile set_current
    SameFiles-modify i now [] e q r = tt
    SameFiles-modify zero now (x ∷ xs) e q r =
        let same : x ≡ e = ground arith in
        (
          (now, subst (λ (f : FileEntry). R f.status.current now) (sym same) r, refl),
          SameFiles-refl xs,
        )
    SameFiles-modify (suc i) now (x ∷ xs) e q r =
        ((x.status.current, ok.stays x.status.current, refl), SameFiles-modify i now xs e q r)

    pub Keeps-refl : (wl : Workload) → Keeps wl wl
    unfolding Keeps
    Keeps-refl wl = (SameFiles-refl wl.checked_files, refl, λ q. q)

    Keeps-trans : (a b c : Workload) → Keeps a b → Keeps b c → Keeps a c
    unfolding Keeps
    Keeps-trans a b c (h, i, q) (k, j, p) = (SameFiles-trans _ _ _ h k, j ∙ i, λ x. p (q x))

    apply_verdict-Keeps :
        (v : Verdict) (i : ℕ) (e : FileEntry) (changed : List (ℕ × Bool)) (wl : Workload)
        → file_at i wl.checked_files ≡ some e
        → Keeps wl (apply_verdict v i e changed wl).1
    unfolding apply_verdict is_current Keeps
    apply_verdict-Keeps passed i e changed wl q =
        elim (Bool-cases (same_status e.status.current lost)) [
          | inr h ↦ rw (apply_verdict, h) (Keeps-refl wl)
          | inl h ↦
              let was = same_status-eq e.status.current lost h in
              rw (apply_verdict, h)
                (
                  SameFiles-modify i valid wl.checked_files e q
                      (subst (λ a. R a valid) (sym was) ok.recovers),
                  refl,
                  λ p. p,
                )
        ]
    apply_verdict-Keeps failed i e changed wl q =
        elim (Bool-cases (same_status e.status.current valid)) [
          | inr h ↦ rw (apply_verdict, h) (Keeps-refl wl)
          | inl h ↦
              let was = same_status-eq e.status.current valid h in
              rw (apply_verdict, h)
                (
                  SameFiles-modify i lost wl.checked_files e q
                      (subst (λ a. R a lost) (sym was) ok.loses),
                  refl,
                  λ p. p,
                )
        ]
    apply_verdict-Keeps offline i e changed wl q = Keeps-refl wl

    set_wl_spec_related-Keeps :
        (a b : FileStatus) (n : ℤ) (wl : Workload) → Keeps wl (set_wl_spec_related a b n wl)
    unfolding set_wl_spec_related set_wl_spec Keeps
    set_wl_spec_related-Keeps a b n wl = elim (Bool-cases (same_status a b)) [
      | inl h ↦ rw (set_wl_spec_related, h) (Keeps-refl wl)
      | inr h ↦ rw (set_wl_spec_related, h) (Keeps-refl wl)
    ]

    count_changes-Keeps :
        (changed : List (ℕ × Bool)) (wl : Workload) → Keeps wl (count_changes changed wl)
    unfolding count_changes
    count_changes-Keeps [] wl = Keeps-refl wl
    count_changes-Keeps ((i, b) ∷ rest) wl = elim (Option-cases (file_at i wl.checked_files)) [
      | inl q ↦ rw (count_changes, q) (count_changes-Keeps rest wl)
      | inr (e, q) ↦
          let old = if b then valid else lost in
          let wl' = set_wl_spec_related e.status.current old (to_int32 (pos e.old_size)) wl in
          rw (count_changes, q)
            (Keeps-trans wl wl' (count_changes rest wl')
              (set_wl_spec_related-Keeps e.status.current old (to_int32 (pos e.old_size)) wl)
              (count_changes-Keeps rest wl'))
    ]

    module _ (c : Crypto) (others : Workload → Workload)
        (keeps : (w : Workload) → Keeps w (others w)) where
      check_files-Keeps :
          (sample : List (ℕ × World)) (changed : List (ℕ × Bool)) (wl : Workload)
          → Keeps wl (check_files c others sample changed wl).2
      unfolding check_files
      check_files-Keeps [] changed wl = Keeps-refl wl
      check_files-Keeps ((i, w) ∷ rest) changed wl =
          let wl' = others wl in
          let on = λ (now : Workload) (ch : List (ℕ × Bool)) (h : Keeps wl now).
            Keeps-trans wl now (check_files c others rest ch now).2 h
              (check_files-Keeps rest ch now) in
          elim (Option-cases (file_at i wl'.checked_files)) [
            | inl q ↦ rw (check_files, q) (on wl' changed (keeps wl))
            | inr (e, q) ↦ elim (Bool-cases (is_current unconfirmed e || is_current deleted e)) [
              | inl skip ↦ rw (check_files, q, skip) (on wl' changed (keeps wl))
              | inr checked ↦ elim (Bool-cases (is_offline (check_file c w e))) [
                | inl off ↦ rw (check_files, q, checked, off) (keeps wl)
                | inr onl ↦
                    let v = check_file c w e in
                    let r = apply_verdict v i e changed wl' in
                    rw (check_files, q, checked, onl)
                      (on r.1 r.0 (
                        Keeps-trans wl wl' r.1 (keeps wl)
                          (apply_verdict-Keeps v i e changed wl' q)))
              ]
            ]
          ]

      -- From the merged files on.
      validate_meaningful_file-merged :
          (init_status : CrustStatus) (draws : List (ℕ × World)) (wl : Workload)
          → is_upgrade_done wl.upgrade_status ≡ false
          → Keeps (merge_new_files wl) (validate_meaningful_file c others init_status draws wl)
      unfolding validate_meaningful_file set_report_file_flag Keeps
      validate_meaningful_file-merged init_status draws wl active =
          let wl' = merge_new_files wl in
          let n = length wl'.checked_files in
          elim (Bool-cases (not (init_status == crust_success))) [
            | inl no_init ↦ elim (Bool-cases (not (n == 0))) [
              | inl some_files ↦
                  rw (validate_meaningful_file, active, no_init, some_files) (Keeps-refl wl')
              | inr none_there ↦
                  rw (validate_meaningful_file, active, no_init, none_there) (Keeps-refl wl')
            ]
            | inr ready ↦
                let sample = map (sample_index n) (take (check_file_num n) draws) in
                let r = check_files c others sample [] wl' in
                let k = check_files-Keeps sample [] wl' in
                elim (Bool-cases r.0) [
                  | inl off ↦ rw (validate_meaningful_file, active, ready, off) k
                  | inr onl ↦
                      rw (validate_meaningful_file, active, ready, onl)
                        (Keeps-trans wl' r.2 (count_changes r.1 r.2) k
                          (count_changes-Keeps r.1 r.2))
                ]
          ]

-- A validation of the files in an enclave that has been upgraded changes nothing. In another one,
-- whatever it finds, even if the storage service is not there or goes offline: the checked files are
-- afterwards the files that were checked, then those that were new, each in its place with all that it
-- had but the current status, which changed by `R` only, for any reflexive and transitive `R` that has the
-- changes from valid to lost and back; the indexes that the last report is to commit stay; and the list of
-- new files has any `Q` that an empty list has. The other threads, where the lock is let go, keep all
-- this too.
pub validate_meaningful_file-Keeps :
    (R : FileStatus → FileStatus → Type 0) (Q : List FileEntry → Type 0) (c : Crypto)
    (others : Workload → Workload) (init_status : CrustStatus) (draws : List (ℕ × World))
    (wl : Workload)
    → IsChange R
    → ((w : Workload) → Keeps R Q w (others w))
    → Q []
    → let after = validate_meaningful_file c others init_status draws wl in
      ((is_upgrade_done wl.upgrade_status ≡ true) × (after ≡ wl))
      ⊎ ((is_upgrade_done wl.upgrade_status ≡ false)
          × SameFiles R Q (wl.checked_files ++ wl.new_files) after.checked_files
          × (after.reported_files_idx ≡ wl.reported_files_idx)
          × Q after.new_files)
unfolding validate_meaningful_file merge_new_files Keeps
validate_meaningful_file-Keeps R Q c others init_status draws wl ok keeps empty =
    elim (Bool-cases (is_upgrade_done wl.upgrade_status)) [
      | inl done ↦ inl (done, rw (validate_meaningful_file, done) refl)
      | inr active ↦
          let (files, idx, new) =
            validate_meaningful_file-merged R Q ok c others keeps init_status draws wl active in
          inr (active, files, idx, new empty)
    ]
