-- ===== src/Srd/Metadata/Assigned.antt =====
-- The assigned space of each path against its G (`set_srd_info` in src/enclave/workload/Workload.cpp,
-- `srd_increase` and `srd_update_metadata` in src/enclave/srd/Srd.cpp).
use crust_sworker.Prelude.{
  ℕ, zero, suc, ◌+◌, ◌≤◌, ◌≡◌, refl, sym, ap, ◌∙◌, subst, ◌⊎◌, not, inl, inr, Bool, true, false,
  List, [], ◌∷◌, ◌++◌, arith, ◌==◌, if◌then◌else◌, length, length-append, Bool-cases, Option-cases,
}
use crust_sworker.Prelude.Int.{ℤ, pos, negsuc, ◌+ℤ◌, ltb_ℤ}
use crust_sworker.Prelude.Text.{Text, codes, text_eq, text_eq_sound}
use crust_sworker.Prelude.Map.{Map, lookup, update}
use crust_sworker.Prelude.Sorted.{
  IsSorted, value_or, lookup-update_same, lookup-update_other, update-IsSorted,
}
use crust_sworker.Status.{CrustStatus, crust_success}
use crust_sworker.Hex.{hexstring_safe}
use crust_sworker.Workload.{Workload, set_srd_info}
use crust_sworker.Crypto.{Crypto}
use crust_sworker.Srd.Increase.{
  Sealing, fill_leaves, finish_g, add_g, srd_increase, srd_rand_data_num,
}
use crust_sworker.Srd.{get_g_path}
use crust_sworker.Srd.Metadata.{
  back, pop_back, real_deleted_num, drop_hashs, drop_paths, srd_update_metadata,
}

abbrev pub hashs_of : Text → Workload → List (List ℕ)
hashs_of path wl = value_or [] (lookup path wl.srd_path2hashs)

abbrev pub assigned_of : Text → Workload → ℤ
assigned_of path wl = value_or (pos 0) (lookup path wl.srd_info)

-- The maps are sorted, and the assigned space of each path is the number of its G.
pub record Tracked (wl : Workload) : Type 0 where
  pub srd_sorted : IsSorted wl.srd_path2hashs
  pub info_sorted : IsSorted wl.srd_info
  pub tracks : (path : Text) → assigned_of path wl ≡ pos (length (hashs_of path wl))

-- A change of the hashes under a path by `f`, with the assigned space changed by `n`.
change_at : Text → (List (List ℕ) → List (List ℕ)) → ℤ → Workload → Workload
change_at path f n wl =
    set_srd_info path n (record wl { srd_path2hashs = update path [] f wl.srd_path2hashs })

change_at-Tracked :
    (path : Text) (f : List (List ℕ) → List (List ℕ)) (n : ℤ) (wl : Workload)
    → pos (length (hashs_of path wl)) +ℤ n ≡ pos (length (f (hashs_of path wl)))
    → Tracked wl
    → Tracked (change_at path f n wl)
unfolding change_at set_srd_info
change_at-Tracked path f n wl same t = record {
  srd_sorted = update-IsSorted path [] f wl.srd_path2hashs t.srd_sorted;
  info_sorted = update-IsSorted path (pos 0) _ wl.srd_info t.info_sorted;
  tracks = λ q. elim (Bool-cases (text_eq q path)) [
    | inr ne ↦
        rw
          (
            lookup-update_other q path (pos 0) (clamp n) wl.srd_info ne,
            lookup-update_other q path [] f wl.srd_path2hashs ne,
          )
          (t.tracks q)
    | inl e ↦
        rw
          (
            text_eq_sound q path e,
            lookup-update_same path (pos 0) (clamp n) wl.srd_info t.info_sorted,
            lookup-update_same path [] f wl.srd_path2hashs t.srd_sorted,
            t.tracks path,
            same,
          )
          (ground arith)
  ];
}
  where
    clamp : ℤ → ℤ → ℤ
    clamp change k = if ltb_ℤ (k +ℤ change) (pos 0) then pos 0 else k +ℤ change

length-pop_back :
    (k : ℕ) (hashs : List (List ℕ))
    → suc k ≤ length hashs
    → length (pop_back hashs) + 1 ≡ length hashs
unfolding pop_back
length-pop_back k [] h = absurd (omega arith)
length-pop_back k (x ∷ []) h = omega arith
length-pop_back k (x ∷ y ∷ hashs) h = omega (arith, length-pop_back 0 (y ∷ hashs) (omega arith))

down_one : (m n : ℕ) → m + 1 ≡ n → pos n +ℤ negsuc 0 ≡ pos m
unfolding ◌+ℤ◌
down_one m n h = ground arith

up_one : (n : ℕ) → pos n +ℤ pos 1 ≡ pos (n + 1)
unfolding ◌+ℤ◌
up_one n = ground arith

-- Nothing is added to the assigned space where a path only gets an empty entry.
touch : Text → Workload → Workload
touch path wl = record wl { srd_path2hashs = update path [] (λ h. h) wl.srd_path2hashs }

touch-Tracked : (path : Text) (wl : Workload) → Tracked wl → Tracked (touch path wl)
unfolding touch
touch-Tracked path wl t = record {
  srd_sorted = update-IsSorted path [] (λ h. h) wl.srd_path2hashs t.srd_sorted;
  info_sorted = t.info_sorted;
  tracks = λ q. elim (Bool-cases (text_eq q path)) [
    | inr ne ↦ rw (lookup-update_other q path [] (λ h. h) wl.srd_path2hashs ne) (t.tracks q)
    | inl e ↦
        rw
          (
            text_eq_sound q path e,
            lookup-update_same path [] (λ h. h) wl.srd_path2hashs t.srd_sorted,
          )
          (t.tracks path)
  ];
}

hashs_of-touch :
    (path : Text) (wl : Workload) → Tracked wl → hashs_of path (touch path wl) ≡ hashs_of path wl
unfolding touch
hashs_of-touch path wl t =
    ap (value_or []) (lookup-update_same path [] (λ h. h) wl.srd_path2hashs t.srd_sorted)

hashs_of-change_at :
    (path : Text) (f : List (List ℕ) → List (List ℕ)) (n : ℤ) (wl : Workload)
    → Tracked wl
    → hashs_of path (change_at path f n wl) ≡ f (hashs_of path wl)
unfolding change_at set_srd_info
hashs_of-change_at path f n wl t =
    ap (value_or []) (lookup-update_same path [] f wl.srd_path2hashs t.srd_sorted)

module _ (ocall_delete : Text → CrustStatus)
    (deletes : (path : Text) → ocall_delete path ≡ crust_success) where
  drop_hashs-Tracked :
      (k : ℕ) (path : Text) (wl : Workload)
      → k ≤ length (hashs_of path wl)
      → Tracked wl
      → Tracked (drop_hashs ocall_delete k path wl)
  unfolding drop_hashs change_at
  drop_hashs-Tracked zero path wl h t = t
  drop_hashs-Tracked (suc k) path wl h t =
      let shorter = length-pop_back k (hashs_of path wl) h in
      let wl' = change_at path pop_back (negsuc 0) wl in
      rw
        (drop_hashs, deletes (path ++ (codes "/" ++ hexstring_safe true (back (hashs_of path wl)))))
        (drop_hashs-Tracked k path wl'
          (omega (arith, shorter, ap length (hashs_of-change_at path pop_back (negsuc 0) wl t)))
          (change_at-Tracked path pop_back (negsuc 0) wl (down_one _ _ shorter) t))

  drop_paths-Tracked :
      (others : Workload → Workload) (dels : Map ℤ) (wl : Workload)
      → ((w : Workload) → Tracked w → Tracked (others w))
      → Tracked wl
      → Tracked (drop_paths ocall_delete others dels wl)
  unfolding drop_paths touch real_deleted_num
  drop_paths-Tracked others [] wl keeps t = t
  drop_paths-Tracked others ((path, n) ∷ dels) wl keeps t =
      let t' = keeps wl t in
      let k = real_deleted_num n (hashs_of path (others wl)) in
      drop_paths-Tracked others dels _ keeps (
        drop_hashs-Tracked k path (touch path (others wl))
          (omega (arith, ap length (hashs_of-touch path (others wl) t')))
          (touch-Tracked path (others wl) t'))

-- If every deletion on the disk succeeds, `srd_update_metadata` keeps the assigned space of each path equal
-- to the number of its G, whatever numbers it is told to drop, even negative ones or more than there are; the
-- other threads, where the lock is let go, keep this too.
pub srd_update_metadata-Tracked :
    {D : Type 0} (ocall_delete : Text → CrustStatus) (others : Workload → Workload)
    (persist_srd_info : Map ℤ → D → CrustStatus × D) (dels : Map ℤ) (wl : Workload) (db : D)
    → ((path : Text) → ocall_delete path ≡ crust_success)
    → ((w : Workload) → Tracked w → Tracked (others w))
    → Tracked wl
    → Tracked (srd_update_metadata ocall_delete others persist_srd_info dels wl db).0
unfolding srd_update_metadata
srd_update_metadata-Tracked ocall_delete others persist_srd_info dels wl db deletes keeps t =
    drop_paths-Tracked ocall_delete deletes others dels wl keeps t

add_g-Tracked :
    (path : Text) (hash : List ℕ) (wl : Workload) → Tracked wl → Tracked (add_g path hash wl)
unfolding add_g change_at
add_g-Tracked path hash wl t =
    change_at-Tracked path (λ h. h ++ (hash ∷ [])) (pos 1) wl
      (up_one (length (hashs_of path wl))
        ∙ ap pos (sym (length-append (hashs_of path wl) (hash ∷ []))))
      t

srd_increase_cases :
    (c : Crypto) (s : Sealing) (path : Text) (wl : Workload)
    → ((srd_increase c s path wl).1 ≡ wl)
      ⊎ ((hash : List ℕ) × ((srd_increase c s path wl).1 ≡ add_g path hash wl))
unfolding srd_increase finish_g
srd_increase_cases c s path wl = elim (Bool-cases s.base_buffer) [
  | inr p ↦ inl (rw (srd_increase, p) refl)
  | inl p ↦ elim (Bool-cases (s.dir_status == crust_success)) [
    | inr q ↦ inl (rw (srd_increase, p, q) refl)
    | inl q ↦ elim (Bool-cases s.hashs_buffer) [
      | inr r ↦ inl (rw (srd_increase, p, q, r) refl)
      | inl r ↦
          elim (Option-cases
            (fill_leaves c s.seal (get_g_path path s.now_index) srd_rand_data_num 0).0) [
              | inl e ↦ inl (rw (srd_increase, p, q, r, e) refl)
              | inr (hashs, e) ↦
                  rw (srd_increase, p, q, r, e) (ends s.hash_buffer s.hex_buffer (c.sha256 hashs))
            ]
    ]
  ]
]
  where
    ends :
        (a b : Bool) (hash : List ℕ)
        → ((if not a then wl else (if not b then wl else add_g path hash wl)) ≡ wl)
          ⊎ ((h : List ℕ) × ((if not a then wl else (if not b then wl else add_g path hash wl))
                ≡ add_g path h wl))
    ends false b hash = inl refl
    ends true false hash = inl refl
    ends true true hash = inr (hash, refl)

-- `srd_increase`, whether it succeeds or ends early, keeps the assigned space of each path equal to the
-- number of its G.
pub srd_increase-Tracked :
    (c : Crypto) (s : Sealing) (path : Text) (wl : Workload)
    → Tracked wl
    → Tracked (srd_increase c s path wl).1
srd_increase-Tracked c s path wl t = elim (srd_increase_cases c s path wl) [
  | inl e ↦ subst Tracked (sym e) t
  | inr (hash, e) ↦ subst Tracked (sym e) (add_g-Tracked path hash wl t)
]
