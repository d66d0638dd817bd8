-- ===== src/Identity/Pieces.antt =====
-- The upgrade data in pieces: out of one enclave (`store_large_data`) and into the next
-- (`id_restore_from_upgrade` in src/enclave/identity/Identity.cpp).
use crust_sworker.Prelude.{
  ℕ, zero, suc, ◌+◌, ◌≤◌, ◌<◌, ◌≡◌, refl, ap, sym, ◌∙◌, ◌==◌, arith, true, false, Bool, List, [],
  ◌∷◌, ◌++◌, some, Bool-cases, inl, inr, ltb, length, take, drop, replicate, take-min, drop-min,
  length-drop, length-append, length-replicate, take-append, take-append-drop, append_assoc,
  append-nil,
}
use crust_sworker.Status.{ocall_store_threshold}
use crust_sworker.Persistence.Pieces.{write_at-append, length-zero}
use crust_sworker.Identity.{
  large_parts, store_large_data, store_calls, ocall_store_upgrade_data, Transfer, Received, waiting,
  loaded, overflow, get_buffer, finish_transfer, put_part, receive,
}

-- The parts after the first one are appended.
large_parts_appended :
    (fuel : ℕ) (rest kept : List ℕ)
    → length rest ≤ fuel
    → store_calls (large_parts fuel false rest) kept ≡ kept ++ rest
unfolding large_parts store_calls ocall_store_upgrade_data
large_parts_appended zero [] kept h = sym (append-nil kept)
large_parts_appended zero (x ∷ xs) kept h = absurd (omega arith)
large_parts_appended (suc fuel) [] kept h = sym (append-nil kept)
large_parts_appended (suc fuel) (x ∷ xs) kept h =
    let rest : List ℕ = x ∷ xs in
    let l = length-drop ocall_store_threshold rest in
    let part = take ocall_store_threshold rest in
    rw
      (
        store_calls,
        large_parts,
        take-min ocall_store_threshold rest,
        drop-min ocall_store_threshold rest,
      )
      (large_parts_appended fuel (drop ocall_store_threshold rest) (kept ++ part) (omega (arith, l))
        ∙ append_assoc kept part (drop ocall_store_threshold rest)
        ∙ ap (λ t. kept ++ t) (take-append-drop ocall_store_threshold rest))

-- The first part takes the place of what was kept.
large_parts_covered :
    (fuel : ℕ) (rest kept : List ℕ)
    → length rest ≤ fuel
    → 0 < length rest
    → store_calls (large_parts fuel true rest) kept ≡ rest
unfolding large_parts store_calls ocall_store_upgrade_data
large_parts_covered zero rest kept h pos = absurd (omega arith)
large_parts_covered (suc fuel) [] kept h pos = absurd (omega arith)
large_parts_covered (suc fuel) (x ∷ xs) kept h pos =
    let rest : List ℕ = x ∷ xs in
    let l = length-drop ocall_store_threshold rest in
    rw
      (
        store_calls,
        large_parts,
        take-min ocall_store_threshold rest,
        drop-min ocall_store_threshold rest,
      )
      (large_parts_appended fuel (drop ocall_store_threshold rest) (take ocall_store_threshold rest)
          (omega (arith, l))
        ∙ take-append-drop ocall_store_threshold rest)

one_part : (bytes kept : List ℕ) → store_calls ((bytes, true) ∷ []) kept ≡ bytes
unfolding store_calls ocall_store_upgrade_data
one_part bytes kept = refl

-- After the calls of store_large_data the application keeps exactly the given data, of any size, whatever
-- it kept before.
pub store_calls-store_large_data :
    (bytes kept : List ℕ) → store_calls (store_large_data bytes) kept ≡ bytes
unfolding store_large_data
store_calls-store_large_data bytes kept =
    elim (Bool-cases (ltb ocall_store_threshold (length bytes))) [
      | inl e ↦ rw e (large_parts_covered (length bytes) bytes kept (omega arith) (ground arith))
      | inr e ↦ rw e (one_part bytes kept)
    ]

-- Some transfers, the last of which says that it is the last.
unfoldable pub receive_all : ℕ → List ℕ → List (List ℕ) → Transfer → Received
receive_all total_size bytes [] g = receive true bytes total_size true g
receive_all total_size bytes (next ∷ more) g = elim (receive true bytes total_size false g) [
  | waiting status g' ↦ receive_all total_size next more g'
  | loaded text g' ↦ loaded text g'
  | overflow ↦ overflow
]

unfoldable pub joined : List (List ℕ) → List ℕ
joined [] = []
joined (part ∷ parts) = part ++ joined parts

abbrev pub no_transfer : Transfer
no_transfer = record { buffer = []; offset = 0 }

-- The bytes so far are at the front of the buffer that the next ones go to.
Holding : ℕ → Transfer → List ℕ → List ℕ → Type 0
Holding total_size g pre z =
    (g.offset ≡ length pre)
    × (get_buffer true total_size g ≡ some (pre ++ z))
    × (length pre + length z ≡ total_size)

Holding-size :
    (total_size : ℕ) (g : Transfer) (pre z : List ℕ)
    → Holding total_size g pre z
    → length pre + length z ≡ total_size
unfolding Holding
Holding-size total_size g pre z h = h.2

-- Where the bytes go, with those before them.
put_part_at :
    (total_size : ℕ) (g : Transfer) (bytes pre z : List ℕ) (transfer_end : Bool)
    → Holding total_size g pre z
    → length bytes ≤ length z
    → receive true bytes total_size transfer_end g
      ≡ finish_transfer
          (length (pre ++ bytes))
          transfer_end
          (some (pre ++ bytes ++ drop (length bytes) z))
unfolding receive put_part Holding
put_part_at total_size g bytes pre z transfer_end (at, buffer, size) fits =
    rw
      (
        receive,
        buffer,
        put_part,
        at,
        write_at-append pre bytes z fits,
        sym (length-append pre bytes),
      )
      refl

-- After a part that is not the last one.
next_transfer : List ℕ → List ℕ → List ℕ → Transfer
next_transfer bytes pre z = record {
  buffer = pre ++ bytes ++ drop (length bytes) z;
  offset = length (pre ++ bytes);
}

next-Holding :
    (total_size : ℕ) (bytes pre z : List ℕ)
    → length pre + length z ≡ total_size
    → length bytes ≤ length z
    → (z' : List ℕ) × Holding total_size (next_transfer bytes pre z) (pre ++ bytes) z'
unfolding Holding get_buffer next_transfer
next-Holding total_size bytes pre z size fits =
    let l = length-append pre bytes in
    let d = length-drop (length bytes) z in
    elim (Bool-cases (length (pre ++ bytes) == 0)) [
      | inl e ↦
          let n : length (pre ++ bytes) ≡ 0 = ground arith in
          let r = length-replicate {A = ℕ} total_size 0 in
          (
            replicate total_size 0,
            (
              refl,
              rw e (
                  ap (λ t. some (t ++ replicate total_size 0))
                    (sym (length-zero (pre ++ bytes) n))),
              omega (arith, n, r),
            ),
          )
      | inr e ↦ (drop (length bytes) z, (refl, rw e refl, omega (arith, l, d)))
    ]

receive_all-joined :
    (total_size : ℕ) (bytes : List ℕ) (parts : List (List ℕ)) (g : Transfer) (pre z : List ℕ)
    → Holding total_size g pre z
    → length bytes + length (joined parts) ≤ length z
    → receive_all total_size bytes parts g ≡ loaded (pre ++ bytes ++ joined parts) no_transfer
unfolding receive_all joined finish_transfer next_transfer
receive_all-joined total_size bytes [] g pre z h fits =
    put_part_at total_size g bytes pre z true h (omega arith)
    ∙ ap (λ t. loaded t no_transfer)
        (take-append (length (pre ++ bytes)) (pre ++ bytes) (drop (length bytes) z) refl
          ∙ sym (append-nil (pre ++ bytes)))
receive_all-joined total_size bytes (next ∷ more) g pre z h fits =
    let e = put_part_at total_size g bytes pre z false h (omega (arith, fits)) in
    let size = Holding-size total_size g pre z h in
    let (z', h') = next-Holding total_size bytes pre z size (omega arith) in
    let l = length-append next (joined more) in
    let room = Holding-size total_size (next_transfer bytes pre z) (pre ++ bytes) z' h' in
    rw (receive_all, e)
      (receive_all-joined total_size next more (next_transfer bytes pre z) (pre ++ bytes) z' h'
          (omega (arith, l, room, size, length-append pre bytes))
        ∙ ap (λ t. loaded t no_transfer) (append_assoc (pre ++ bytes) next (joined more)))

-- Data that come in any number of parts, one after the other into an enclave that awaits none, are loaded as
-- they are put together, and the enclave awaits none again; provided the announced size is at least
-- theirs and the allocations give buffers.
pub receive_all-loaded :
    (total_size : ℕ) (bytes : List ℕ) (parts : List (List ℕ))
    → length bytes + length (joined parts) ≤ total_size
    → receive_all total_size bytes parts no_transfer ≡ loaded (bytes ++ joined parts) no_transfer
unfolding Holding get_buffer
receive_all-loaded total_size bytes parts fits =
    let r = length-replicate {A = ℕ} total_size 0 in
    receive_all-joined total_size bytes parts no_transfer [] (replicate total_size 0)
      (refl, refl, omega (arith, r)) (omega (arith, r))
