-- ===== src/Persistence.antt =====
-- src/enclave/persistence/Persistence.cpp, with remove_char and seal_data_mrenclave of
-- src/enclave/utils/EUtils.cpp: values of the enclave in the database. A value above
-- OCALL_STORE_THRESHOLD is stored in pieces, under its key with `_0`, `_1` and so on, and their number
-- and the size under its key with `_sum`.
pub mod PieceKeys
pub mod Pieces
pub mod Found
pub mod Sealed
pub mod Unsafe
pub mod Samples
mod Tests
use crust_sworker.Prelude.{
  ℕ, zero, suc, ◌+◌, ◌%◌, ◌^◌, ◌≡◌, Bool, true, false, List, [], ◌∷◌, ◌++◌, Option, none, some, leb,
  ltb, ◌==◌, if◌then◌else◌, length, take, drop, replicate, min,
}
use crust_sworker.Prelude.Text.{Text, codes}
use crust_sworker.Prelude.Decimal.{to_string}
use crust_sworker.Status.{
  CrustStatus, crust_success, crust_malloc_failed, crust_seal_data_failed, crust_unseal_data_failed,
  ocall_store_threshold,
}
use crust_sworker.Crypto.{Sealer}
use crust_sworker.Database.{
  LevelDb, ocall_persist_add, ocall_persist_set, ocall_persist_get, ocall_persist_del,
  ocall_free_outer_buffer,
}
use crust_sworker.Database.Keys.{JsonObject, ocall_persist_add_keys, ocall_persist_del_keys}

-- `remove_char` of EUtils.cpp
unfoldable pub remove_char : ℕ → Text → Text
remove_char c [] = []
remove_char c (x ∷ xs) = let rest = remove_char c xs in if x == c then rest else x ∷ rest

-- What a piece information text goes through before it is stored.
unfoldable pub compact : Text → Text
unfolding remove_char
compact text = remove_char b' ' (remove_char b'\n' (remove_char b'\\' text))

-- The JSON library on an object with PERSIST_SUM and PERSIST_SIZE: what it writes for a number of
-- pieces and a size, and what it reads. It reads its own text back, without the blanks as well.
pub record SumJson : Type 0 where
  pub dump : ℕ → ℕ → Text
  pub load : Text → ℕ × ℕ
  pub load-dump : (sum size : ℕ) → load (compact (dump sum size)) ≡ (sum, size)

-- Whether each allocation of a call gives a buffer: that of `inner_ocall_persist_get` for a key, that of
-- the whole data, that of the unsealed data, and the two of `seal_data_mrenclave`.
pub record Memory : Type 0 where
  pub copy : Text → Bool
  pub whole : Bool
  pub plain : Bool
  pub sealed : Bool
  pub test : Bool

-- `key + "_" + std::to_string(index)` and `key + "_sum"`
unfoldable pub piece_key : Text → ℕ → Text
piece_key key index = key ++ (b'_' ∷ to_string index)

unfoldable pub sum_key : Text → Text
sum_key key = key ++ codes "_sum"

-- `seal_data_mrenclave` of EUtils.cpp, with the allocation for a test in `Sgx_seal_data_ex`.
unfoldable pub seal_data_mrenclave : Sealer → Memory → List ℕ → CrustStatus × List ℕ
seal_data_mrenclave z mem src =
    if mem.sealed
    then (if mem.test
        then (elim (z.seal src) [
          | none ↦ (crust_seal_data_failed, [])
          | some sealed ↦ (crust_success, sealed)
        ])
        else (crust_seal_data_failed, []))
    else (crust_malloc_failed, [])

-- A copy of `part` to the buffer at `offset`; `none` where it does not fit, a write out of bounds.
unfoldable pub write_at : ℕ → List ℕ → List ℕ → Option (List ℕ)
write_at offset part buffer =
    if leb (offset + length part) (length buffer)
    then some (take offset buffer ++ part ++ drop (offset + length part) buffer)
    else none

-- The result of a read: a status with the value, if any is set, or a write out of bounds on the way.
pub data Got : Type 0 where
  got : CrustStatus → Option (List ℕ) → Got
  overrun : Got

module _ (L : LevelDb) where
  unfoldable pub persist_add : Sealer → Memory → Text → List ℕ → L.State → CrustStatus × L.State
  unfolding seal_data_mrenclave ocall_persist_add
  persist_add z mem key value s =
      let r = seal_data_mrenclave z mem value in
      if r.0 == crust_success then ocall_persist_add L key r.1 s else (r.0, s)

  unfoldable pub persist_add_keys_unsafe :
      JsonObject → Text → Text → L.State → CrustStatus × L.State
  unfolding ocall_persist_add_keys
  persist_add_keys_unsafe O = ocall_persist_add_keys O L

  unfoldable pub persist_del_keys_unsafe :
      JsonObject → Text → Text → L.State → CrustStatus × L.State
  unfolding ocall_persist_del_keys
  persist_del_keys_unsafe O = ocall_persist_del_keys O L

  unfoldable pub persist_del : Text → L.State → CrustStatus × L.State
  unfolding ocall_persist_del
  persist_del = ocall_persist_del L

  unfoldable pub inner_ocall_persist_get : Memory → Text → L.State → CrustStatus × List ℕ
  unfolding ocall_persist_get
  inner_ocall_persist_get mem key s =
      let r = ocall_persist_get L key s in
      if r.0 == crust_success
      then (if mem.copy key then (ocall_free_outer_buffer, r.1) else (crust_malloc_failed, []))
      else (r.0, [])

  -- `for (uint32_t i = 0; i < piece_num; i++) persist_del(…)`, from `i` on.
  unfoldable pub del_pieces : Text → ℕ → ℕ → L.State → L.State
  unfolding persist_del piece_key
  del_pieces key i zero s = s
  del_pieces key i (suc n) s = del_pieces key (suc i) n (persist_del (piece_key key i) s).1

  -- "Delete old data"
  unfoldable pub del_old : SumJson → Memory → Text → L.State → L.State
  unfolding inner_ocall_persist_get sum_key del_pieces
  del_old J mem key s =
      let r = inner_ocall_persist_get mem (sum_key key) s in
      if r.0 == crust_success
      then (persist_del (sum_key key) (del_pieces key 0 ((J.load r.1).0 % 2 ^ 32) s)).1
      else s

  -- The pieces of the data that is left, from `index` on; stops at a failure. The result is the
  -- status and the next index. The fuel is above the length, and each piece has a byte at least.
  unfoldable pub set_parts : ℕ → Text → ℕ → List ℕ → L.State → CrustStatus × ℕ × L.State
  unfolding ocall_persist_set piece_key
  set_parts zero key index rest s = (crust_success, index, s)
  set_parts (suc fuel) key index [] s = (crust_success, index, s)
  set_parts (suc fuel) key index (b ∷ bs) s =
      let part_size = min (length (b ∷ bs) % 2 ^ 32) ocall_store_threshold in
      let r = ocall_persist_set L (piece_key key index) (take part_size (b ∷ bs)) s in
      let more = set_parts fuel key (suc index) (drop part_size (b ∷ bs)) r.1 in
      if r.0 == crust_success then more else (r.0, index, r.1)

  unfoldable pub set_sum : SumJson → Text → ℕ → ℕ → L.State → CrustStatus × L.State
  unfolding ocall_persist_set sum_key compact
  set_sum J key index size s = ocall_persist_set L (sum_key key) (compact (J.dump index size)) s

  -- `persist_set` after the value is sealed.
  unfoldable pub set_sealed : SumJson → Memory → Text → List ℕ → L.State → CrustStatus × L.State
  unfolding set_parts set_sum del_old ocall_persist_set
  set_sealed J mem key sealed s =
      let n = length sealed in
      if ltb ocall_store_threshold n
      then (let p = set_parts n key 0 sealed s in
          if p.0 == crust_success then set_sum J key p.1 n p.2 else (p.0, p.2))
      else ocall_persist_set L key sealed (del_old J mem key s)

  unfoldable pub persist_set :
      SumJson → Sealer → Memory → Text → List ℕ → L.State → CrustStatus × L.State
  unfolding seal_data_mrenclave set_sealed
  persist_set J z mem key value s =
      let r = seal_data_mrenclave z mem value in
      if r.0 == crust_success then set_sealed J mem key r.1 s else (r.0, s)

  -- The loop of `persist_set_unsafe`, which goes on after a failure.
  unfoldable pub set_parts_unsafe : ℕ → Text → ℕ → List ℕ → L.State → ℕ × L.State
  unfolding ocall_persist_set piece_key
  set_parts_unsafe zero key index rest s = (index, s)
  set_parts_unsafe (suc fuel) key index [] s = (index, s)
  set_parts_unsafe (suc fuel) key index (b ∷ bs) s =
      let part_size = min (length (b ∷ bs)) ocall_store_threshold in
      let r = ocall_persist_set L (piece_key key index) (take part_size (b ∷ bs)) s in
      set_parts_unsafe fuel key (suc index) (drop part_size (b ∷ bs)) r.1

  unfoldable pub persist_set_unsafe :
      SumJson → Memory → Text → List ℕ → L.State → CrustStatus × L.State
  unfolding set_parts_unsafe set_sum del_old ocall_persist_set
  persist_set_unsafe J mem key value s =
      if ltb ocall_store_threshold (length value)
      then (let p = set_parts_unsafe (length value) key 0 value s in
          set_sum J key p.0 (length value) p.1)
      else ocall_persist_set L key value (del_old J mem key s)

  -- The loop of `persist_get` over the pieces from `i` on.
  unfoldable pub get_parts : Memory → Text → ℕ → ℕ → ℕ → List ℕ → L.State → Got
  unfolding inner_ocall_persist_get piece_key write_at
  get_parts mem key i zero offset buffer s = got crust_success (some buffer)
  get_parts mem key i (suc n) offset buffer s =
      let r = inner_ocall_persist_get mem (piece_key key i) s in
      if r.0 == crust_success
      then (elim (write_at offset r.1 buffer) [
        | none ↦ overrun
        | some buffer' ↦ get_parts mem key (suc i) n (offset + length r.1) buffer' s
      ])
      else got r.0 none

  -- The sealed data of `persist_get`, with the status that ends the call where there is none.
  unfoldable pub get_sealed : SumJson → Memory → Text → L.State → Got
  unfolding inner_ocall_persist_get sum_key get_parts
  get_sealed J mem key s =
      let r = inner_ocall_persist_get mem (sum_key key) s in
      if r.0 == crust_success
      then (let (sum, size) = J.load r.1 in
          if mem.whole
          then get_parts mem key 0 (sum % 2 ^ 32) 0 (replicate size 0) s
          else got crust_malloc_failed none)
      else (let r' = inner_ocall_persist_get mem key s in
          if r'.0 == crust_success
          then (if mem.whole then got crust_success (some r'.1) else got crust_malloc_failed none)
          else got r'.0 none)

  -- The end of `persist_get`: without a buffer the status stays success and no value is set.
  unfoldable pub unseal_got : Sealer → Memory → Got → Got
  unseal_got z mem overrun = overrun
  unseal_got z mem (got status none) = got status none
  unseal_got z mem (got status (some sealed)) =
      if mem.plain
      then (elim (z.unseal sealed) [
        | none ↦ got crust_unseal_data_failed none
        | some value ↦ got status (some value)
      ])
      else got status none

  unfoldable pub persist_get : SumJson → Sealer → Memory → Text → L.State → Got
  unfolding get_sealed unseal_got
  persist_get J z mem key s = unseal_got z mem (get_sealed J mem key s)

  -- The loop of `persist_get_unsafe`: a piece that cannot be read adds nothing, and `status` becomes
  -- that of the piece.
  unfoldable pub get_parts_unsafe : Memory → Text → ℕ → ℕ → ℕ → List ℕ → CrustStatus → L.State → Got
  unfolding inner_ocall_persist_get piece_key write_at
  get_parts_unsafe mem key i zero offset buffer status s = got status (some buffer)
  get_parts_unsafe mem key i (suc n) offset buffer status s =
      let r = inner_ocall_persist_get mem (piece_key key i) s in
      elim (write_at offset r.1 buffer) [
        | none ↦ overrun
        | some buffer' ↦ get_parts_unsafe mem key (suc i) n (offset + length r.1) buffer' r.0 s
      ]

  unfoldable pub persist_get_unsafe : SumJson → Memory → Text → L.State → Got
  unfolding inner_ocall_persist_get sum_key get_parts_unsafe
  persist_get_unsafe J mem key s =
      let r = inner_ocall_persist_get mem (sum_key key) s in
      if r.0 == crust_success
      then (let (sum, size) = J.load r.1 in
          if mem.whole
          then get_parts_unsafe mem key 0 (sum % 2 ^ 32) 0 (replicate size 0) crust_success s
          else got crust_malloc_failed none)
      else (let r' = inner_ocall_persist_get mem key s in
          if r'.0 == crust_success
          then (if mem.whole then got crust_success (some r'.1) else got crust_malloc_failed none)
          else got r'.0 none)
