-- ===== src/Validator/Meaningful/Block.antt =====
-- The check of one file: its tree, and a block of it (src/enclave/validator/Validator.cpp, lines 290
-- to 417).
use crust_sworker.Prelude.{
  ℕ, zero, suc, ◌+◌, ◌-◌, ◌%◌, Bool, true, false, not, List, [], ◌∷◌, ◌++◌, Option, none, some, ltb,
  ◌==◌, if◌then◌else◌, length, take, drop,
}
use crust_sworker.Prelude.Text.{Text, codes, text_eq}
use crust_sworker.Prelude.Decimal.{to_string}
use crust_sworker.Status.{CrustStatus, crust_success, crust_validate_karst_offline, hash_length}
use crust_sworker.Crypto.{Crypto}
use crust_sworker.Hex.{hexstring_safe, hex_string_to_bytes}
use crust_sworker.Workload.{FileEntry}

-- What the check of a file meets: the tree stored under a hash, whether the tree's text loads as a
-- valid Merkle tree with that root hash, the blocks of the storage service, the random number.
pub record World : Type 0 where
  pub persist_get : Text → CrustStatus × Option Text
  pub is_valid_tree : Text → Text → Bool
  pub get_block : Text → Text → CrustStatus × List ℕ
  pub rand_val : ℕ

pub data Verdict : Type 0 where
  passed failed offline : Verdict

unfoldable pub starts_with : Text → Text → Bool
unfolding text_eq
starts_with tag s = text_eq (take (length tag) s) tag

-- `s.find(tag)`, at `i` or after it, for the rest `s` of the text from `i` on.
unfoldable pub find_in : Text → Text → ℕ → Option ℕ
unfolding starts_with
find_in tag [] i = none
find_in tag (x ∷ s) i = elim (starts_with tag (x ∷ s)) [
  | true ↦ some i
  | false ↦ find_in tag s (i + 1)
]

unfoldable pub find : Text → Text → ℕ → Option ℕ
unfolding find_in
find s tag start = find_in tag (drop start s) start

-- `stag` and `etag`
abbrev pub stag : Text
stag = codes "\"links_num\":0,\"hash\":\""

abbrev pub etag : Text
etag = codes "\",\"size\""

-- The `do` loop: `spos` past the next tag until that of the wanted leaf, and `cur_block_idx`. It goes
-- round at most once for each index up to the wanted one; that is the fuel.
unfoldable pub seek : ℕ → Text → ℕ → ℕ → ℕ → Option (ℕ × ℕ)
unfolding find
seek zero tree spos cur wanted = none
seek (suc fuel) tree spos cur wanted = elim (find tree stag spos) [
  | none ↦ none
  | some p ↦ elim (ltb cur wanted) [
    | true ↦ seek fuel tree (p + length stag) (cur + 1) wanted
    | false ↦ some (p + length stag, cur + 1)
  ]
]

-- The block of a leaf; `none` for a leaf hash that is no hexadecimal text, which is skipped.
unfoldable pub check_block : Crypto → World → Text → ℕ → Text → Option Verdict
unfolding text_eq hex_string_to_bytes
check_block c w root_hash index leaf_hash =
    let (status, block) = w.get_block root_hash (to_string index ++ (codes "_" ++ leaf_hash)) in
    if not (status == crust_success)
    then some (if status == crust_validate_karst_offline then offline else failed)
    else (elim (hex_string_to_bytes true leaf_hash) [
      | none ↦ none
      | some bytes ↦
          some (if text_eq (take hash_length bytes) (c.sha256 block) then passed else failed)
    ])

-- The loop over `block_idx_s`.
unfoldable pub check_blocks : Crypto → World → Text → Text → List ℕ → ℕ → ℕ → Verdict
unfolding seek find check_block
check_blocks c w root_hash tree [] spos cur = passed
check_blocks c w root_hash tree (index ∷ rest) spos cur =
    elim (seek (index + 1) tree spos cur index) [
      | none ↦ failed
      | some (spos', cur') ↦ elim (find tree etag spos') [
        | none ↦ failed
        | some epos ↦
            elim (check_block c w root_hash index (take (epos - spos') (drop spos' tree))) [
              | none ↦ check_blocks c w root_hash tree rest spos' cur'
              | some failed ↦ failed
              | some offline ↦ offline
              | some passed ↦ check_blocks c w root_hash tree rest epos cur'
            ]
      ]
    ]

-- `block_idx_s`, for MEANINGFUL_VALIDATE_MIN_BLOCK_NUM = 1: one index, if there are blocks.
unfoldable pub block_indexes : ℕ → ℕ → List ℕ
block_indexes rand_val block_num = if block_num == 0 then [] else (rand_val % block_num) ∷ []

-- The whole check of one file.
unfoldable pub check_file : Crypto → World → FileEntry → Verdict
unfolding check_blocks block_indexes
check_file c w e =
    let root_hash = hexstring_safe true e.hash in
    let (status, data_) = w.persist_get root_hash in
    if not (status == crust_success) then failed else (elim data_ [
      | none ↦ failed
      | some tree ↦
          if not (w.is_valid_tree root_hash tree)
          then failed
          else check_blocks c w root_hash tree (block_indexes w.rand_val e.block_num) 0 0
    ])
