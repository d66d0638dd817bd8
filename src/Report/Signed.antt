-- ===== src/Report/Signed.antt =====
-- The values of a work report, the signed buffer and the text (src/enclave/report/Report.cpp).
use crust_sworker.Prelude.{
  ℕ, zero, suc, ◌+◌, ◌*◌, ◌%◌, ◌^◌, Bool, true, List, [], ◌∷◌, ◌++◌, ◌==◌, if◌then◌else◌, length,
  take, replicate, map,
}
use crust_sworker.Prelude.Int.{ℤ}
use crust_sworker.Prelude.Text.{Text, codes}
use crust_sworker.Prelude.Decimal.{to_string, int_to_string}
use crust_sworker.Status.{hash_length}
use crust_sworker.Crypto.{Crypto}
use crust_sworker.Hex.{hexstring_safe}
use crust_sworker.Workload.{Workload, FileEntry}
use crust_sworker.Report.Scan.{Scanned}

-- The hashes of all G, path by path.
unfoldable pub srd_hashs : List (Text × List (List ℕ)) → List (List ℕ)
srd_hashs [] = []
srd_hashs ((path, hashs) ∷ rest) = hashs ++ srd_hashs rest

unfoldable pub concat : List (List ℕ) → List ℕ
concat [] = []
concat (x ∷ xs) = x ++ concat xs

-- SHA-256 of the bytes, or 32 zero bytes if there are none.
unfoldable pub root_of : Crypto → List ℕ → List ℕ
root_of c bytes = if length bytes == 0 then replicate hash_length 0 else c.sha256 bytes

-- The hashes at the indexes of `report_valid_idx_s`.
unfoldable pub hash_at : List FileEntry → ℕ → List ℕ
hash_at [] i = []
hash_at (e ∷ es) zero = e.hash
hash_at (e ∷ es) (suc i) = hash_at es i

-- The values that are signed and printed.
pub record Fields : Type 0 where
  pub pub_key : List ℕ
  pub upgrade : Bool
  pub pre_pub_key : List ℕ
  pub height : Text
  pub block_hash : List ℕ
  pub reserved : ℕ
  pub files_size : ℤ
  pub reserved_root : List ℕ
  pub files_root : List ℕ
  pub added_files : Text
  pub deleted_files : Text

-- `sigbuf`, in the order in which it is filled.
unfoldable pub sign_buffer : Fields → List ℕ
sign_buffer f = concat (
    f.pub_key
    ∷ (if f.upgrade then f.pre_pub_key else [])
    ∷ f.height
    ∷ f.block_hash
    ∷ to_string f.reserved
    ∷ int_to_string f.files_size
    ∷ f.reserved_root
    ∷ f.files_root
    ∷ f.added_files
    ∷ f.deleted_files
    ∷ [])

-- `sigbuf_len`, by the sizes of the types.
unfoldable pub sign_buffer_len : Fields → ℕ
sign_buffer_len f =
    64
    + (if f.upgrade then 64 else 0)
    + length f.height
    + hash_length
    + length (to_string f.reserved)
    + length (int_to_string f.files_size)
    + 32
    + 32
    + length f.added_files
    + length f.deleted_files

-- `"name":"value",`, and without the quotes.
unfoldable pub quoted : Text → Text → Text
quoted name value = codes "\"" ++ (name ++ (codes "\":\"" ++ (value ++ codes "\",")))

unfoldable pub plain : Text → Text → Text
plain name value = codes "\"" ++ (name ++ (codes "\":" ++ (value ++ codes ",")))

-- `wr_str`, with the signature. The block hash is printed as it was given.
unfoldable pub report_text : Fields → Text → List ℕ → Text
unfolding quoted plain concat
report_text f block_hash sig = concat (
    codes "{"
    ∷ quoted (codes "pub_key") (hexstring_safe true f.pub_key)
    ∷ quoted (codes "pre_pub_key") (if f.upgrade then hexstring_safe true f.pre_pub_key else [])
    ∷ quoted (codes "block_height") f.height
    ∷ quoted (codes "block_hash") (take (2 * hash_length) block_hash)
    ∷ plain (codes "reserved") (to_string f.reserved)
    ∷ plain (codes "files_size") (int_to_string f.files_size)
    ∷ quoted (codes "reserved_root") (hexstring_safe true f.reserved_root)
    ∷ quoted (codes "files_root") (hexstring_safe true f.files_root)
    ∷ plain (codes "added_files") f.added_files
    ∷ plain (codes "deleted_files") f.deleted_files
    ∷ codes "\"sig\":\""
    ∷ hexstring_safe true sig
    ∷ codes "\"}"
    ∷ [])

-- `srd_workload`, in bytes, on `size_t`.
unfoldable pub srd_workload : List (List ℕ) → ℕ
srd_workload hashs = length hashs * 2 ^ 30 % 2 ^ 64

-- The values of the report, but for the block hash.
unfoldable pub report_fields : Crypto → ℕ → List ℕ → Scanned → Workload → Fields
unfolding srd_hashs concat root_of hash_at srd_workload
report_fields c block_height block_hash s wl = record {
  pub_key = wl.pub_key;
  upgrade = wl.upgrade;
  pre_pub_key = wl.pre_pub_key;
  height = to_string block_height;
  block_hash = block_hash;
  reserved = srd_workload (srd_hashs wl.srd_path2hashs);
  files_size = s.files_size;
  reserved_root = root_of c (concat (srd_hashs wl.srd_path2hashs));
  files_root = root_of c (concat (map (hash_at wl.checked_files) s.valid_idx));
  added_files = s.added_files;
  deleted_files = s.deleted_files;
}
