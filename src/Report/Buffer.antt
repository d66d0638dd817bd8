-- ===== src/Report/Buffer.antt =====
-- The signed buffer (src/enclave/report/Report.cpp).
use crust_sworker.Prelude.{
  ℕ, ◌≡◌, refl, Bool, true, false, List, [], arith, if◌then◌else◌, length, length-append,
  length-replicate,
}
use crust_sworker.Status.{hash_length}
use crust_sworker.Crypto.{Crypto}
use crust_sworker.Report.Scan.{Scanned}
use crust_sworker.Workload.{Workload}
use crust_sworker.Report.{root_of, sign_buffer, sign_buffer_len, report_fields}

length-root_of : (c : Crypto) (bytes : List ℕ) → length (root_of c bytes) ≡ 32
unfolding root_of
length-root_of c bytes = ground (arith, c.length-sha256 bytes, length-replicate {A = ℕ} 32 0)

length-pre_key :
    (b : Bool) (k : List ℕ) → length k ≡ 64 → length (if b then k else []) ≡ (if b then 64 else 0)
length-pre_key true k h = h
length-pre_key false k h = refl

-- For a public key of 64 bytes, a previous key of 64 bytes and a block hash of 32,
-- the signed buffer is filled exactly to `sigbuf_len`: no write is out of bounds, and no zero byte is
-- left over at the end to be signed.
pub length-sign_buffer :
    (c : Crypto) (height : ℕ) (hash : List ℕ) (s : Scanned) (wl : Workload)
    → length wl.pub_key ≡ 64
    → length wl.pre_pub_key ≡ 64
    → length hash ≡ hash_length
    → length (sign_buffer (report_fields c height hash s wl))
      ≡ sign_buffer_len (report_fields c height hash s wl)
unfolding sign_buffer sign_buffer_len report_fields
length-sign_buffer c height hash s wl k p h =
    simp (length-append, length-root_of, length-pre_key wl.upgrade wl.pre_pub_key p, k, h)
      (omega arith)
