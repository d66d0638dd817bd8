-- ===== src/Crypto.antt =====
-- The SGX library that the enclave calls, as a parameter: SHA-256, ECDSA signatures, and their
-- documented sizes. The library is not part of the repository.
pub mod Sample
use crust_sworker.Prelude.{ℕ, ◌^◌, ◌<◌, ◌≡◌, List, Option, some, length, AreBytes}
use crust_sworker.Status.{hash_length}

-- `sign key message` is `sgx_ecc256_open_context` followed by `sgx_ecdsa_sign`; `none` if either fails.
pub record Crypto : Type 0 where
  pub sha256 : List ℕ → List ℕ
  pub length-sha256 : (message : List ℕ) → length (sha256 message) ≡ hash_length
  pub sha256-AreBytes : (message : List ℕ) → AreBytes (sha256 message)
  pub sign : List ℕ → List ℕ → Option (List ℕ)

-- `sgx_seal_data_ex` and `sgx_unseal_data` under the enclave's own key; `none` if they fail. A size of
-- sealed data is a `uint32_t`.
pub record Sealer : Type 0 where
  pub seal : List ℕ → Option (List ℕ)
  pub unseal : List ℕ → Option (List ℕ)
  pub unseal-seal :
      (message sealed : List ℕ) → seal message ≡ some sealed → unseal sealed ≡ some message
  pub length-seal : (message sealed : List ℕ) → seal message ≡ some sealed → length sealed < 2 ^ 32
