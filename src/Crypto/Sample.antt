-- ===== src/Crypto/Sample.antt =====
-- A stand-in for the SGX library, to run the model with.
use crust_sworker.Prelude.{
  ℕ, zero, suc, ◌%◌, ◌<◌, some, arith, length, length-replicate, replicate, All,
}
use crust_sworker.Prelude.{none, List, Option, ◌≡◌, if◌then◌else◌, ltb, length, ◌^◌}
use crust_sworker.Crypto.{Crypto, Sealer}

pub replicate_below : (k b n : ℕ) → n < b → All (λ x. x < b) (replicate k n)
replicate_below zero b n h = tt
replicate_below (suc k) b n h = (h, replicate_below k b n h)

abbrev pub crypto : Crypto
crypto = record {
  sha256 = λ m. replicate 32 (length m % 256);
  length-sha256 = λ m. length-replicate 32 (length m % 256);
  sha256-AreBytes = λ m. replicate_below 32 256 (length m % 256) (omega arith);
  sign = λ key m. some (replicate 64 7);
}

-- One whose hashes are all the same.
abbrev pub constant_crypto : Crypto
constant_crypto = record {
  sha256 = λ m. replicate 32 9;
  length-sha256 = λ m. length-replicate {A = ℕ} 32 9;
  sha256-AreBytes = λ m. replicate_below 32 256 9 (omega arith);
  sign = λ key m. some (replicate 64 7);
}

-- Sealing that keeps the message, up to the size of a `uint32_t`.
abbrev pub keep : List ℕ → Option (List ℕ)
keep m = if ltb (length m) (2 ^ 32) then some m else none

pub unseal-keep : (m sealed : List ℕ) → keep m ≡ some sealed → some sealed ≡ some m
unseal-keep m sealed h = ground arith

pub length-keep : (m sealed : List ℕ) → keep m ≡ some sealed → length sealed < 2 ^ 32
length-keep m sealed h = ground arith

abbrev pub sealer : Sealer
sealer = record {
  seal = keep;
  unseal = λ m. some m;
  unseal-seal = unseal-keep;
  length-seal = length-keep;
}
