-- ===== src/Persistence/Tests.antt =====
-- Examples for src/enclave/persistence/Persistence.cpp.
use crust_sworker.Prelude.{
  ℕ, ◌<◌, ◌^◌, ◌≡◌, refl, List, [], ◌∷◌, some, arith, length, replicate, length-replicate,
}
use crust_sworker.Prelude.Text.{Text, codes}
use crust_sworker.Status.{crust_success}
use crust_sworker.Crypto.Sample.{sealer}
use crust_sworker.Database.LevelStore.{level_store, level_store-IsLawful}
use crust_sworker.Persistence.{
  got, persist_set, persist_get, persist_set_unsafe, persist_get_unsafe,
}
use crust_sworker.Persistence.Samples.{sum_json, memory}
use crust_sworker.Persistence.Found.{IsAmple}
use crust_sworker.Persistence.Sealed.{persist_get-persist_set}
use crust_sworker.Persistence.Unsafe.{persist_get_unsafe-persist_set_unsafe}

memory-IsAmple : IsAmple memory
memory-IsAmple = record { copies = λ k. refl; whole = refl; plain = refl }

abbrev key : Text
key = codes "metadata"

-- Three old pieces, and their number.
abbrev old : level_store.State
old =
    (codes "metadata_sum", some (259 ∷ 300 ∷ []))
    ∷ (codes "metadata_0", some (1 ∷ []))
    ∷ (codes "metadata_1", some (2 ∷ []))
    ∷ (codes "metadata_2", some (3 ∷ []))
    ∷ []

stored : (persist_set level_store sum_json sealer memory key (7 ∷ 8 ∷ []) old).0 ≡ crust_success
unfolding persist_set
stored = refl

persist_get-persist_set_example :
    persist_get level_store sum_json sealer memory key
      (persist_set level_store sum_json sealer memory key (7 ∷ 8 ∷ []) old).1
    ≡ got crust_success (some (7 ∷ 8 ∷ []))
persist_get-persist_set_example =
    persist_get-persist_set level_store sum_json sealer memory key (7 ∷ 8 ∷ []) old
      level_store-IsLawful memory-IsAmple (λ k t. refl) stored

-- Five million bytes, which are two pieces.
large : List ℕ
large = replicate 5000000 1

length-bound : (n : ℕ) → n < 2 ^ 32 → length {A = ℕ} (replicate n 1) < 2 ^ 32
length-bound n h = omega (arith, length-replicate {A = ℕ} n 1)

large-bound : length large < 2 ^ 32
unfolding large
large-bound = length-bound 5000000 (omega arith)

persist_get_unsafe-persist_set_unsafe_example :
    let r = persist_set_unsafe level_store sum_json memory key large old in
    (r.0 ≡ crust_success)
    × (persist_get_unsafe level_store sum_json memory key r.1 ≡ got crust_success (some large))
persist_get_unsafe-persist_set_unsafe_example =
    persist_get_unsafe-persist_set_unsafe level_store sum_json memory key large old
      level_store-IsLawful memory-IsAmple (λ k v t. refl) (λ k t. refl) large-bound
