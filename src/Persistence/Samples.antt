-- ===== src/Persistence/Samples.antt =====
-- Stand-ins for the JSON library and the allocations, to run src/enclave/persistence/Persistence.cpp with.
use crust_sworker.Prelude.{ℕ, ◌+◌, ◌-◌, ◌≡◌, true, [], ◌∷◌, arith}
use crust_sworker.Prelude.Text.{Text}
use crust_sworker.Persistence.{Memory, SumJson, compact, remove_char}

-- The two numbers as codes of their own, none of which is a character that is removed.
unfoldable pub load : Text → ℕ × ℕ
load (a ∷ b ∷ r) = (a - 256, b - 256)
load r = (0, 0)

pub load-dump : (sum size : ℕ) → load (compact ((sum + 256) ∷ (size + 256) ∷ [])) ≡ (sum, size)
unfolding load compact remove_char
load-dump sum size = ground arith

abbrev pub sum_json : SumJson
sum_json = record {
  dump = λ sum size. (sum + 256) ∷ (size + 256) ∷ [];
  load = load;
  load-dump = load-dump;
}

abbrev pub memory : Memory
memory = record { copy = λ k. true; whole = true; plain = true; sealed = true; test = true }
