-- ===== src/Schedule/SafeLock.antt =====
-- src/enclave/utils/SafeLock.cpp: a lock that its destructor gives back.
use crust_sworker.Prelude.{
  ℕ, ◌+◌, ◌-◌, ◌≡◌, refl, Bool, true, false, ltb, ◌==◌, List, [], ◌∷◌, ◌++◌, Option, none, some,
  if◌then◌else◌,
}

-- The calls of the SGX mutex.
pub data MutexCall : Type 0 where
  mutex_lock mutex_unlock : MutexCall

-- `SafeLock::lock` on `lock_time`, with the calls it makes.
unfoldable pub lock : ℕ → ℕ × List MutexCall
lock lock_time = if lock_time == 0 then (lock_time + 1, mutex_lock ∷ []) else (lock_time, [])

-- `SafeLock::unlock`
unfoldable pub unlock : ℕ → ℕ × List MutexCall
unlock lock_time = if ltb 0 lock_time then (lock_time - 1, mutex_unlock ∷ []) else (lock_time, [])

-- `SafeLock::~SafeLock`
unfoldable pub destroy : ℕ → List MutexCall
destroy lock_time = if ltb 0 lock_time then mutex_unlock ∷ [] else []

-- What the owner of a lock does with it.
pub data Use : Type 0 where
  to_lock to_unlock : Use

-- A life of the object: some uses, then the destructor.
unfoldable pub live : List Use → ℕ → List MutexCall
unfolding lock unlock destroy
live [] lock_time = destroy lock_time
live (to_lock ∷ us) lock_time = let (t, calls) = lock lock_time in calls ++ live us t
live (to_unlock ∷ us) lock_time = let (t, calls) = unlock lock_time in calls ++ live us t

-- The mutex, held by this thread or not: a second lock, and an unlock of a free mutex, are errors.
unfoldable pub replay : Bool → List MutexCall → Option Bool
replay held [] = some held
replay false (mutex_lock ∷ cs) = replay true cs
replay true (mutex_unlock ∷ cs) = replay false cs
replay true (mutex_lock ∷ cs) = none
replay false (mutex_unlock ∷ cs) = none

mutual
  unfolding live replay

  replay-live_free : (us : List Use) → replay false (live us 0) ≡ some false
  replay-live_free [] = refl
  replay-live_free (to_lock ∷ us) = replay-live_held us
  replay-live_free (to_unlock ∷ us) = replay-live_free us

  replay-live_held : (us : List Use) → replay true (live us 1) ≡ some false
  replay-live_held [] = refl
  replay-live_held (to_lock ∷ us) = replay-live_held us
  replay-live_held (to_unlock ∷ us) = replay-live_free us

-- Whatever its owner does with a SafeLock from its construction on, it never locks a mutex that it
-- holds and never unlocks one that it does not hold, and after its destructor the mutex is free.
pub replay-live : (us : List Use) → replay false (live us 0) ≡ some false
replay-live us = replay-live_free us
