-- ===== src/Core/ShmReader/Backoff.antt =====
-- shm_reader.cpp: how long the loop sleeps.
use mini_middleware.Prelude.{
  ℕ, zero, suc, ◌≡◌, refl, ap, List, [], ◌∷◌, ◌++◌, Bool, true, false, replicate,
}
use mini_middleware.Core.ShmReader.{min_sleep, next_sleep, sleeps}

-- The sleep after so many polls in a row that found nothing.
abbrev pub backoff : ℕ → ℕ
backoff zero = 50
backoff (suc zero) = 100
backoff (suc (suc zero)) = 200
backoff (suc (suc (suc zero))) = 400
backoff (suc (suc (suc (suc zero)))) = 800
backoff _ = 1600

abbrev pub backoffs : ℕ → ℕ → List ℕ
backoffs k zero = []
backoffs k (suc n) = backoff k ∷ backoffs (suc k) n

next_sleep-backoff : (k : ℕ) → next_sleep (backoff k) false ≡ backoff (suc k)
unfolding next_sleep
next_sleep-backoff zero = refl
next_sleep-backoff (suc zero) = refl
next_sleep-backoff (suc (suc zero)) = refl
next_sleep-backoff (suc (suc (suc zero))) = refl
next_sleep-backoff (suc (suc (suc (suc zero)))) = refl
next_sleep-backoff (suc (suc (suc (suc (suc k))))) = refl

idle_sleeps : (n k : ℕ) → sleeps (backoff k) (replicate n false) ≡ backoffs k n
unfolding sleeps
idle_sleeps zero k = refl
idle_sleeps (suc n) k = rw (next_sleep-backoff k) (ap (◌∷◌ (backoff k)) (idle_sleeps n (suc k)))

-- Whatever the loop's polls found before, after one that finds something the sleeps begin at 50
-- microseconds again and double with each poll that finds nothing, five times: from the sixth on
-- each is 1600 microseconds.
pub sleeps_back_off :
    (sleep : ℕ) (polls : List Bool) (n : ℕ)
    → sleeps sleep (polls ++ (true ∷ replicate n false)) ≡ sleeps sleep polls ++ backoffs 0 n
unfolding sleeps next_sleep
sleeps_back_off sleep [] n = idle_sleeps n 0
sleeps_back_off sleep (true ∷ polls) n = sleeps_back_off min_sleep polls n
sleeps_back_off sleep (false ∷ polls) n =
    ap (◌∷◌ sleep) (sleeps_back_off (next_sleep sleep false) polls n)
