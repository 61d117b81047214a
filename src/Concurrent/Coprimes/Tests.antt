-- ===== src/Concurrent/Coprimes/Tests.antt =====
-- Concrete walks.
use async_lib.Base.{◌≡◌, refl, [], ◌∷◌}
use async_lib.Concurrent.Coprimes.{compute_coprimes, coprimes_from, gcd_loop, next_victim}

compute_coprimes_twelve : compute_coprimes 12 ≡ 1 ∷ 5 ∷ 7 ∷ 11 ∷ []
unfolding compute_coprimes coprimes_from gcd_loop
compute_coprimes_twelve = refl

next_victim_wraps : next_victim 12 7 9 ≡ 4
next_victim_wraps = refl

gcd_loop_five : gcd_loop 13 5 12 ≡ 1
unfolding gcd_loop
gcd_loop_five = refl
