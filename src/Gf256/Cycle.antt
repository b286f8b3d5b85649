-- ===== src/Gf256/Cycle.antt =====
-- The tables of shamir.go as computed by `init`: the powers of 0x03 form one cycle of length 255.
use nft_soket.Base.{
  ℕ, ◌+◌, ◌%◌, ◌<◌, ◌≡◌, ◌≢◌, refl, Bool, true, ◌&&◌, ◌||◌, bit_xor, ltb, ◌==◌, get_or, test_all,
  test_all-true, arith, ==→eq,
}
use nft_soket.Gf256.{Tables, times_three, init, exp, log}

-- What is read off the tables, each as one evaluation.
abbrev log_row : Tables → ℕ → Bool
log_row t a =
    a == 0 || ltb (get_or t.gf_log a 0) 255 && get_or t.gf_exp (get_or t.gf_log a 0) 0 == a

abbrev exp_row : Tables → ℕ → Bool
exp_row t i =
    get_or t.gf_log (get_or t.gf_exp i 0) 0 == i % 255
    && (ltb 0 (get_or t.gf_exp i 0) && ltb (get_or t.gf_exp i 0) 256)
    && get_or t.gf_exp i 0 == get_or t.gf_exp (i % 255) 0

abbrev step_row : Tables → ℕ → Bool
step_row t i = get_or t.gf_exp (i + 1) 0 == times_three (get_or t.gf_exp i 0)

log_rows : Tables → Bool
log_rows t = test_all 256 (log_row t)

exp_rows : Tables → Bool
exp_rows t = test_all 512 (exp_row t)

step_rows : Tables → Bool
step_rows t = test_all 511 (step_row t)

log_rows-init : log_rows init ≡ true
unfolding log_rows test_all init
log_rows-init = refl

exp_rows-init : exp_rows init ≡ true
unfolding exp_rows test_all init
exp_rows-init = refl

step_rows-init : step_rows init ≡ true
unfolding step_rows test_all init
step_rows-init = refl

linear_row : ℕ → ℕ → Bool
linear_row a b = times_three (bit_xor a b) == bit_xor (times_three a) (times_three b)

linear_rows : test_all 256 (λ a. test_all 256 (linear_row a)) ≡ true
unfolding test_all linear_row times_three
linear_rows = refl

pub exp-log : (a : ℕ) → a ≢ 0 → a < 256 → exp (log a) ≡ a
unfolding log_rows exp log
exp-log a p h =
    let row : log_row init a ≡ true = test_all-true 256 (log_row init) log_rows-init a h in
    ground (arith, row)

pub log_bound : (a : ℕ) → a ≢ 0 → a < 256 → log a < 255
unfolding log_rows log
log_bound a p h =
    let row : log_row init a ≡ true = test_all-true 256 (log_row init) log_rows-init a h in
    ground (arith, row)

module _ (i : ℕ) (h : i < 512) where
  exp_row_holds : exp_row init i ≡ true
  unfolding exp_rows
  exp_row_holds = test_all-true 512 (exp_row init) exp_rows-init i h

  pub log-exp : log (exp i) ≡ i % 255
  unfolding exp log
  log-exp = ground (arith, exp_row_holds)

  pub exp_bounds : (0 < exp i) × (exp i < 256)
  unfolding exp
  exp_bounds = ground (arith, exp_row_holds)

  pub exp-mod : exp i ≡ exp (i % 255)
  unfolding exp
  exp-mod = ground (arith, exp_row_holds)

pub exp-suc : (i : ℕ) → i < 511 → exp (i + 1) ≡ times_three (exp i)
unfolding step_rows exp
exp-suc i h = ==→eq _ _ (test_all-true 511 (step_row init) step_rows-init i h)

pub times_three-xor :
    (a b : ℕ)
    → a < 256
    → b < 256
    → times_three (bit_xor a b) ≡ bit_xor (times_three a) (times_three b)
unfolding linear_row
times_three-xor a b p q = ==→eq _ _ (
    test_all-true 256 (linear_row a)
      (test_all-true 256 (λ x. test_all 256 (linear_row x)) linear_rows a p) b q)
