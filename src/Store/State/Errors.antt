-- ===== src/Store/State/Errors.antt =====
-- The errors of pkg/store, as values, and the results of the methods that only read.
use ts_store.Prelude.{Bool, true, false}

pub data Err : Type 0 where
  store_closed invalid_magic version_mismatch block_out_of_range : Err
  invalid_timestamp timestamp_out_of_order timestamp_not_found empty_store : Err
  name_required path_required store_exists invalid_num_blocks invalid_block_size : Err
  -- `io.EOF` from a file, two run-time panics, and a loop that went on past its bound.
  io_eof nil_dereference negative_capacity out_of_fuel : Err

pub data Result {ℓ} (A : Type ℓ) : Type ℓ where
  ok : A → Result A
  err : Err → Result A

infixl 5 ◌>>=◌
abbrev pub ◌>>=◌ {ℓ κ} : {A : Type ℓ} {B : Type κ} → Result A → (A → Result B) → Result B
ok a >>= f = f a
err e >>= f = err e

abbrev pub guard : Bool → Err → Result (Unit {0})
guard true e = ok tt
guard false e = err e
