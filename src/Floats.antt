-- ===== src/Floats.antt =====
-- The arithmetic of `float` and `double`, and the functions of <math.h> that the program calls, as
-- an interface: the program does not implement them, and no law of them is assumed here.
-- A `double` intermediate is a value of the same type; each operation stands for its own rounding.
use ftrl_online_pslite.Prelude.{Bool, ◌/◌}
use ftrl_online_pslite.Prelude.Int.{
  ℤ, pos, ◌+ℤ◌, ◌-ℤ◌, ◌*ℤ◌, ◌/ℤ◌, abs, leb_ℤ, ltb_ℤ, eq_ℤ, pos_part,
}

pub record Floats (F : Type 0) : Type 0 where
  pub of_int : ℤ → F
  pub add : F → F → F
  pub sub : F → F → F
  pub mul : F → F → F
  pub div : F → F → F
  pub neg : F → F
  pub fabs : F → F
  pub sqrt : F → F
  pub exp : F → F
  pub log : F → F
  pub le : F → F → Bool
  pub lt : F → F → Bool
  pub eq : F → F → Bool
  -- the literals 0.00001, 0.000001 and 0.0001
  pub tiny : F
  pub micro : F
  pub close : F

-- Whole numbers with a truncated quotient, for runs of the model.
instance abbrev pub whole : Floats ℤ
whole = record {
  of_int = λ n. n;
  add = ◌+ℤ◌;
  sub = ◌-ℤ◌;
  mul = ◌*ℤ◌;
  div = ◌/ℤ◌;
  neg = λ a. pos 0 -ℤ a;
  fabs = abs;
  sqrt = λ a. pos (pos_part a / 2);
  exp = λ a. a;
  log = λ a. a;
  le = leb_ℤ;
  lt = ltb_ℤ;
  eq = eq_ℤ;
  tiny = pos 0;
  micro = pos 0;
  close = pos 1;
}
