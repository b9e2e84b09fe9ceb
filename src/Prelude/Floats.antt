-- ===== src/Prelude/Floats.antt =====
-- Floats. A float is its 64-bit pattern, and its arithmetic is a parameter of what computes with
-- it: no proof looks into an operation, and a theorem that needs a law of it names the law.
use Prim.Native.Nat.{ℕ}
use mathlib.Core.Bool.{Bool}

pub record Float : Type 0 where
  pub bits : ℕ

-- `0.0` and `1.0`.
abbrev pub zero_f : Float
zero_f = record { bits = 0 }

abbrev pub one_f : Float
one_f = record { bits = 0x3ff0000000000000 }

pub record FloatOps : Type 0 where
  pub add : Float → Float → Float
  pub sub : Float → Float → Float
  pub mul : Float → Float → Float
  pub div : Float → Float → Float
  pub of_nat : ℕ → Float
  pub le : Float → Float → Bool
  pub lt : Float → Float → Bool
  pub sqrt : Float → Float
  pub log : Float → Float
  pub inf : Float
  pub eq : Float → Float → Bool
  pub round : ℕ → Float → Float
