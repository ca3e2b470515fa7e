-- ===== src/Samples/Numbers.antt =====
-- A small instance of `f64` for the tests: fixed-point numbers with 16 decimals, of which those beyond a
-- limit are infinite, and NaN. It has no negative infinity.
use kaskad_nuntius.Prelude.{
  ℕ, suc, ◌+◌, ◌-◌, ◌*◌, ◌/◌, ◌^◌, min, Bool, true, false, [], ◌∷◌, ltb, leb, nat_beq, arith,
  if◌then◌else◌,
}
use kaskad_nuntius.Policy.{Bytes}
use kaskad_nuntius.Float.{Float64}
use kaskad_nuntius.Aggregator.Limits.{MinLaws}
use kaskad_nuntius.Collectors.Levels.{EqualityLaws, OrderLaws}
use kaskad_nuntius.Books.Ending.{FiniteLaws, EndlessLaws}

-- `minus n` is the number below zero by n and one more.
pub data Toy : Type 0 where
  nan infinite : Toy
  plus minus : ℕ → Toy

abbrev scale : ℕ
scale = 10 ^ 16

abbrev pub limit : ℕ
limit = 10 ^ 60

abbrev capped : ℕ → Toy
capped n = if ltb limit n then infinite else plus n

abbrev difference : ℕ → ℕ → Toy
difference a b = if leb b a then plus (a - b) else minus (b - a - 1)

abbrev toy_add : Toy → Toy → Toy
toy_add (plus a) (plus b) = capped (a + b)
toy_add (plus a) (minus b) = difference a (suc b)
toy_add (minus a) (plus b) = difference b (suc a)
toy_add (minus a) (minus b) = minus (a + suc b)
toy_add nan b = nan
toy_add a nan = nan
toy_add infinite b = infinite
toy_add a infinite = infinite

abbrev toy_sub : Toy → Toy → Toy
toy_sub (plus a) (plus b) = difference a b
toy_sub (plus a) (minus b) = capped (a + suc b)
toy_sub (minus a) (plus b) = minus (a + b)
toy_sub (minus a) (minus b) = difference b a
toy_sub infinite (plus b) = infinite
toy_sub infinite (minus b) = infinite
toy_sub a b = nan

abbrev toy_mul : Toy → Toy → Toy
toy_mul (plus a) (plus b) = capped (a * b / scale)
toy_mul infinite (plus (suc b)) = infinite
toy_mul (plus (suc a)) infinite = infinite
toy_mul infinite infinite = infinite
toy_mul a b = nan

abbrev toy_div : Toy → Toy → Toy
toy_div (plus a) (plus (suc b)) = capped (a * scale / suc b)
toy_div infinite (plus (suc b)) = infinite
toy_div a b = nan

abbrev toy_lt : Toy → Toy → Bool
toy_lt (plus a) (plus b) = ltb a b
toy_lt (minus a) (minus b) = ltb b a
toy_lt (minus a) (plus b) = true
toy_lt (plus a) infinite = true
toy_lt (minus a) infinite = true
toy_lt a b = false

abbrev toy_le : Toy → Toy → Bool
toy_le (plus a) (plus b) = leb a b
toy_le (minus a) (minus b) = leb b a
toy_le (minus a) (plus b) = true
toy_le (plus a) infinite = true
toy_le (minus a) infinite = true
toy_le infinite infinite = true
toy_le a b = false

abbrev toy_is_nan : Toy → Bool
toy_is_nan nan = true
toy_is_nan a = false

abbrev toy_min : Toy → Toy → Toy
toy_min nan b = b
toy_min a nan = a
toy_min infinite b = b
toy_min a infinite = a
toy_min (plus a) (plus b) = if leb a b then plus a else plus b
toy_min (minus a) (minus b) = if leb b a then minus a else minus b
toy_min (minus a) (plus b) = minus a
toy_min (plus a) (minus b) = minus b

abbrev toy_abs : Toy → Toy
toy_abs (minus a) = plus (suc a)
toy_abs a = a

abbrev toy_round : Toy → Toy
toy_round (plus a) = plus ((a + scale / 2) / scale * scale)
toy_round a = a

abbrev toy_is_finite : Toy → Bool
toy_is_finite (plus a) = true
toy_is_finite (minus a) = true
toy_is_finite a = false

abbrev toy_eq : Toy → Toy → Bool
toy_eq (plus a) (plus b) = nat_beq a b
toy_eq (minus a) (minus b) = nat_beq a b
toy_eq infinite infinite = true
toy_eq a b = false

abbrev toy_to_nat : ℕ → Toy → ℕ
toy_to_nat top (plus a) = min (a / scale) top
toy_to_nat top infinite = top
toy_to_nat top a = 0

abbrev toy_bytes : Toy → Bytes
toy_bytes (plus a) = (a / scale) ∷ []
toy_bytes a = []

instance abbrev pub toy_float : Float64 Toy
toy_float = record {
  of_decimal = λ m e. plus (m * scale / 10 ^ e);
  of_nat = λ n. plus (n * scale);
  of_i64 = λ n. plus (n * scale);
  infinity = infinite;
  add = toy_add;
  sub = toy_sub;
  mul = toy_mul;
  div = toy_div;
  fmin = toy_min;
  abs = toy_abs;
  round = toy_round;
  lt = toy_lt;
  le = toy_le;
  feq = toy_eq;
  is_finite = toy_is_finite;
  is_nan = toy_is_nan;
  to_u64 = toy_to_nat (2 ^ 64 - 1);
  to_u128 = toy_to_nat (2 ^ 128 - 1);
  to_i64 = toy_to_nat (2 ^ 63 - 1);
  to_be_bytes = toy_bytes;
}

pub toy-MinLaws : MinLaws Toy
toy-MinLaws = ground arith

pub toy-FiniteLaws : FiniteLaws Toy
toy-FiniteLaws = ground arith

pub toy-EndlessLaws : EndlessLaws Toy
toy-EndlessLaws = ground arith

pub toy-OrderLaws : OrderLaws Toy
toy-OrderLaws = ground arith

pub toy-EqualityLaws : EqualityLaws Toy
toy-EqualityLaws = ground arith
