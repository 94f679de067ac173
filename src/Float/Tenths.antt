-- ===== src/Float/Tenths.antt =====
-- Numbers of tenths as floats, to run the models that compute with floats. The difference of a smaller and a
-- larger number is 0, every number is finite, and `sin` and `cos` are constants.
use soteria.Prelude.{ℕ, ◌+◌, ◌-◌, ◌*◌, ◌/◌, ◌^◌, true, ltb, leb}
use soteria.Float.{Float}

instance abbrev pub tenths : Float ℕ
tenths = record {
  is_finite = λ x. true;
  lt = λ x y. ltb x y;
  le = λ x y. leb x y;
  neg = λ x. x;
  add = λ x y. x + y;
  sub = λ x y. x - y;
  mul = λ x y. x * y / 10;
  div = λ x y. x * 10 / y;
  literal = λ n k. n * 10 / 10 ^ k;
  to_u32 = λ x. x / 10;
  of_u32 = λ n. n * 10;
  sin = λ x. 0;
  cos = λ x. 10;
}
