-- ===== src/Json/Sample.antt =====
-- Floats that are natural numbers, for runs of the definitions.
use truenas_incus_ctl.Base.{ℕ, true, pos}
use truenas_incus_ctl.Base.Decimal.{itoa}
use truenas_incus_ctl.Json.Data.{FloatOps}

abbrev pub nat_ops : FloatOps ℕ
nat_ops = record {
  to_int64 = pos;
  print = λ n. itoa (pos n);
  of_int = λ z. 0;
  is_whole = λ n. true;
}
