-- ===== src/Command/Sample.antt =====
-- What runs of the commands use of the system, around a session of theirs.
use truenas_incus_ctl.Base.{ℕ, [], none, pos, codes, replicate}
use truenas_incus_ctl.Json.{null}
use truenas_incus_ctl.Json.Sample.{nat_ops}
use truenas_incus_ctl.Session.{Session}
use truenas_incus_ctl.Query.Filter.{fails}
use truenas_incus_ctl.Command.Steps.{Outside}

abbrev pub world_of : {S : Type 0} → Session S ℕ → Outside S ℕ
world_of session = record {
  api = session;
  ops = nat_ops;
  host_name = codes "nas";
  default_call_timeout = pos 30;
  unmarshal = λ s. fails (codes "no value");
  unmarshal_value = λ s. null;
  type_error = λ j. codes "no object";
  lookup_ip = λ s. none;
  split_host = λ s. none;
  parse_int = λ s. none;
  sort_stable = λ compare l. l;
  sha256 = λ s. replicate 32 0;
  sha512 = λ s. replicate 64 0;
  runs = λ params i. record { out = []; warn = []; error = none; status = pos 0 };
}
