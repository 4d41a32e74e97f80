-- ===== src/Client/Tests.antt =====
-- Runs of truenas_api/truenas_api.go.
use truenas_incus_ctl.Daemon.Session.{inc_int64}
use truenas_incus_ctl.Base.{
  false, ◌⊎◌, ℕ, ◌≡◌, ◌↔◌, refl, true, [], none, some, ℤ, int_eq, int_eqb, pos, str_eqb, Str, codes,
  arith,
}
use truenas_incus_ctl.Base.Dict.{lookup, insert}
use truenas_incus_ctl.Json.{cons, nil, str, bool, float, str, Items, Fields, end, field, get_field}
use truenas_incus_ctl.Json.Sample.{nat_ops}
use truenas_incus_ctl.Client.Listen.{
  Client, answer_call, send_message, as_float, goes_on, has_panicked, as_object, is_update,
  handle_message,
}
use truenas_incus_ctl.Client.Calls.{Called, answered, new_client, begin_call, call_result}
use truenas_incus_ctl.Client.Requests.{login}
use truenas_incus_ctl.Client.Histories.{HasId, starts, begins, reads, calls_kept_apart}
use truenas_incus_ctl.Client.Faults.{IsMalformed, handle_message-panics_iff, login-ok_iff}

-- One call waits.
abbrev one_call : Client ℕ
one_call = (begin_call (new_client true)).0

-- The answer to it, and the client that has read it.
abbrev the_answer : Fields ℕ
the_answer = field (codes "id") (float 1) end

abbrev one_answered : Client ℕ
one_answered = record one_call { pending = insert (pos 1) (some the_answer) one_call.pending }

answer_read : handle_message nat_ops one_call the_answer ≡ goes_on one_answered []
unfolding begin_call new_client handle_message is_update str_eqb int_eqb get_field answer_call
    send_message as_float lookup insert inc_int64
answer_read = refl

calls_kept_apart_example :
    (lookup (begin_call one_answered).1 one_answered.pending ≡ none)
    × ((id : ℤ) (m : Fields ℕ) → call_result one_answered id none ≡ answered m → HasId nat_ops m id)
calls_kept_apart_example =
    calls_kept_apart nat_ops (reads the_answer [] (begins (starts true)) answer_read) (omega arith)

-- An update with no parameters.
abbrev bare_update : Fields ℕ
bare_update = field (codes "method") (str (codes "collection_update")) end

handle_message-panics_iff_example : (handle_message nat_ops one_call bare_update ≡ has_panicked) ↔ (
    (is_update nat_ops bare_update ≡ true)
    × IsMalformed nat_ops (as_object nat_ops (get_field (codes "params") bare_update)))
unfolding begin_call new_client
handle_message-panics_iff_example = handle_message-panics_iff nat_ops one_call bare_update refl

abbrev accepts : Str → Items ℕ → Called ℕ
accepts method params = answered (field (codes "result") (bool true) end)

login-ok_iff_example : (login nat_ops [] [] (codes "key") accepts ≡ none) ↔ (
    (r : Fields ℕ) × (((false ≡ false)
        × (accepts (codes "auth.login_with_api_key") (cons (str (codes "key")) nil) ≡ answered r))
      ⊎ ((false ≡ true)
          × (true ≡ false)
          × (true ≡ false)
          × (accepts (codes "auth.login") (cons (str []) (cons (str []) nil)) ≡ answered r)))
    × (get_field (codes "error") r ≡ none)
    × (get_field (codes "result") r ≡ some (bool true)))
login-ok_iff_example = login-ok_iff nat_ops [] [] (codes "key") accepts
