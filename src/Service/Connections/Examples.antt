-- ===== src/Service/Connections/Examples.antt =====
-- A connection that closes in the ordinary way, and one that closes too early.
use common_fw.Common.{ℕ, ◌+◌, ◌≡◌, refl, false, [], ◌∷◌, some, if◌then◌else◌, none, arith}
use common_fw.Service.Connections.{
  get_conn, on_new_conn, on_dis_conn, connected, watched, leaving, gone, forgotten, World,
  set_phase, Steps, registers, sets_callback, closes, closes_early, listens, done, then_step,
  at_first,
}
use common_fw.Service.Connections.Listening.{Steps-listed, Steps-forgets}

abbrev id_of : ℕ → ℕ
id_of c = c + 7

own_ids : (c d : ℕ) → id_of c ≡ id_of d → c ≡ d
own_ids c d e = omega arith

abbrev registered : World
registered = record {
  conn_mng = on_new_conn 10 3 at_first.conn_mng;
  dis_conn_chan = [];
  phases = set_phase 3 connected at_first.phases;
}

abbrev set_up : World
set_up = record registered { phases = set_phase 3 watched registered.phases }

abbrev closing : World
closing = record set_up { dis_conn_chan = 3 ∷ []; phases = set_phase 3 leaving set_up.phases }

abbrev closed : World
closed = record {
  conn_mng = on_dis_conn 10 closing.conn_mng;
  dis_conn_chan = [];
  phases = set_phase 3 gone closing.phases;
}

to_closed : Steps id_of at_first closed
to_closed = then_step (registers at_first 3 refl) (
    then_step (sets_callback registered 3 refl) (
      then_step (closes set_up 3 refl (omega arith))
        (then_step (listens closing 3 [] refl) (done closed))))

Steps-listed_example : get_conn (id_of 3) closed.conn_mng ≡ (if false then some 3 else none)
Steps-listed_example = Steps-listed id_of own_ids closed 3 to_closed

abbrev too_early : World
too_early = record registered { phases = set_phase 3 forgotten registered.phases }

to_too_early : Steps id_of at_first too_early
to_too_early =
    then_step (registers at_first 3 refl)
      (then_step (closes_early registered 3 refl) (done too_early))

abbrev another : World
another = record {
  conn_mng = on_new_conn 11 4 too_early.conn_mng;
  dis_conn_chan = [];
  phases = set_phase 4 connected too_early.phases;
}

Steps-forgets_example : get_conn (id_of 3) another.conn_mng ≡ some 3
Steps-forgets_example =
    Steps-forgets id_of own_ids too_early another 3 to_too_early refl
      (then_step (registers too_early 4 refl) (done another))
