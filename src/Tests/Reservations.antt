-- ===== src/Tests/Reservations.antt =====
-- Runs of the reservation table, and the theorems on it and on its times at concrete inputs.
use intermute.Base.{◌+◌, ◌*◌, ◌≡◌, ◌<◌, refl, true, false, none, [], ◌∷◌, codes, ok, arith}
use intermute.Stamp.{second, stamp_lt}
use intermute.Stamp.Order.{stamp_lt_whole}
use intermute.Reservations.Table.{Reservation, Db}
use intermute.Reservations.{ahead, Request, default_ttl, get_reservation, reserve}
use intermute.Reservations.Granted.{Granted, reserve-get}
use intermute.Reservations.Exclusion.{AllApart}
use intermute.Reservations.Limit.{WithinLimit}
use intermute.Reservations.History.{reserved, Reach, here, next, Reach-AllApart, Reach-WithinLimit}

abbrev no_rows : Db
no_rows = record { reservations = []; agents = [] }

-- Ada asks for all of src/, for the default time.
abbrev ada_asks : Request
ada_asks = record {
  id = [];
  agent_id = codes "ada";
  project = codes "p";
  path_pattern = codes "src/*";
  exclusive = true;
  reason = [];
  ttl = ahead 0;
}

abbrev ada_row : Reservation
ada_row = record {
  id = codes "r1";
  agent_id = codes "ada";
  project = codes "p";
  path_pattern = codes "src/*";
  exclusive = true;
  reason = [];
  created_at = 5 * second;
  expires_at = 5 * second + default_ttl;
  released_at = none;
}

abbrev ada_holds : Db
ada_holds = record { reservations = ada_row ∷ []; agents = [] }

ada_reserves : reserve (codes "r1") (5 * second) ada_asks no_rows ≡ ok (ada_holds, ada_row)
unfolding reserve
ada_reserves = refl

ada_first : Reach no_rows ada_holds
ada_first = next here (reserved (codes "r1") (5 * second) ada_asks ada_row ada_reserves)

Reach-AllApart_example : AllApart (Db.reservations ada_holds)
Reach-AllApart_example = Reach-AllApart {start = no_rows} {db = ada_holds} refl ada_first

Reach-WithinLimit_example : WithinLimit (Db.reservations ada_holds)
Reach-WithinLimit_example = Reach-WithinLimit {start = no_rows} {db = ada_holds} refl ada_first

reserve-get_example :
    (get_reservation (codes "r1") (ada_row ∷ []) ≡ ok ada_row)
    × Granted 0 (5 * second) ada_asks ada_row
    × (Db.agents ada_holds ≡ [])
reserve-get_example =
    reserve-get 0 (5 * second) (codes "r1") ada_asks no_rows ada_holds ada_row refl ada_reserves

half_a_second : 0 < 500_000_000
half_a_second = omega arith

half_below_one : 500_000_000 < second
half_below_one = omega arith

stamp_lt_whole_example :
    (stamp_lt (7 * second + 500_000_000) (7 * second) ≡ true)
    × (stamp_lt (7 * second) (7 * second + 500_000_000) ≡ false)
stamp_lt_whole_example = stamp_lt_whole 7 500_000_000 half_a_second half_below_one
