-- ===== src/Tests/Slots.antt =====
-- The theorems on the decode slots at a run of two renders and one slot.
use gophprofile.Base.{◌*◌, ◌≡◌, ◌≤◌, ◌⊎◌, refl, pos, [], ◌∷◌, All, arith, sum_of, here, lookup}
use gophprofile.Fault.{ok}
use gophprofile.Domain.Avatar.{Avatar}
use gophprofile.World.{perform, served, meet, turn, rest, pure, ◌>>=◌, on_result}
use gophprofile.Postgres.Queries.{scan_avatar}
use gophprofile.S3
use gophprofile.Worker.Handler.{read_original}
use gophprofile.Worker.Handler.Slots.{
  Slots, decode_slots, fresh, come, acquire, read, Run, none_yet, one_more,
}
use gophprofile.Worker.Handler.Slots.Bounded.{has_slot, in_memory, renders-bounded}
use gophprofile.Worker.Handler.Slots.Free.{IsEnded, CanGoOn, renders-IsEnded}
use gophprofile.Tests.Data.{line, world_one, test_handler}

abbrev avatar : Avatar
unfolding scan_avatar
avatar = scan_avatar line

original_read : (read_original test_handler avatar world_one).0 ≡ ok (1 ∷ 2 ∷ 3 ∷ [])
unfolding read_original S3.get perform served meet turn rest pure ◌>>=◌ on_result scan_avatar lookup
original_read = refl

-- One has the original in memory, and the other waits.
abbrev at_work : (s : Slots) × Run test_handler (decode_slots (pos 0)) fresh 4 2 s
at_work = (
  _,
  one_more
      (one_more (one_more (one_more none_yet (come avatar)) (come avatar))
        (acquire (omega arith) here))
      (read world_one original_read here),
)

renders-bounded_example :
    (sum_of has_slot at_work.0.renders ≤ 1)
    × (at_work.0.taken ≡ sum_of has_slot at_work.0.renders)
    × (sum_of in_memory at_work.0.renders ≤ 1 * 10)
renders-bounded_example = renders-bounded test_handler (pos 0) at_work.0 4 2 at_work.1

renders-IsEnded_example :
    (4 ≤ 6 * 2) × (All IsEnded at_work.0.renders ⊎ CanGoOn test_handler world_one 1 at_work.0)
renders-IsEnded_example = renders-IsEnded test_handler world_one (pos 0) at_work.0 4 2 at_work.1
