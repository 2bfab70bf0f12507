-- ===== src/Pool/Tests.antt =====
-- The pool's theorems at concrete pools, and runs of it.
use gem16gb.Prelude.{
  ℕ, ◌+◌, ◌≤◌, ◌<◌, ◌≡◌, ◌≢◌, ◌⊎◌, refl, String, true, none, some, [], ◌∷◌, arith, length,
}
use gem16gb.Status.{Status, ok, err, fail, resource_exhausted, io_error}
use gem16gb.Pool.Keys.{find, has, erase, assign}
use gem16gb.Pool.Count.{count, member, remove_one}
use gem16gb.Pool.{
  Pool, init, reserve, make_room, consider, pick_victim, evict, erase_session_locked,
  drop_responses, make_entry, insert_entry, publish, create_session, draw_tick, store_last_used,
  drop_request, drop_gauge, release_session, end_lease, index_response, set_active_response, alive,
}
use gem16gb.Pool.Invariant.{Inv}
use gem16gb.Pool.Entries.{release_session-Inv, set_active_response-Inv}
use gem16gb.Pool.Erase.{erase_session_locked-dropped}
use gem16gb.Pool.Victim.{Victim, IsIdle, Among, make_room_lem}
use gem16gb.Pool.Create.{Reserved, Published, reserve-Reserved, publish-Published}
use gem16gb.Pool.Steps.{
  World, WorldInv, begins, Reach, here, next, start, start-WorldInv, index_response-Inv,
  Reach-WorldInv, Reach-publish,
}
use gem16gb.Pool.Behaviour.{create_session-reserved, end_lease-discard}

abbrev refused : Status
refused = record { code = io_error; message = "no device memory" }

-- A pool with two slots.
abbrev fresh : Pool
fresh = init 2

fresh-Inv : Inv fresh
fresh-Inv = (start-WorldInv 2).pool

-- The slot for "a" is reserved.
abbrev reserved : Pool
reserved = record (init 2) { pending_sessions = "a" ∷ [] }

reserve-fresh : reserve fresh "a" ≡ ok reserved
unfolding reserve make_room init has
reserve-fresh = refl

reserve-Reserved_example : Reserved fresh "a" reserved
reserve-Reserved_example = reserve-Reserved fresh "a" reserved fresh-Inv reserve-fresh

publish-Published_example :
    Published reserved "a" (publish reserved "a").0
    × ((publish reserved "a").1 ≡ ok reserved.next_entry)
unfolding has init
publish-Published_example =
    publish-Published reserved "a" (reserve-Reserved fresh "a" reserved fresh-Inv reserve-fresh).inv
      refl

create_session-reserved_example :
    ((create_session fresh "a" (ok tt)).1 ≡ ok 0)
    × Inv (create_session fresh "a" (ok tt)).0
    × (find "a" (create_session fresh "a" (ok tt)).0.sessions ≡ some 0)
    × ((create_session fresh "a" (ok tt)).0.pending_sessions ≡ [])
    × ((create_session fresh "a" (err refused)).1 ≡ err refused)
    × ((create_session fresh "a" (err refused)).0.pending_sessions ≡ [])
    × ((create_session fresh "a" (err refused)).0.held ≡ [])
unfolding init
create_session-reserved_example =
    create_session-reserved fresh "a" reserved refused fresh-Inv reserve-fresh

-- "a" is resident and held; its response "r" is indexed and being generated.
busy : Pool
unfolding init reserve make_room has erase create_session publish make_entry insert_entry find
    assign index_response set_active_response
busy = set_active_response (index_response (create_session fresh "a" (ok tt)).0 0 "r") 0 "r"

busy-Inv : Inv busy
unfolding busy
busy-Inv = set_active_response-Inv _ 0 "r" (
    index_response-Inv _ _
      (create_session-reserved fresh "a" reserved refused fresh-Inv reserve-fresh).1)

-- The same pool with the handler gone.
idle : Pool
unfolding busy release_session draw_tick store_last_used drop_request drop_gauge remove_one
idle = release_session busy 0

holding_zero : 0 < count 0 busy.held
unfolding busy count
holding_zero = omega arith

idle-Inv : Inv idle
unfolding idle
idle-Inv = release_session-Inv busy 0 busy-Inv holding_zero

end_lease-discard_example : find "a" (end_lease busy 0 true).sessions ≡ none
unfolding busy
end_lease-discard_example = (end_lease-discard busy "a" "r" 0 busy-Inv refl holding_zero).0

-- With a second session, whose response is "s".
two : Pool
unfolding busy
two = index_response (create_session busy "b" (ok tt)).0 1 "s"

erase_session_locked-dropped_example : (alive two 1 ≡ true) × (◌≢◌ {A = ℕ} 1 0)
unfolding two erase_session_locked drop_responses alive member
erase_session_locked-dropped_example = erase_session_locked-dropped two "a" "s" 0 1 refl refl

-- Both slots taken, by "a", which is idle, and by "b".
full : Pool
unfolding idle
full = (create_session idle "b" (ok tt)).0

make_room_lem_example :
    ((length full.sessions + length full.pending_sessions < full.max_sessions)
      × (make_room full ≡ ok full))
    ⊎ ((full.max_sessions ≤ length full.sessions + length full.pending_sessions)
        × (w : String × ℕ) × Victim full w
        × (make_room full ≡ ok (evict full w.0)))
    ⊎ ((full.max_sessions ≤ length full.sessions + length full.pending_sessions)
        × ((e : String × ℕ) → Among e full.sessions → ¬ IsIdle full e)
        × (make_room full
            ≡ fail resource_exhausted "all resident execution slots are active or being created"))
unfolding full
make_room_lem_example = make_room_lem full (refl, (refl, tt))

evicts_idle : make_room full ≡ ok (evict full "a")
unfolding full pick_victim consider
evicts_idle = refl

-- "a" is being created.
abbrev creating : World
creating = record { pool = reserved; creating = "a" ∷ []; drawn = []; stored = [] }

Reach-creating : Reach (start 2) creating
Reach-creating = next here (begins (start 2) "a" reserved reserve-fresh)

Reach-WorldInv_example : WorldInv 2 creating
Reach-WorldInv_example = Reach-WorldInv 2 Reach-creating

Reach-publish_example : (publish creating.pool "a").1 ≡ ok 0
unfolding init has
Reach-publish_example = Reach-publish 2 "a" Reach-creating refl
