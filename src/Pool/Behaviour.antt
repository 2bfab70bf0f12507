-- ===== src/Pool/Behaviour.antt =====
-- CreateSession after its reservation, on both outcomes, and a lease that ends with a discard.
use gem16gb.Prelude.{
  ℕ, ◌<◌, ◌≡◌, ◌≢◌, refl, ap, ◌∙◌, String, true, false, none, some, List, ◌∷◌, arith, eq_iff,
}
use gem16gb.Status.{Status, ok, err}
use gem16gb.Pool.Keys.{find, has, erase, erase_absent}
use gem16gb.Pool.Count.{count, count-remove_one_self}
use gem16gb.Pool.{
  Pool, reserve, cancel_reservation, create_session, draw_tick, store_last_used, drop_request,
  drop_gauge, release_session, discard_session, end_lease, erase_session_locked,
}
use gem16gb.Pool.Invariant.{Inv, find-PlacedIn}
use gem16gb.Pool.Entries.{release_session-Inv}
use gem16gb.Pool.Erase.{
  erase_session_locked-Inv, erase_session_locked-Frame, find-erase_session_locked,
  erase_session_locked-dropped, Frame,
}
use gem16gb.Pool.Create.{Reserved, reserve-Reserved, publish-Published}

erase_self : (id : String) (js : List String) → has id js ≡ false → erase id (id ∷ js) ≡ js
unfolding erase
erase_self id js h = ground (arith, eq_iff id id, erase_absent id js h)

pending_now :
    (p : Pool) (id : String) (q : Pool) → Reserved p id q → has id q.pending_sessions ≡ true
unfolding has
pending_now p id q r = rw r.pending (ground (arith, eq_iff id id))

-- CreateSession after a successful reservation: if the chat session was made, the caller gets the new entry,
-- which is resident under the id; if not, the reservation is taken back and the error passed on. In
-- both cases the reservations are those from before the call.
pub create_session-reserved :
    (p : Pool) (id : String) (q : Pool) (e : Status)
    → Inv p
    → reserve p id ≡ ok q
    → let made = create_session p id (ok tt) in
      let failed = create_session p id (err e) in
      (made.1 ≡ ok p.next_entry)
      × Inv made.0
      × (find id made.0.sessions ≡ some p.next_entry)
      × (made.0.pending_sessions ≡ p.pending_sessions)
      × (failed.1 ≡ err e)
      × (failed.0.pending_sessions ≡ p.pending_sessions)
      × (failed.0.held ≡ p.held)
unfolding create_session cancel_reservation
create_session-reserved p id q e v reserved =
    let r = reserve-Reserved p id q v reserved in
    let back = ap (erase id) r.pending ∙ erase_self id p.pending_sessions r.free in
    let (done, result) = publish-Published q id r.inv (pending_now p id q r) in
    rw (reserved, create_session)
      (
        result ∙ ap ok r.next_entry,
        done.inv,
        done.resident ∙ ap some r.next_entry,
        done.pending ∙ back,
        refl,
        back,
        r.held,
      )

-- A lease that ends with a discard removes its session from the pool: the id is free again, nobody
-- holds the entry, no response id leads to it, and the pool is well formed.
pub end_lease-discard :
    (p : Pool) (id r : String) (a : ℕ)
    → Inv p
    → find id p.sessions ≡ some a
    → 0 < count a p.held
    → let q = end_lease p a true in
      (find id q.sessions ≡ none)
      × (count a q.held ≡ 0)
      × (find r q.response_index ≢ some a)
      × Inv q
unfolding end_lease discard_session release_session draw_tick store_last_used drop_request
    drop_gauge
end_lease-discard p id r a v found holding =
    rw (find-PlacedIn p.entries p.next_entry id a p.sessions v.placed found).1 (
      find-erase_session_locked p id id ∙ ground (arith, eq_iff id id),
      rw f.held (omega (arith, count-remove_one_self a p.held, v.leases.exclusive a)),
      λ h. (erase_session_locked-dropped p id r a a found h).1 refl,
      release_session-Inv (erase_session_locked p id) a (erase_session_locked-Inv p id v)
          (rw f.held holding),
    )
  where
    f : Frame p (erase_session_locked p id)
    f = erase_session_locked-Frame p id
