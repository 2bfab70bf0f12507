-- ===== src/Pool/Create.antt =====
-- CreateSession: its two critical sections and what may happen between them keep the invariant.
use gem16gb.Prelude.{
  ℕ, suc, ◌+◌, ◌<◌, ◌≡◌, refl, ap, subst, inl, inr, String, true, false, ◌||◌, some, List, ◌∷◌,
  arith, length, eq_iff, Bool-cases,
}
use gem16gb.Status.{ok, Result-cases}
use gem16gb.Pool.Keys.{
  find, has, has-erase, erase, erase-Distinct, keys, length-erase, length-erase-le,
  length-erase_key, keys-erase_key,
}
use gem16gb.Pool.Count.{count-cons}
use gem16gb.Pool.{
  Pool, evict, make_room, make_entry, reserve, cancel_reservation, insert_entry, publish,
}
use gem16gb.Pool.Invariant.{Slots, Leases, PlacedIn-mono, Inv}
use gem16gb.Pool.Erase.{Frame, erase_session_locked-Inv, erase_found}
use gem16gb.Pool.Victim.{Victim, make_room_lem}

evict-Inv : (p : Pool) (id : String) → Inv p → Inv (evict p id)
unfolding evict
evict-Inv p id v =
    let w = erase_session_locked-Inv p id v in
    record {
      slots = record {
        bounded = w.slots.bounded;
        distinct = w.slots.distinct;
        reserved = w.slots.reserved;
        disjoint = w.slots.disjoint;
      };
      leases = record {
        counted = w.leases.counted;
        exclusive = w.leases.exclusive;
        made = w.leases.made;
        left = w.leases.left;
        gauge = w.leases.gauge;
      };
      placed = w.placed;
    }

-- Room for one more, and everything but the sessions, their responses and a counter as before.
pub record Roomy (p q : Pool) : Type 0 where
  pub inv : Inv q
  pub room : length q.sessions + length q.pending_sessions < q.max_sessions
  pub fewer : (k : String) → has k (keys p.sessions) ≡ false → has k (keys q.sessions) ≡ false
  pub frame : Frame p q

has-erase-false : (k j : String) (js : List String) → has k js ≡ false → has k (erase j js) ≡ false
has-erase-false k j js h = ground (arith, has-erase k j js)

evict-Roomy : (p : Pool) (w : String × ℕ) → Inv p → Victim p w → Roomy p (evict p w.0)
unfolding evict
evict-Roomy p w v victim = rw (erase_found p w.0 w.1 victim.resident) (record {
  inv = rw (erase_found p w.0 w.1 victim.resident) at (evict-Inv p w.0 v);
  room = omega (
    arith,
    v.slots.bounded,
    length-erase_key w.0 p.sessions w.1 v.slots.distinct victim.resident,
  );
  fewer = λ k h. rw (keys-erase_key w.0 p.sessions) (has-erase-false k w.0 (keys p.sessions) h);
  frame = record {
    entries = refl;
    next_entry = refl;
    held = refl;
    pending_sessions = refl;
    max_sessions = refl;
  };
})

make_room-Roomy : (p q : Pool) → Inv p → make_room p ≡ ok q → Roomy p q
make_room-Roomy p q v h = elim (make_room_lem p v.slots.distinct) [
  | inl (room, e) ↦ subst (Roomy p) (cc) (record {
    inv = v;
    room = room;
    fewer = λ k h. h;
    frame = record {
      entries = refl;
      next_entry = refl;
      held = refl;
      pending_sessions = refl;
      max_sessions = refl;
    };
  })
  | inr (inl (full, w, victim, e)) ↦ subst (Roomy p) (cc) (evict-Roomy p w v victim)
  | inr (inr (full, busy, e)) ↦ cc
]

-- What a reservation is.
pub record Reserved (p : Pool) (id : String) (q : Pool) : Type 0 where
  pub inv : Inv q
  pub vacant : has id (keys q.sessions) ≡ false
  pub free : has id p.pending_sessions ≡ false
  pub pending : q.pending_sessions ≡ id ∷ p.pending_sessions
  pub limit : q.max_sessions ≡ p.max_sessions
  pub next_entry : q.next_entry ≡ p.next_entry
  pub entries : q.entries ≡ p.entries
  pub held : q.held ≡ p.held

reserve_with :
    (p q : Pool) (id : String)
    → has id (keys p.sessions) ≡ false
    → has id p.pending_sessions ≡ false
    → Roomy p q
    → Reserved p id (record q { pending_sessions = id ∷ q.pending_sessions })
unfolding has
reserve_with p q id absent free r = record {
  inv = record {
    slots = record {
      bounded = omega (arith, r.room);
      distinct = r.inv.slots.distinct;
      reserved = (rw (r.frame.pending_sessions) free, r.inv.slots.reserved);
      disjoint = λ k h. ground (arith, eq_iff id k, r.inv.slots.disjoint k h, r.fewer id absent);
    };
    leases = record {
      counted = r.inv.leases.counted;
      exclusive = r.inv.leases.exclusive;
      made = r.inv.leases.made;
      left = r.inv.leases.left;
      gauge = r.inv.leases.gauge;
    };
    placed = r.inv.placed;
  };
  vacant = r.fewer id absent;
  free = free;
  pending = ap (λ ps. id ∷ ps) r.frame.pending_sessions;
  limit = r.frame.max_sessions;
  next_entry = r.frame.next_entry;
  entries = r.frame.entries;
  held = r.frame.held;
}

-- A reservation that succeeds keeps the pool well formed and within its limit, adds the id to the
-- pending ones only, and leaves the entries and who holds them as they were; the id is not resident.
pub reserve-Reserved :
    (p : Pool) (id : String) (q : Pool) → Inv p → reserve p id ≡ ok q → Reserved p id q
unfolding reserve
reserve-Reserved p id q v h =
    elim (Bool-cases (has id (keys p.sessions) || has id p.pending_sessions)) [
      | inl taken ↦ let refused = rw taken at h in cc
      | inr free ↦ elim (Result-cases (make_room p)) [
        | inl (r, roomy) ↦
            subst (Reserved p id) (let done = rw (free, roomy) at h in cc)
              (reserve_with p r id (ground arith) (ground arith) (make_room-Roomy p r v roomy))
        | inr (e, refused) ↦ let done = rw (free, refused) at h in cc
      ]
    ]

pub cancel_reservation-Inv : (p : Pool) (id : String) → Inv p → Inv (cancel_reservation p id)
unfolding cancel_reservation
cancel_reservation-Inv p id v = record {
  slots = record {
    bounded = omega (arith, v.slots.bounded, length-erase-le id p.pending_sessions);
    distinct = v.slots.distinct;
    reserved = erase-Distinct id p.pending_sessions v.slots.reserved;
    disjoint = λ k h. has-erase-false k id p.pending_sessions (v.slots.disjoint k h);
  };
  leases = record {
    counted = v.leases.counted;
    exclusive = v.leases.exclusive;
    made = v.leases.made;
    left = v.leases.left;
    gauge = v.leases.gauge;
  };
  placed = v.placed;
}

-- A reserved id that is not resident is published: the new entry goes to the caller, who is the
-- only one to hold it.
pub record Published (p : Pool) (id : String) (q : Pool) : Type 0 where
  pub inv : Inv q
  pub resident : find id q.sessions ≡ some p.next_entry
  pub pending : q.pending_sessions ≡ erase id p.pending_sessions
  pub limit : q.max_sessions ≡ p.max_sessions
  pub held : q.held ≡ p.next_entry ∷ p.held

insert_entry-Slots :
    (p : Pool) (id : String)
    → Slots p
    → has id p.pending_sessions ≡ true
    → has id (keys p.sessions) ≡ false
    → Slots (insert_entry p id)
unfolding insert_entry make_entry has
insert_entry-Slots p id v reserved vacant = record {
  bounded = omega (arith, v.bounded, length-erase id p.pending_sessions v.reserved reserved);
  distinct = (vacant, v.distinct);
  reserved = erase-Distinct id p.pending_sessions v.reserved;
  disjoint = λ k h. ground (arith, eq_iff id k, has-erase k id p.pending_sessions, v.disjoint k);
}

insert_entry-Leases : (p : Pool) (id : String) → Leases p → Leases (insert_entry p id)
unfolding insert_entry make_entry
insert_entry-Leases p id v = record {
  counted = λ b. ground (arith, v.counted b, v.made b, count-cons b p.next_entry p.held);
  exclusive = λ b. ground (arith, v.made b, v.exclusive b, count-cons b p.next_entry p.held);
  made = λ b h. ground (arith, v.made b, count-cons b p.next_entry p.held);
  left = λ b h. v.left b (omega arith);
  gauge = ground (arith, v.gauge);
}

insert_entry-Published :
    (p : Pool) (id : String)
    → Inv p
    → has id p.pending_sessions ≡ true
    → has id (keys p.sessions) ≡ false
    → Published p id (insert_entry p id)
unfolding insert_entry make_entry find
insert_entry-Published p id v reserved vacant = record {
  inv = record {
    slots = insert_entry-Slots p id v.slots reserved vacant;
    leases = insert_entry-Leases p id v.leases;
    placed = (
      omega arith,
      ground arith,
      PlacedIn-mono p.entries (insert_entry p id).entries p.next_entry (suc p.next_entry) p.sessions
          (omega arith) (λ a h. ground arith) v.placed,
    );
  };
  resident = ground (arith, eq_iff id id);
  pending = refl;
  limit = refl;
  held = refl;
}

-- A reservation is never lost: in a well-formed pool a pending id is published without error, the
-- session is resident under that id, and the new entry is held by nobody but the caller.
pub publish-Published :
    (p : Pool) (id : String)
    → Inv p
    → has id p.pending_sessions ≡ true
    → Published p id (publish p id).0 × ((publish p id).1 ≡ ok p.next_entry)
unfolding publish
publish-Published p id v reserved = elim (Bool-cases (has id (keys p.sessions))) [
  | inl resident ↦ let clash = v.slots.disjoint id resident in cc
  | inr vacant ↦ rw (reserved, vacant) (insert_entry-Published p id v reserved vacant, refl)
]
