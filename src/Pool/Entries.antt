-- ===== src/Pool/Entries.antt =====
-- Acquiring and releasing entries, and the changes that touch no lease.
use gem16gb.Prelude.{
  ℕ, ◌<◌, ◌≡◌, ◌∙◌, refl, inl, inr, String, true, not, ◌&&◌, List, [], ◌∷◌, ◌==◌, arith, str_eq,
  Bool-cases, Option-cases,
}
use gem16gb.Pool.Keys.{find, erase_key, values}
use gem16gb.Pool.Count.{
  member, count, count-cons, count-remove_one, length-remove_one, count-member,
}
use gem16gb.Pool.{
  Pool, PoolMetrics, SessionEntry, update, inc64, alive, acquire, acquire_idle,
  acquire_response_session, draw_tick, store_last_used, drop_request, drop_gauge, release_session,
  set_active_response, clear_active_response, cancel_response,
}
use gem16gb.Pool.Invariant.{Leases, PlacedIn, PlacedIn-mono, Inv}

pub acquire-Leases :
    (p : Pool) (a : ℕ)
    → Leases p
    → a < p.next_entry
    → (p.entries a).active_requests ≡ 0
    → Leases (acquire p a)
unfolding acquire
acquire-Leases p a v known idle = record {
  counted = λ b. ground (arith, v.counted b, v.counted a, v.exclusive b, count-cons b a p.held);
  exclusive = λ b. ground (arith, v.counted a, v.exclusive b, count-cons b a p.held);
  made = λ b h. ground (arith, v.made b h, count-cons b a p.held);
  left = v.left;
  gauge = ground (arith, v.gauge);
}

drop_request-Leases : (p : Pool) (a : ℕ) → Leases p → 0 < count a p.held → Leases (drop_request p a)
unfolding drop_request
drop_request-Leases p a v holding = record {
  counted = λ b.
      ground (
        arith,
        v.counted b,
        v.counted a,
        v.exclusive b,
        v.exclusive a,
        count-remove_one b a p.held,
      );
  exclusive = λ b. ground (arith, v.exclusive b, count-remove_one b a p.held);
  made = λ b h. ground (arith, v.made b h, count-remove_one b a p.held);
  left = λ b h. ground (arith, v.left b h, v.made b h, count-cons b a p.leaving);
  gauge = ground (arith, v.gauge, length-remove_one a p.held holding);
}

drop_gauge-Leases : (p : Pool) (a : ℕ) → Leases p → 0 < count a p.leaving → Leases (drop_gauge p a)
unfolding drop_gauge
drop_gauge-Leases p a v leaves = record {
  counted = v.counted;
  exclusive = v.exclusive;
  made = v.made;
  left = λ b h. ground (arith, v.left b h, count-remove_one b a p.leaving);
  gauge = ground (arith, v.gauge, length-remove_one a p.leaving leaves);
}

-- A change of the store that keeps ids and request counters, and of what the invariant leaves open.
pub retouch-Inv :
    (p : Pool) (entries : ℕ → SessionEntry) (response_index : List (String × ℕ)) (m : PoolMetrics)
    → ((a : ℕ) → (entries a).id ≡ (p.entries a).id)
    → ((a : ℕ) → (entries a).active_requests ≡ (p.entries a).active_requests)
    → m.active_requests ≡ p.metrics.active_requests
    → Inv p
    → Inv (record p { entries = entries; response_index = response_index; metrics = m })
retouch-Inv p entries response_index m ids active gauge v = record {
  slots = record {
    bounded = v.slots.bounded;
    distinct = v.slots.distinct;
    reserved = v.slots.reserved;
    disjoint = v.slots.disjoint;
  };
  leases = record {
    counted = λ a. active a ∙ v.leases.counted a;
    exclusive = v.leases.exclusive;
    made = v.leases.made;
    left = v.leases.left;
    gauge = gauge ∙ v.leases.gauge;
  };
  placed =
      PlacedIn-mono p.entries entries p.next_entry p.next_entry p.sessions (omega arith)
        (λ a h. ids a) v.placed;
}

pub acquire-Inv :
    (p : Pool) (a : ℕ)
    → Inv p
    → a < p.next_entry
    → (p.entries a).active_requests ≡ 0
    → Inv (acquire p a)
unfolding acquire
acquire-Inv p a v known idle = record {
  slots = record {
    bounded = v.slots.bounded;
    distinct = v.slots.distinct;
    reserved = v.slots.reserved;
    disjoint = v.slots.disjoint;
  };
  leases = acquire-Leases p a v.leases known idle;
  placed =
      PlacedIn-mono p.entries (acquire p a).entries p.next_entry p.next_entry p.sessions
        (omega arith) (λ b h. ground arith) v.placed;
}

pub draw_tick-Inv : (p : Pool) → Inv p → Inv (draw_tick p)
unfolding draw_tick
draw_tick-Inv p v = record {
  slots = record {
    bounded = v.slots.bounded;
    distinct = v.slots.distinct;
    reserved = v.slots.reserved;
    disjoint = v.slots.disjoint;
  };
  leases = record {
    counted = v.leases.counted;
    exclusive = v.leases.exclusive;
    made = v.leases.made;
    left = v.leases.left;
    gauge = v.leases.gauge;
  };
  placed = v.placed;
}

pub store_last_used-Inv : (p : Pool) (a tick : ℕ) → Inv p → Inv (store_last_used p a tick)
unfolding store_last_used
store_last_used-Inv p a tick v =
    retouch-Inv p (update p.entries a (record (p.entries a) { last_used = tick })) p.response_index
      p.metrics (λ b. ground arith) (λ b. ground arith) refl v

pub drop_request-Inv : (p : Pool) (a : ℕ) → Inv p → 0 < count a p.held → Inv (drop_request p a)
unfolding drop_request
drop_request-Inv p a v holding = record {
  slots = record {
    bounded = v.slots.bounded;
    distinct = v.slots.distinct;
    reserved = v.slots.reserved;
    disjoint = v.slots.disjoint;
  };
  leases = drop_request-Leases p a v.leases holding;
  placed =
      PlacedIn-mono p.entries (drop_request p a).entries p.next_entry p.next_entry p.sessions
        (omega arith) (λ b h. ground arith) v.placed;
}

pub drop_gauge-Inv : (p : Pool) (a : ℕ) → Inv p → 0 < count a p.leaving → Inv (drop_gauge p a)
unfolding drop_gauge
drop_gauge-Inv p a v leaves = record {
  slots = record {
    bounded = v.slots.bounded;
    distinct = v.slots.distinct;
    reserved = v.slots.reserved;
    disjoint = v.slots.disjoint;
  };
  leases = drop_gauge-Leases p a v.leases leaves;
  placed = v.placed;
}

count_first : (a : ℕ) (bs : List ℕ) → 0 < count a (a ∷ bs)
count_first a bs = ground (arith, count-cons a a bs)

pub release_session-Inv :
    (p : Pool) (a : ℕ) → Inv p → 0 < count a p.held → Inv (release_session p a)
unfolding release_session draw_tick store_last_used drop_request
release_session-Inv p a v holding =
    drop_gauge-Inv _ a
      (drop_request-Inv _ a (store_last_used-Inv _ a p.lru_clock (draw_tick-Inv p v)) holding)
      (count_first a p.leaving)

pub acquire_idle-Inv :
    (p : Pool) (a : ℕ) (busy : String) → Inv p → a < p.next_entry → Inv (acquire_idle p a busy).0
unfolding acquire_idle
acquire_idle-Inv p a busy v known = elim (Bool-cases (not ((p.entries a).active_requests == 0))) [
  | inl taken ↦ rw taken v
  | inr idle ↦ rw idle (acquire-Inv p a v known (ground arith))
]

PlacedIn-member :
    (entries : ℕ → SessionEntry) (next a : ℕ) (m : List (String × ℕ))
    → PlacedIn entries next m
    → member a (values m) ≡ true
    → a < next
unfolding member
PlacedIn-member entries next a [] v h = cc
PlacedIn-member entries next a ((j, b) ∷ m) v h =
    ground (arith, PlacedIn-member entries next a m v.2)

-- A weak pointer that locks points to an entry that has been made.
pub alive-made : (p : Pool) (a : ℕ) → Inv p → alive p a ≡ true → a < p.next_entry
unfolding alive
alive-made p a v h = ground (
  arith,
  PlacedIn-member p.entries p.next_entry a p.sessions v.placed,
  count-member a p.held,
  v.leases.made a,
  count-member a p.leaving,
  v.leases.left a,
)

pub acquire_response_session-Inv :
    (p : Pool) (response_id : String) → Inv p → Inv (acquire_response_session p response_id).0
unfolding acquire_response_session
acquire_response_session-Inv p response_id v =
    elim (Option-cases (find response_id p.response_index)) [
      | inl absent ↦ rw (absent, acquire_response_session) v
      | inr (a, found) ↦ elim (Bool-cases (alive p a)) [
        | inl live ↦
            rw (found, acquire_response_session)
              (rw live (acquire_idle-Inv p a _ v (alive-made p a v live)))
        | inr dead ↦
            rw (found, acquire_response_session)
              (rw dead (
                retouch-Inv p p.entries (erase_key response_id p.response_index) p.metrics
                  (λ b. refl) (λ b. refl) refl v))
      ]
    ]

pub cancel_response-Inv :
    (p : Pool) (response_id : String) → Inv p → Inv (cancel_response p response_id).0
unfolding cancel_response
cancel_response-Inv p response_id v = elim (Option-cases (find response_id p.response_index)) [
  | inl absent ↦ rw (absent, cancel_response) v
  | inr (a, found) ↦
      rw (found, cancel_response)
        (elim (Bool-cases (
          alive p a
          && (str_eq (p.entries a).active_response_id response_id
              && not ((p.entries a).active_requests == 0)))) [
                | inl live ↦ rw live (
                    retouch-Inv p
                      (update p.entries a (record (p.entries a) { cancel_requested = true }))
                      p.response_index
                      (record p.metrics {
                        cancellations_requested = inc64 p.metrics.cancellations_requested;
                      })
                      (λ b. ground arith) (λ b. ground arith) refl v)
                | inr dead ↦ rw dead v
              ])
]

pub set_active_response-Inv :
    (p : Pool) (a : ℕ) (response_id : String) → Inv p → Inv (set_active_response p a response_id)
unfolding set_active_response
set_active_response-Inv p a response_id v =
    retouch-Inv p (update p.entries a (record (p.entries a) { active_response_id = response_id }))
      p.response_index p.metrics (λ b. ground arith) (λ b. ground arith) refl v

pub clear_active_response-Inv :
    (p : Pool) (a : ℕ) (response_id : String) → Inv p → Inv (clear_active_response p a response_id)
unfolding clear_active_response
clear_active_response-Inv p a response_id v =
    elim (Bool-cases (str_eq (p.entries a).active_response_id response_id)) [
      | inl same ↦ rw same (
          retouch-Inv p (update p.entries a (record (p.entries a) { active_response_id = "" }))
            p.response_index p.metrics (λ b. ground arith) (λ b. ground arith) refl v)
      | inr other ↦ rw other v
    ]
