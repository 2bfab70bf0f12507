-- ===== src/Pool/Steps.antt =====
-- Interleavings: any number of request handlers, each in its own place of its work. A step is one
-- critical section of one handler, or one of the four atomic updates of ReleaseSession, which takes no
-- lock. An update that falls inside of another handler's critical section is taken to come before or
-- behind it. `drawn` lists the entries whose handler has read the clock and not yet stored it, with
-- what it read, `stored` those whose handler has stored it and not yet counted its request down.
-- `creating` lists the ids whose session is being constructed between the two critical sections of
-- CreateSession. A handler releases, discards, indexes and marks only entries that it holds.
use gem16gb.Prelude.{ℕ, ◌<◌, ◌≡◌, refl, ap, ◌∙◌, String, true, some, List, [], ◌∷◌, ◌++◌, arith}
use gem16gb.Status.{ok}
use gem16gb.Pool.Keys.{find, has, erase}
use gem16gb.Pool.Count.{count, remove_one}
use gem16gb.Pool.{
  Pool, init, reserve, cancel_reservation, publish, acquire_idle, acquire_response_session,
  draw_tick, store_last_used, drop_request, drop_gauge, discard_session, index_response,
  unindex_response, set_active_response, clear_active_response, cancel_response,
}
use gem16gb.Pool.Invariant.{find-PlacedIn, Inv}
use gem16gb.Pool.Entries.{
  retouch-Inv, acquire_idle-Inv, acquire_response_session-Inv, draw_tick-Inv, store_last_used-Inv,
  drop_request-Inv, drop_gauge-Inv, set_active_response-Inv, clear_active_response-Inv,
  cancel_response-Inv,
}
use gem16gb.Pool.Erase.{erase_session_locked-Inv}
use gem16gb.Pool.Pending.{
  acquire_idle-Keeps, acquire_response_session-Keeps, draw_tick-Keeps, store_last_used-Keeps,
  drop_request-Keeps, drop_gauge-Keeps, discard_session-Keeps, index_response-Keeps,
  unindex_response-Keeps, set_active_response-Keeps, clear_active_response-Keeps,
  cancel_response-Keeps,
}
use gem16gb.Pool.Create.{reserve-Reserved, cancel_reservation-Inv, publish-Published}

pub record World : Type 0 where
  pub pool : Pool
  pub creating : List String
  pub drawn : List (ℕ × ℕ)
  pub stored : List ℕ

pub data Step : World → World → Type 0 where
  begins :
      (w : World) (id : String) (q : Pool)
      → reserve w.pool id ≡ ok q
      → Step w (record w { pool = q; creating = id ∷ w.creating })
  fails :
      (w : World) (id : String)
      → has id w.creating ≡ true
      → Step w (record w { pool = cancel_reservation w.pool id; creating = erase id w.creating })
  publishes :
      (w : World) (id : String)
      → has id w.creating ≡ true
      → Step w (record w { pool = (publish w.pool id).0; creating = erase id w.creating })
  -- AcquireNamedSession of a resident session.
  acquires :
      (w : World) (id : String) (a : ℕ) (busy : String)
      → find id w.pool.sessions ≡ some a
      → Step w (record w { pool = (acquire_idle w.pool a busy).0 })
  continues :
      (w : World) (response_id : String)
      → Step w (record w { pool = (acquire_response_session w.pool response_id).0 })
  draws :
      (w : World) (a : ℕ)
      → 0 < count a w.pool.held
      → Step w (record w { pool = draw_tick w.pool; drawn = (a, w.pool.lru_clock) ∷ w.drawn })
  stores :
      (w : World) (front back : List (ℕ × ℕ)) (a tick : ℕ)
      → w.drawn ≡ front ++ (a, tick) ∷ back
      → Step w (record w {
        pool = store_last_used w.pool a tick;
        drawn = front ++ back;
        stored = a ∷ w.stored;
      })
  drops :
      (w : World) (a : ℕ)
      → 0 < count a w.stored
      → 0 < count a w.pool.held
      → Step w (record w { pool = drop_request w.pool a; stored = remove_one a w.stored })
  leaves :
      (w : World) (a : ℕ)
      → 0 < count a w.pool.leaving
      → Step w (record w { pool = drop_gauge w.pool a })
  discards :
      (w : World) (a : ℕ)
      → 0 < count a w.pool.held
      → Step w (record w { pool = discard_session w.pool a })
  indexes :
      (w : World) (a : ℕ) (response_id : String)
      → 0 < count a w.pool.held
      → Step w (record w { pool = index_response w.pool a response_id })
  unindexes :
      (w : World) (response_id : String)
      → Step w (record w { pool = unindex_response w.pool response_id })
  marks :
      (w : World) (a : ℕ) (response_id : String)
      → 0 < count a w.pool.held
      → Step w (record w { pool = set_active_response w.pool a response_id })
  unmarks :
      (w : World) (a : ℕ) (response_id : String)
      → 0 < count a w.pool.held
      → Step w (record w { pool = clear_active_response w.pool a response_id })
  cancels :
      (w : World) (response_id : String)
      → Step w (record w { pool = (cancel_response w.pool response_id).0 })

pub data Reach (s : World) : World → Type 0 where
  here : Reach s s
  next : {t u : World} → Reach s t → Step t u → Reach s u

abbrev pub start : ℕ → World
start max_sessions = record { pool = init max_sessions; creating = []; drawn = []; stored = [] }

pub record WorldInv (limit : ℕ) (w : World) : Type 0 where
  pub pool : Inv w.pool
  pub limited : w.pool.max_sessions ≡ limit
  -- Each reservation belongs to one creation that is under way.
  pub reserved : w.pool.pending_sessions ≡ w.creating

pub index_response-Inv :
    (p : Pool) (index : List (String × ℕ)) → Inv p → Inv (record p { response_index = index })
index_response-Inv p index v =
    retouch-Inv p p.entries index p.metrics (λ a. refl) (λ a. refl) refl v

pub start-WorldInv : (n : ℕ) → WorldInv n (start n)
unfolding init has count
start-WorldInv n = record {
  pool = record {
    slots = record { bounded = omega arith; distinct = tt; reserved = tt; disjoint = λ k h. refl };
    leases = record {
      counted = λ a. refl;
      exclusive = λ a. omega arith;
      made = λ a h. refl;
      left = λ a h. refl;
      gauge = refl;
    };
    placed = tt;
  };
  limited = refl;
  reserved = refl;
}

Step-WorldInv : {n : ℕ} {w u : World} → Step w u → WorldInv n w → WorldInv n u
Step-WorldInv (begins w id q done) v =
    let r = reserve-Reserved w.pool id q v.pool done in
    record {
      pool = r.inv;
      limited = r.limit ∙ v.limited;
      reserved = r.pending ∙ ap (λ ps. id ∷ ps) v.reserved;
    }
Step-WorldInv (fails w id mine) v = record {
  pool = cancel_reservation-Inv w.pool id v.pool;
  limited = unfold cancel_reservation in v.limited;
  reserved = unfold cancel_reservation in ap (erase id) v.reserved;
}
Step-WorldInv (publishes w id mine) v =
    let (done, _) = publish-Published w.pool id v.pool (rw v.reserved mine) in
    record {
      pool = done.inv;
      limited = done.limit ∙ v.limited;
      reserved = done.pending ∙ ap (erase id) v.reserved;
    }
Step-WorldInv (acquires w id a busy found) v = record {
  pool =
      acquire_idle-Inv w.pool a busy v.pool
        (find-PlacedIn w.pool.entries w.pool.next_entry id a w.pool.sessions v.pool.placed found).0;
  limited = (acquire_idle-Keeps w.pool a busy).1 ∙ v.limited;
  reserved = (acquire_idle-Keeps w.pool a busy).0 ∙ v.reserved;
}
Step-WorldInv (continues w response_id) v = record {
  pool = acquire_response_session-Inv w.pool response_id v.pool;
  limited = (acquire_response_session-Keeps w.pool response_id).1 ∙ v.limited;
  reserved = (acquire_response_session-Keeps w.pool response_id).0 ∙ v.reserved;
}
Step-WorldInv (draws w a holding) v = record {
  pool = draw_tick-Inv w.pool v.pool;
  limited = (draw_tick-Keeps w.pool).1 ∙ v.limited;
  reserved = (draw_tick-Keeps w.pool).0 ∙ v.reserved;
}
Step-WorldInv (stores w front back a tick listed) v = record {
  pool = store_last_used-Inv w.pool a tick v.pool;
  limited = (store_last_used-Keeps w.pool a tick).1 ∙ v.limited;
  reserved = (store_last_used-Keeps w.pool a tick).0 ∙ v.reserved;
}
Step-WorldInv (drops w a ready holding) v = record {
  pool = drop_request-Inv w.pool a v.pool holding;
  limited = (drop_request-Keeps w.pool a).1 ∙ v.limited;
  reserved = (drop_request-Keeps w.pool a).0 ∙ v.reserved;
}
Step-WorldInv (leaves w a leaving) v = record {
  pool = drop_gauge-Inv w.pool a v.pool leaving;
  limited = (drop_gauge-Keeps w.pool a).1 ∙ v.limited;
  reserved = (drop_gauge-Keeps w.pool a).0 ∙ v.reserved;
}
Step-WorldInv (discards w a holding) v = record {
  pool = unfold discard_session in erase_session_locked-Inv w.pool _ v.pool;
  limited = (discard_session-Keeps w.pool a).1 ∙ v.limited;
  reserved = (discard_session-Keeps w.pool a).0 ∙ v.reserved;
}
Step-WorldInv (indexes w a response_id holding) v = record {
  pool = unfold index_response in index_response-Inv w.pool _ v.pool;
  limited = (index_response-Keeps w.pool a response_id).1 ∙ v.limited;
  reserved = (index_response-Keeps w.pool a response_id).0 ∙ v.reserved;
}
Step-WorldInv (unindexes w response_id) v = record {
  pool = unfold unindex_response in index_response-Inv w.pool _ v.pool;
  limited = (unindex_response-Keeps w.pool response_id).1 ∙ v.limited;
  reserved = (unindex_response-Keeps w.pool response_id).0 ∙ v.reserved;
}
Step-WorldInv (marks w a response_id holding) v = record {
  pool = set_active_response-Inv w.pool a response_id v.pool;
  limited = (set_active_response-Keeps w.pool a response_id).1 ∙ v.limited;
  reserved = (set_active_response-Keeps w.pool a response_id).0 ∙ v.reserved;
}
Step-WorldInv (unmarks w a response_id holding) v = record {
  pool = clear_active_response-Inv w.pool a response_id v.pool;
  limited = (clear_active_response-Keeps w.pool a response_id).1 ∙ v.limited;
  reserved = (clear_active_response-Keeps w.pool a response_id).0 ∙ v.reserved;
}
Step-WorldInv (cancels w response_id) v = record {
  pool = cancel_response-Inv w.pool response_id v.pool;
  limited = (cancel_response-Keeps w.pool response_id).1 ∙ v.limited;
  reserved = (cancel_response-Keeps w.pool response_id).0 ∙ v.reserved;
}

-- Whatever the handlers do and however their critical sections and the atomic updates of their releases
-- interleave, the pool of a server that was started with a limit stays well formed: resident and reserved
-- sessions together stay within that limit, no id stands twice, every session has at most one handler
-- that has not counted its request down, the request counter of each entry agrees with these handlers,
-- the gauge counts them and those that have only the gauge left to count down, and the pending ids are
-- those of the creations under way, in order.
pub Reach-WorldInv : (n : ℕ) {w : World} → Reach (start n) w → WorldInv n w
Reach-WorldInv n here = start-WorldInv n
Reach-WorldInv n (next r s) = Step-WorldInv s (Reach-WorldInv n r)

-- In every state that the server can reach, a creation that is under way can publish its session: the
-- error for a lost reservation is never returned.
pub Reach-publish :
    (n : ℕ) {w : World} (id : String)
    → Reach (start n) w
    → has id w.creating ≡ true
    → (publish w.pool id).1 ≡ ok w.pool.next_entry
Reach-publish n {w} id r mine =
    let v = Reach-WorldInv n r in (publish-Published w.pool id v.pool (rw v.reserved mine)).1
