-- ===== src/Pool/Erase.antt =====
-- EraseSessionLocked: what it changes, and that it keeps the invariant.
use gem16gb.Prelude.{
  ℕ, ◌≡◌, ◌≢◌, refl, ◌⊎◌, inl, inr, String, true, none, some, List, [], ◌∷◌, if◌then◌else◌, arith,
  str_eq, eq_iff, Option-cases,
}
use gem16gb.Pool.Keys.{
  find, has, has-erase, erase, erase_key, keys, erase-Distinct, keys-erase_key, length-erase_key,
  find-erase_key,
}
use gem16gb.Pool.{Pool, SessionEntry, alive, drop_responses, erase_session_locked}
use gem16gb.Pool.Invariant.{PlacedIn, Inv}

-- The pool without the session `id`, which is the entry at `a`.
abbrev pub without : Pool → String → ℕ → Pool
without p id a = record p {
  response_index = drop_responses p a p.response_index;
  sessions = erase_key id p.sessions;
}

pub erase_cases :
    (p : Pool) (id : String)
    → ((find id p.sessions ≡ none) × (erase_session_locked p id ≡ p))
      ⊎ ((a : ℕ) × (find id p.sessions ≡ some a) × (erase_session_locked p id ≡ without p id a))
unfolding erase_session_locked
erase_cases p id = elim (Option-cases (find id p.sessions)) [
  | inl e ↦ inl (e, rw (e, erase_session_locked))
  | inr (a, e) ↦ inr (a, e, rw (e, erase_session_locked))
]

pub erase_found :
    (p : Pool) (id : String) (a : ℕ)
    → find id p.sessions ≡ some a
    → erase_session_locked p id ≡ without p id a
unfolding erase_session_locked
erase_found p id a found = rw (found, erase_session_locked)

erase_key-PlacedIn :
    (entries : ℕ → SessionEntry) (next : ℕ) (id : String) (m : List (String × ℕ))
    → PlacedIn entries next m
    → PlacedIn entries next (erase_key id m)
unfolding erase_key
erase_key-PlacedIn entries next id [] v = tt
erase_key-PlacedIn entries next id ((j, a) ∷ m) v =
    ground (arith, erase_key-PlacedIn entries next id m v.2)

without-Inv :
    (p : Pool) (id : String) (a : ℕ) → find id p.sessions ≡ some a → Inv p → Inv (without p id a)
without-Inv p id a found v = record {
  slots = record {
    bounded =
        omega (arith, v.slots.bounded, length-erase_key id p.sessions a v.slots.distinct found);
    distinct =
        rw (keys-erase_key id p.sessions) (erase-Distinct id (keys p.sessions) v.slots.distinct);
    reserved = v.slots.reserved;
    disjoint = λ k h. v.slots.disjoint k (rest k (rw (keys-erase_key id p.sessions) at h));
  };
  leases = record {
    counted = v.leases.counted;
    exclusive = v.leases.exclusive;
    made = v.leases.made;
    left = v.leases.left;
    gauge = v.leases.gauge;
  };
  placed = erase_key-PlacedIn p.entries p.next_entry id p.sessions v.placed;
}
  where
    rest : (k : String) → has k (erase id (keys p.sessions)) ≡ true → has k (keys p.sessions) ≡ true
    rest k h = ground (arith, has-erase k id (keys p.sessions))

pub erase_session_locked-Inv : (p : Pool) (id : String) → Inv p → Inv (erase_session_locked p id)
erase_session_locked-Inv p id v = elim (erase_cases p id) [
  | inl (_, e) ↦ rw e v
  | inr (a, found, e) ↦ rw e (without-Inv p id a found v)
]

-- Nothing else of the pool changes.
pub record Frame (p q : Pool) : Type 0 where
  pub entries : q.entries ≡ p.entries
  pub next_entry : q.next_entry ≡ p.next_entry
  pub held : q.held ≡ p.held
  pub pending_sessions : q.pending_sessions ≡ p.pending_sessions
  pub max_sessions : q.max_sessions ≡ p.max_sessions

pub erase_session_locked-Frame : (p : Pool) (id : String) → Frame p (erase_session_locked p id)
erase_session_locked-Frame p id = elim (erase_cases p id) [
  | inl (_, e) ↦ rw e (record {
    entries = refl;
    next_entry = refl;
    held = refl;
    pending_sessions = refl;
    max_sessions = refl;
  })
  | inr (a, found, e) ↦ rw e (record {
    entries = refl;
    next_entry = refl;
    held = refl;
    pending_sessions = refl;
    max_sessions = refl;
  })
]

-- The session is gone, the others stay.
pub find-erase_session_locked :
    (p : Pool) (id k : String)
    → find k (erase_session_locked p id).sessions
      ≡ (if str_eq id k then none else find k p.sessions)
find-erase_session_locked p id k = elim (erase_cases p id) [
  | inl (absent, e) ↦ rw e (ground (arith, eq_iff id k))
  | inr (a, found, e) ↦ rw e (find-erase_key k id p.sessions)
]

drop_responses-live :
    (p : Pool) (entry : ℕ) (r : String) (b : ℕ) (m : List (String × ℕ))
    → find r (drop_responses p entry m) ≡ some b
    → (alive p b ≡ true) × (b ≢ entry)
unfolding find drop_responses
drop_responses-live p entry r b [] h = cc
drop_responses-live p entry r b ((j, c) ∷ m) h =
    ground (arith, eq_iff j r, drop_responses-live p entry r b m)

drop_responses-kept :
    (p : Pool) (entry : ℕ) (r : String) (b : ℕ) (m : List (String × ℕ))
    → find r m ≡ some b
    → alive p b ≡ true
    → b ≢ entry
    → find r (drop_responses p entry m) ≡ some b
unfolding find drop_responses
drop_responses-kept p entry r b [] h live other = cc
drop_responses-kept p entry r b ((j, c) ∷ m) h live other =
    ground (arith, eq_iff j r, drop_responses-kept p entry r b m)

-- A session that is erased takes its responses with it: afterwards no response id leads to its entry
-- or to a dead one.
pub erase_session_locked-dropped :
    (p : Pool) (id r : String) (a b : ℕ)
    → find id p.sessions ≡ some a
    → find r (erase_session_locked p id).response_index ≡ some b
    → (alive p b ≡ true) × (b ≢ a)
erase_session_locked-dropped p id r a b found h =
    drop_responses-live p a r b p.response_index (rw (erase_found p id a found) at h)

-- Erasing a session takes no other session's responses: a response id that led to the live entry of
-- another one still does.
pub erase_session_locked-kept :
    (p : Pool) (id r : String) (a b : ℕ)
    → find id p.sessions ≡ some a
    → find r p.response_index ≡ some b
    → alive p b ≡ true
    → b ≢ a
    → find r (erase_session_locked p id).response_index ≡ some b
erase_session_locked-kept p id r a b found h live other =
    rw (erase_found p id a found) (drop_responses-kept p a r b p.response_index h live other)
