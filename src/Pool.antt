-- ===== src/Pool.antt =====
-- src/server/session_pool.{h,cpp}, and the cancel handler of src/cli/server_main.cpp.
--
-- Session entries are shared objects: `entries` is the store of them, and an entry is named by its
-- place in it. The map `sessions` and the request handlers hold `shared_ptr`s, the response index
-- holds `weak_ptr`s. `held` lists the entries that a request handler keeps, once for each acquire
-- that it has not released; together with `sessions` it decides whether a `weak_ptr` still locks.
-- A function is one critical section of `pool_mutex`, or a sequence of them, but for ReleaseSession,
-- which takes no lock: `draw_tick`, `store_last_used`, `drop_request` and `drop_gauge` are its four
-- atomic updates. `leaving` lists the entries whose handler is between the last two: the entry counts no request any
-- more, the gauge still does, and the handler keeps its pointer. The chat session of an entry and its
-- response chain are not read by the pool.
pub mod Keys
pub mod Count
pub mod Invariant
pub mod Entries
pub mod Erase
pub mod Victim
pub mod Create
pub mod Pending
pub mod Steps
pub mod Behaviour
pub mod Tests
use gem16gb.Prelude.{
  ℕ, suc, ◌+◌, ◌-◌, ◌%◌, ◌^◌, String, Bool, true, false, not, ◌&&◌, ◌||◌, Option, none, some, List,
  [], ◌∷◌, ltb, leb, ◌==◌, if◌then◌else◌, length, str_eq,
}
use gem16gb.Status.{
  Result, Status, ok, err, fail, refuse_if, ◌>>=◌, ◌>>◌, invalid_argument, not_found,
  resource_exhausted, internal,
}
use Keys.{find, has, erase, erase_key, assign, values}
use Count.{member, remove_one}

pub record SessionEntry : Type 0 where
  pub id : String
  pub active_requests : ℕ
  pub last_used : ℕ
  pub cancel_requested : Bool
  pub active_response_id : String

-- The counters that the pool itself maintains.
pub record PoolMetrics : Type 0 where
  pub active_requests : ℕ
  pub sessions_created : ℕ
  pub sessions_evicted : ℕ
  pub cancellations_requested : ℕ

pub record Pool : Type 0 where
  pub max_sessions : ℕ
  pub entries : ℕ → SessionEntry
  pub next_entry : ℕ
  pub sessions : List (String × ℕ)
  pub response_index : List (String × ℕ)
  pub pending_sessions : List String
  pub lru_clock : ℕ
  pub metrics : PoolMetrics
  pub held : List ℕ
  pub leaving : List ℕ

-- A place of the store that no entry has been made in.
abbrev pub no_entry : SessionEntry
no_entry = record {
  id = "";
  active_requests = 0;
  last_used = 0;
  cancel_requested = false;
  active_response_id = "";
}

unfoldable pub init : ℕ → Pool
init max_sessions = record {
  max_sessions = max_sessions;
  entries = λ a. no_entry;
  next_entry = 0;
  sessions = [];
  response_index = [];
  pending_sessions = [];
  lru_clock = 1;
  metrics = record {
    active_requests = 0;
    sessions_created = 0;
    sessions_evicted = 0;
    cancellations_requested = 0;
  };
  held = [];
  leaving = [];
}

-- fetch_add(1) and fetch_sub(1) on std::atomic<uint64_t>.
abbrev pub inc64 : ℕ → ℕ
inc64 n = (n + 1) % 2 ^ 64

abbrev pub dec64 : ℕ → ℕ
dec64 n = (n + 2 ^ 64 - 1) % 2 ^ 64

abbrev pub update : (ℕ → SessionEntry) → ℕ → SessionEntry → ℕ → SessionEntry
update entries a e b = if b == a then e else entries b

-- weak_ptr::lock() of a weak pointer to the entry at `a`: is it still alive?
pub alive : Pool → ℕ → Bool
alive p a = member a (values p.sessions) || (member a p.held || member a p.leaving)

-- The loop over the response index, with the pointers that die or point to `entry` erased.
pub drop_responses : Pool → ℕ → List (String × ℕ) → List (String × ℕ)
drop_responses p entry [] = []
drop_responses p entry ((response_id, indexed) ∷ rest) =
    let kept = drop_responses p entry rest in
    if not (alive p indexed) || indexed == entry then kept else (response_id, indexed) ∷ kept

pub erase_session_locked : Pool → String → Pool
erase_session_locked p id = elim (find id p.sessions) [
  | none ↦ p
  | some entry ↦ record p {
    response_index = drop_responses p entry p.response_index;
    sessions = erase_key id p.sessions;
  }
]

-- Is the session at `a` used less recently than the victim so far?
pub older : Pool → ℕ → Option (String × ℕ) → Bool
older p a none = true
older p a (some (_, victim)) = ltb (p.entries a).last_used (p.entries victim).last_used

-- The body of the loop over the sessions: the victim after one more session.
pub consider : Pool → String × ℕ → Option (String × ℕ) → Option (String × ℕ)
unfolding older
consider p (id, a) victim =
    if not ((p.entries a).active_requests == 0)
    then victim
    else if older p a victim
    then some (id, a)
    else victim

-- The loop that picks the least recently used session that is idle.
pub pick_victim : Pool → List (String × ℕ) → Option (String × ℕ) → Option (String × ℕ)
pick_victim p [] victim = victim
pick_victim p (session ∷ rest) victim = pick_victim p rest (consider p session victim)

pub evict : Pool → String → Pool
evict p victim_id =
    let q = erase_session_locked p victim_id in
    record q { metrics = record q.metrics { sessions_evicted = inc64 q.metrics.sessions_evicted } }

pub make_room : Pool → Result Pool
make_room p =
    if leb p.max_sessions (length p.sessions + length p.pending_sessions)
    then elim (pick_victim p p.sessions none) [
      | none ↦ fail resource_exhausted "all resident execution slots are active or being created"
      | some (victim_id, _) ↦ ok (evict p victim_id)
    ]
    else ok p

-- CreateSession, its first critical section: reserve a slot for the id.
pub reserve : Pool → String → Result Pool
reserve p id = do
  refuse_if (has id (Keys.keys p.sessions) || has id p.pending_sessions) invalid_argument
      "session ID is already resident or being created"
  q ← make_room p
  ok (record q { pending_sessions = id ∷ q.pending_sessions })

-- CreateSession, when ChatSession::Create failed.
pub cancel_reservation : Pool → String → Pool
cancel_reservation p id = record p { pending_sessions = erase id p.pending_sessions }

-- A new entry that has its first request and has just been used.
pub make_entry : Pool → String → Pool
make_entry p id = record p {
  entries =
      update p.entries p.next_entry
        (record no_entry { id = id; active_requests = 1; last_used = p.lru_clock });
  next_entry = suc p.next_entry;
  lru_clock = inc64 p.lru_clock;
}

-- The new entry in the map, held by the request that made it.
pub insert_entry : Pool → String → Pool
insert_entry p id = record (make_entry p id) {
  pending_sessions = erase id p.pending_sessions;
  metrics = record p.metrics {
    sessions_created = inc64 p.metrics.sessions_created;
    active_requests = inc64 p.metrics.active_requests;
  };
  sessions = (id, p.next_entry) ∷ p.sessions;
  held = p.next_entry ∷ p.held;
}

-- CreateSession, from the construction of the entry to its publication.
pub publish : Pool → String → Pool × Result ℕ
publish p id =
    if not (has id p.pending_sessions) || has id (Keys.keys p.sessions)
    then (
      record (make_entry p id) { pending_sessions = erase id p.pending_sessions },
      fail internal "session reservation was lost before publication",
    )
    else (insert_entry p id, ok p.next_entry)

-- CreateSession as one call that nobody interrupts; `created` is what ChatSession::Create returned.
pub create_session : Pool → String → Result (Unit {0}) → Pool × Result ℕ
create_session p id created = elim (reserve p id) [
  | err e ↦ (p, err e)
  | ok q ↦ elim created [ err e ↦ (cancel_reservation q id, err e) | ok _ ↦ publish q id ]
]

-- One more request on an entry.
pub acquire : Pool → ℕ → Pool
acquire p a = record p {
  entries = update p.entries a (record (p.entries a) {
    active_requests = ((p.entries a).active_requests + 1) % 2 ^ 32;
    last_used = p.lru_clock;
  });
  lru_clock = inc64 p.lru_clock;
  metrics = record p.metrics { active_requests = inc64 p.metrics.active_requests };
  held = a ∷ p.held;
}

-- The common end of AcquireNamedSession and AcquireResponseSession.
pub acquire_idle : Pool → ℕ → String → Pool × Result ℕ
acquire_idle p a busy =
    if not ((p.entries a).active_requests == 0)
    then (p, fail resource_exhausted busy)
    else (acquire p a, ok a)

pub acquire_named_session : Pool → String → Result (Unit {0}) → Pool × Result ℕ
unfolding acquire_idle
acquire_named_session p id created = elim (find id p.sessions) [
  | some a ↦ acquire_idle p a "session already has an active request"
  | none ↦ create_session p id created
]

pub acquire_response_session : Pool → String → Pool × Result ℕ
unfolding acquire_idle
acquire_response_session p response_id = elim (find response_id p.response_index) [
  | none ↦ (p, fail not_found "previous_response_id is not resident")
  | some a ↦
      if not (alive p a)
      then (
        record p { response_index = erase_key response_id p.response_index },
        fail not_found "previous_response_id was evicted",
      )
      else acquire_idle p a "response session already has an active request"
]

-- The updates of ReleaseSession, in their order: the clock is read and counted up, the entry gets what was
-- read, and the request counters of the entry and of the pool go down.
pub draw_tick : Pool → Pool
draw_tick p = record p { lru_clock = inc64 p.lru_clock }

pub store_last_used : Pool → ℕ → ℕ → Pool
store_last_used p a tick = record p {
  entries = update p.entries a (record (p.entries a) { last_used = tick });
}

pub drop_request : Pool → ℕ → Pool
drop_request p a = record p {
  entries = update p.entries a (record (p.entries a) {
    active_requests = ((p.entries a).active_requests + 2 ^ 32 - 1) % 2 ^ 32;
  });
  held = remove_one a p.held;
  leaving = a ∷ p.leaving;
}

pub drop_gauge : Pool → ℕ → Pool
drop_gauge p a = record p {
  metrics = record p.metrics { active_requests = dec64 p.metrics.active_requests };
  leaving = remove_one a p.leaving;
}

-- ReleaseSession, when nobody comes between.
pub release_session : Pool → ℕ → Pool
unfolding draw_tick store_last_used drop_request drop_gauge
release_session p a = drop_gauge (drop_request (store_last_used (draw_tick p) a p.lru_clock) a) a

pub discard_session : Pool → ℕ → Pool
discard_session p a = erase_session_locked p (p.entries a).id

-- ~SessionLease
pub end_lease : Pool → ℕ → Bool → Pool
end_lease p a discard = release_session (if discard then discard_session p a else p) a

pub index_response : Pool → ℕ → String → Pool
index_response p a response_id = record p { response_index = assign response_id a p.response_index }

pub unindex_response : Pool → String → Pool
unindex_response p response_id = record p {
  response_index = erase_key response_id p.response_index;
}

pub set_active_response : Pool → ℕ → String → Pool
set_active_response p a response_id = record p {
  entries = update p.entries a (record (p.entries a) { active_response_id = response_id });
}

pub clear_active_response : Pool → ℕ → String → Pool
clear_active_response p a response_id =
    if str_eq (p.entries a).active_response_id response_id
    then record p {
      entries = update p.entries a (record (p.entries a) { active_response_id = "" });
    }
    else p

-- HandleCancelResponse: the new pool, and whether a generation was asked to stop.
pub cancel_response : Pool → String → Pool × Bool
cancel_response p response_id = elim (find response_id p.response_index) [
  | none ↦ (p, false)
  | some a ↦
      if alive p a
        && (str_eq (p.entries a).active_response_id response_id
            && not ((p.entries a).active_requests == 0))
      then (
        record p {
          entries = update p.entries a (record (p.entries a) { cancel_requested = true });
          metrics = record p.metrics {
            cancellations_requested = inc64 p.metrics.cancellations_requested;
          };
        },
        true,
      )
      else (p, false)
]
