-- ===== src/Pool/Invariant.antt =====
-- The well-formedness of a pool, in three independent parts, and what each part needs of a change.
use gem16gb.Prelude.{
  ℕ, ◌+◌, ◌%◌, ◌^◌, ◌≤◌, ◌<◌, ◌≡◌, String, true, false, some, List, [], ◌∷◌, arith, length, eq_iff,
}
use gem16gb.Pool.Keys.{find, has, Distinct, keys}
use gem16gb.Pool.Count.{count}
use gem16gb.Pool.{Pool, SessionEntry}

-- Resident and reserved sessions fit the limit, and no id is used twice.
pub record Slots (p : Pool) : Type 0 where
  pub bounded : length p.sessions + length p.pending_sessions ≤ p.max_sessions
  pub distinct : Distinct (keys p.sessions)
  pub reserved : Distinct p.pending_sessions
  pub disjoint : (k : String) → has k (keys p.sessions) ≡ true → has k p.pending_sessions ≡ false

-- An entry's request counter is the number of handlers that hold it, at most one; no handler holds
-- an entry that has not been made, nor leaves it; the gauge counts the handlers that hold an entry and
-- those that are leaving one.
pub record Leases (p : Pool) : Type 0 where
  pub counted : (a : ℕ) → (p.entries a).active_requests ≡ count a p.held
  pub exclusive : (a : ℕ) → count a p.held ≤ 1
  pub made : (a : ℕ) → p.next_entry ≤ a → count a p.held ≡ 0
  pub left : (a : ℕ) → p.next_entry ≤ a → count a p.leaving ≡ 0
  pub gauge : p.metrics.active_requests ≡ (length p.held + length p.leaving) % 2 ^ 64

-- Every resident session has been made, under the id that it is found by.
abbrev pub PlacedIn : (ℕ → SessionEntry) → ℕ → List (String × ℕ) → Type 0
PlacedIn entries next [] = Unit {0}
PlacedIn entries next ((id, a) ∷ m) = (a < next) × ((entries a).id ≡ id) × PlacedIn entries next m

abbrev pub Placed : Pool → Type 0
Placed p = PlacedIn p.entries p.next_entry p.sessions

pub record Inv (p : Pool) : Type 0 where
  pub slots : Slots p
  pub leases : Leases p
  pub placed : Placed p

-- A change of the store that keeps the ids of what was made keeps the sessions in place.
pub PlacedIn-mono :
    (entries entries' : ℕ → SessionEntry) (next next' : ℕ) (m : List (String × ℕ))
    → next ≤ next'
    → ((a : ℕ) → a < next → (entries' a).id ≡ (entries a).id)
    → PlacedIn entries next m
    → PlacedIn entries' next' m
PlacedIn-mono entries entries' next next' [] le same v = tt
PlacedIn-mono entries entries' next next' ((id, a) ∷ m) le same v =
    (omega arith, cc (same a v.0), PlacedIn-mono entries entries' next next' m le same v.2)

pub find-PlacedIn :
    (entries : ℕ → SessionEntry) (next : ℕ) (id : String) (a : ℕ) (m : List (String × ℕ))
    → PlacedIn entries next m
    → find id m ≡ some a
    → (a < next) × ((entries a).id ≡ id)
unfolding find
find-PlacedIn entries next id a [] v h = cc
find-PlacedIn entries next id a ((j, b) ∷ m) v h =
    ground (arith, eq_iff j id, find-PlacedIn entries next id a m v.2)
