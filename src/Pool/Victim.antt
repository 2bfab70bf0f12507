-- ===== src/Pool/Victim.antt =====
-- The least recently used idle session, and the room that evicting it makes.
use gem16gb.Prelude.{
  ℕ, ◌+◌, ◌≤◌, ◌<◌, ◌≡◌, refl, ap, sym, ◌∙◌, ◌⊎◌, inl, inr, String, true, not, Option, none, some,
  List, [], ◌∷◌, ltb, leb, ◌==◌, arith, length, eq_iff, Option-cases, Bool-cases,
}
use gem16gb.Status.{ok, fail, resource_exhausted}
use gem16gb.Pool.Keys.{find, has, keys, Distinct}
use gem16gb.Pool.{Pool, pick_victim, consider, evict, make_room}

abbrev pub Session : Type 0
Session = String × ℕ

abbrev pub Among : Session → List Session → Type 0
Among e [] = ⊥
Among e (d ∷ m) = (d ≡ e) ⊎ Among e m

abbrev pub IsIdle : Pool → Session → Type 0
IsIdle p (_, a) = (p.entries a).active_requests ≡ 0

abbrev pub last_used_of : Pool → Session → ℕ
last_used_of p (_, a) = (p.entries a).last_used

consider_from :
    (p : Pool) (e : Session) (v : Option Session) (w : Session)
    → consider p e v ≡ some w
    → (v ≡ some w) ⊎ ((e ≡ w) × IsIdle p w)
unfolding consider
consider_from p (id, a) none w h = ground arith
consider_from p (id, a) (some u) w h = ground arith

pick_victim-from :
    (p : Pool) (m : List Session) (v : Option Session) (w : Session)
    → pick_victim p m v ≡ some w
    → (v ≡ some w) ⊎ (Among w m × IsIdle p w)
unfolding pick_victim
pick_victim-from p [] v w h = inl h
pick_victim-from p (e ∷ m) v w h = elim (pick_victim-from p m (consider p e v) w h) [
  | inl at_once ↦ ground (arith, consider_from p e v w at_once)
  | inr (among, idle) ↦ inr (inr among, idle)
]

-- A victim stays one until an older is found.
consider-some :
    (p : Pool) (e u : Session)
    → (w : Session) × (consider p e (some u) ≡ some w) × (last_used_of p w ≤ last_used_of p u)
unfolding consider
consider-some p (id, a) (j, b) = elim (Bool-cases (not ((p.entries a).active_requests == 0))) [
  | inl busy ↦ ((j, b), rw busy, omega arith)
  | inr idle ↦ elim (Bool-cases (ltb (p.entries a).last_used (p.entries b).last_used)) [
    | inl old ↦ ((id, a), rw (idle, old), ground arith)
    | inr young ↦ ((j, b), rw (idle, young), omega arith)
  ]
]

consider_idle :
    (p : Pool) (e : Session) (v : Option Session)
    → IsIdle p e
    → (w : Session) × (consider p e v ≡ some w) × (last_used_of p w ≤ last_used_of p e)
unfolding consider
consider_idle p (id, a) none idle = ((id, a), ground arith, omega arith)
consider_idle p (id, a) (some (j, b)) idle =
    elim (Bool-cases (ltb (p.entries a).last_used (p.entries b).last_used)) [
      | inl old ↦ ((id, a), ground arith, omega arith)
      | inr young ↦ ((j, b), ground arith, ground arith)
    ]

pick_victim-some :
    (p : Pool) (m : List Session) (u : Session)
    → (w : Session) × (pick_victim p m (some u) ≡ some w) × (last_used_of p w ≤ last_used_of p u)
unfolding pick_victim
pick_victim-some p [] u = (u, refl, omega arith)
pick_victim-some p (e ∷ m) u =
    let (d, chosen, le) = consider-some p e u in
    let (w, picked, le') = pick_victim-some p m d in (w, rw chosen picked, omega arith)

pick_victim-idle :
    (p : Pool) (m : List Session) (v : Option Session) (e : Session)
    → Among e m
    → IsIdle p e
    → (w : Session) × (pick_victim p m v ≡ some w) × (last_used_of p w ≤ last_used_of p e)
unfolding pick_victim
pick_victim-idle p [] v e among idle = absurd among
pick_victim-idle p (d ∷ m) v e (inl same) idle =
    let (u, chosen, le) = consider_idle p d v (rw same idle) in
    let (w, picked, le') = pick_victim-some p m u in
    (w, rw chosen picked, omega (arith, ap (last_used_of p) same))
pick_victim-idle p (d ∷ m) v e (inr among) idle = pick_victim-idle p m (consider p d v) e among idle

Among-has : (id : String) (a : ℕ) (m : List Session) → Among (id, a) m → has id (keys m) ≡ true
unfolding has
Among-has id a [] among = absurd among
Among-has id a ((j, b) ∷ m) (inl same) = ground (arith, eq_iff j id, ap (λ e. e.0) same)
Among-has id a ((j, b) ∷ m) (inr among) = ground (arith, Among-has id a m among)

Among-find :
    (id : String) (a : ℕ) (m : List Session)
    → Distinct (keys m)
    → Among (id, a) m
    → find id m ≡ some a
unfolding find
Among-find id a [] d among = absurd among
Among-find id a ((j, b) ∷ m) d (inl same) =
    ground (arith, eq_iff j id, ap (λ e. e.0) same, ap (λ e. e.1) same)
Among-find id a ((j, b) ∷ m) d (inr among) =
    ground (arith, eq_iff j id, Among-has id a m among, Among-find id a m d.1 among)

-- What making room on a full pool picked.
pub record Victim (p : Pool) (w : Session) : Type 0 where
  pub resident : find w.0 p.sessions ≡ some w.1
  pub idle : IsIdle p w
  pub least : (e : Session) → Among e p.sessions → IsIdle p e → last_used_of p w ≤ last_used_of p e

pick_victim-Victim :
    (p : Pool) (w : Session)
    → Distinct (keys p.sessions)
    → pick_victim p p.sessions none ≡ some w
    → Victim p w
pick_victim-Victim p w d picked = elim (pick_victim-from p p.sessions none w picked) [
  | inl e ↦ cc
  | inr (among, idle) ↦ record {
    resident = Among-find w.0 w.1 p.sessions d among;
    idle = idle;
    least = λ e among' idle'.
        let (u, picked', le) = pick_victim-idle p p.sessions none e among' idle' in
        omega (arith, ap (λ o. last_used_of p (or_else o w)) (sym picked ∙ picked'));
  }
]
  where
    or_else : Option Session → Session → Session
    or_else (some e) d = e
    or_else none d = d

-- A pool below its limit makes room by doing nothing. A full pool evicts one session, an idle one
-- that no idle session was used before; it refuses exactly when every resident session is busy.
pub make_room_lem :
    (p : Pool)
    → Distinct (keys p.sessions)
    → ((length p.sessions + length p.pending_sessions < p.max_sessions) × (make_room p ≡ ok p))
      ⊎ ((p.max_sessions ≤ length p.sessions + length p.pending_sessions)
          × (w : Session) × Victim p w
          × (make_room p ≡ ok (evict p w.0)))
      ⊎ ((p.max_sessions ≤ length p.sessions + length p.pending_sessions)
          × ((e : Session) → Among e p.sessions → ¬ IsIdle p e)
          × (make_room p
              ≡ fail resource_exhausted "all resident execution slots are active or being created"))
unfolding make_room
make_room_lem p d =
    elim (Bool-cases (leb p.max_sessions (length p.sessions + length p.pending_sessions))) [
      | inr room ↦ inl (ground arith, rw room)
      | inl full ↦ elim (Option-cases (pick_victim p p.sessions none)) [
        | inr (w, picked) ↦
            inr (inl (ground arith, w, pick_victim-Victim p w d picked, rw (full, picked)))
        | inl nobody ↦ inr (
            inr (
              ground arith,
              λ e among idle.
                  let (u, picked, _) = pick_victim-idle p p.sessions none e among idle in cc,
              rw (full, nobody),
            ))
      ]
    ]
