-- ===== src/Pool/Pending.antt =====
-- What leaves the reservations and the limit alone.
use gem16gb.Prelude.{◌≡◌, refl, ℕ, String, arith, Option-cases, inl, inr}
use gem16gb.Pool.Keys.{find}
use gem16gb.Pool.{
  Pool, acquire, acquire_idle, acquire_response_session, draw_tick, store_last_used, drop_request,
  drop_gauge, discard_session, set_active_response, clear_active_response, cancel_response,
  index_response, unindex_response,
}
use gem16gb.Pool.Erase.{erase_session_locked-Frame}

abbrev pub Keeps : Pool → Pool → Type 0
Keeps p q = (q.pending_sessions ≡ p.pending_sessions) × (q.max_sessions ≡ p.max_sessions)

module _ (p : Pool) where
  pub acquire_idle-Keeps : (a : ℕ) (busy : String) → Keeps p (acquire_idle p a busy).0
  unfolding acquire_idle acquire
  acquire_idle-Keeps a busy = ground arith

  pub acquire_response_session-Keeps : (r : String) → Keeps p (acquire_response_session p r).0
  unfolding acquire_response_session acquire
  acquire_response_session-Keeps r = elim (Option-cases (find r p.response_index)) [
    | inl absent ↦ rw (absent, acquire_response_session) (refl, refl)
    | inr (a, found) ↦ rw (found, acquire_response_session) (ground arith)
  ]

  pub draw_tick-Keeps : Keeps p (draw_tick p)
  unfolding draw_tick
  draw_tick-Keeps = (refl, refl)

  pub store_last_used-Keeps : (a tick : ℕ) → Keeps p (store_last_used p a tick)
  unfolding store_last_used
  store_last_used-Keeps a tick = (refl, refl)

  pub drop_request-Keeps : (a : ℕ) → Keeps p (drop_request p a)
  unfolding drop_request
  drop_request-Keeps a = (refl, refl)

  pub drop_gauge-Keeps : (a : ℕ) → Keeps p (drop_gauge p a)
  unfolding drop_gauge
  drop_gauge-Keeps a = (refl, refl)

  pub discard_session-Keeps : (a : ℕ) → Keeps p (discard_session p a)
  unfolding discard_session
  discard_session-Keeps a =
      let f = erase_session_locked-Frame p (p.entries a).id in (f.pending_sessions, f.max_sessions)

  pub index_response-Keeps : (a : ℕ) (r : String) → Keeps p (index_response p a r)
  unfolding index_response
  index_response-Keeps a r = (refl, refl)

  pub unindex_response-Keeps : (r : String) → Keeps p (unindex_response p r)
  unfolding unindex_response
  unindex_response-Keeps r = (refl, refl)

  pub set_active_response-Keeps : (a : ℕ) (r : String) → Keeps p (set_active_response p a r)
  unfolding set_active_response
  set_active_response-Keeps a r = (refl, refl)

  pub clear_active_response-Keeps : (a : ℕ) (r : String) → Keeps p (clear_active_response p a r)
  unfolding clear_active_response
  clear_active_response-Keeps a r = ground arith

  pub cancel_response-Keeps : (r : String) → Keeps p (cancel_response p r).0
  unfolding cancel_response
  cancel_response-Keeps r = elim (Option-cases (find r p.response_index)) [
    | inl absent ↦ rw (absent, cancel_response) (refl, refl)
    | inr (a, found) ↦ rw (found, cancel_response) (ground arith)
  ]
