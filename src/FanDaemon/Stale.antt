-- ===== src/FanDaemon/Stale.antt =====
-- The epoll registration of a client that was moved inside the pool.
use csel_workspace.Prelude.{
  ℕ, zero, suc, ◌-◌, ◌≤◌, ◌<◌, ◌≡◌, sym, refl, true, false, arith, List, get_or, set, length-set,
  ap, ◌∙◌,
}
use csel_workspace.Prelude.Int.{ℤ, pos, negsuc, ltb_ℤ, ==ℤ}
use csel_workspace.FanDaemon.Calls.{Call, client_event}
use csel_workspace.FanDaemon.Events.{
  Event, socket_accept_client_event, socket_client_request, zeroed, Daemon, Inputs, remove_client,
  process_event, deref, dispatch,
}
use csel_workspace.FanDaemon.Pool.{PoolInv}
use csel_workspace.FanDaemon.Pool.Occurrences.{
  get_or-set_self, get_or-set_ne, client, accept-joined,
}

==ℤ-refl : (a : ℤ) → ==ℤ a a ≡ true
==ℤ-refl (pos n) = ground arith
==ℤ-refl (negsuc n) = ground arith

remove_client-first :
    (count : ℕ) (es : List Event)
    → 0 < count
    → remove_client count 0 es count (get_or es 0 zeroed).fd
      ≡ (set es 0 (get_or es (count - 1) zeroed), count - 1)
unfolding remove_client
remove_client-first zero es h = absurd (omega arith)
remove_client-first (suc k) es h = rw (==ℤ-refl (get_or es 0 zeroed).fd) refl

module _ (d : Daemon) (v : PoolInv d) (two : 2 ≤ d.client_event_count) (i j : Inputs) (fd : ℤ) where
  -- The client of slot 0 sends its request; then another client connects.
  pub after_request : Daemon
  after_request = (process_event d i socket_client_request (get_or d.client_events 0 zeroed).fd).0

  pub after_accept : Daemon
  after_accept = (process_event after_request j socket_accept_client_event fd).0

  moved :
      (after_request.client_events
        ≡ set d.client_events 0 (get_or d.client_events (d.client_event_count - 1) zeroed))
      × (after_request.client_event_count ≡ d.client_event_count - 1)
  unfolding after_request process_event
  moved = rw (remove_client-first d.client_event_count d.client_events (omega arith)) (refl, refl)

  stored :
      ltb_ℤ j.accepted (pos 0) ≡ false
      → after_accept.client_events
        ≡ set
            (set d.client_events 0 (get_or d.client_events (d.client_event_count - 1) zeroed))
            (d.client_event_count - 1)
            (client j.accepted)
  unfolding after_accept
  stored a =
      ap (λ (out : Daemon × List Call). out.0.client_events)
        (accept-joined after_request j fd a (omega (arith, moved.1, v.within)))
      ∙ rw (moved.0, moved.1)

  -- The client of the last slot, which was registered for that slot, now stands in slot 0. Its
  -- registration still means the last slot, where the new client has been stored: an event on it is
  -- handled as a request of the new client, and the one that sent it is not served.
  pub stale_registration :
      ltb_ℤ j.accepted (pos 0) ≡ false
      → (k : Inputs)
      → (deref d (client_event (d.client_event_count - 1)) ≡ deref after_accept (client_event 0))
        × (dispatch after_accept k (client_event (d.client_event_count - 1))
            ≡ process_event after_accept k socket_client_request j.accepted)
  unfolding after_accept deref dispatch
  stale_registration a k = (
    sym (
        rw (stored a) (
          get_or-set_ne first_moved last 0 (client j.accepted) (omega arith)
          ∙ get_or-set_self d.client_events 0 last_client (omega arith))),
    ap (λ (e : Event). process_event after_accept k e.type e.fd) {y = client j.accepted}
        (rw (stored a) (
          get_or-set_self first_moved last (client j.accepted)
            (omega (arith, length-set d.client_events 0 last_client)))),
  )
    where
      last : ℕ
      last = d.client_event_count - 1

      last_client : Event
      last_client = get_or d.client_events last zeroed

      first_moved : List Event
      first_moved = set d.client_events 0 last_client
