-- ===== src/FanDaemon/Pool/Occurrences.antt =====
-- Which descriptors the pool of clients holds, and what one request takes out of it.
use native.Mathlib.Decide.{ℕ_discrete}
use csel_workspace.Prelude.{
  ℕ, zero, suc, ◌+◌, ◌-◌, ◌≤◌, ◌<◌, ◌≡◌, ◌≢◌, refl, true, false, List, [], ◌∷◌, get_or, set,
  if◌then◌else◌, length, arith, Bool-cases, inl, inr, ap, ◌∙◌,
}
use csel_workspace.Prelude.Int.{ℤ, pos, ltb_ℤ, ==ℤ}
use csel_workspace.FanDaemon.Calls.{Call, epoll_add, client_event}
use csel_workspace.FanDaemon.Socket.{socket_accept_client}
use csel_workspace.FanDaemon.Events.{
  socket_accept_client_event, socket_client_request, Event, zeroed, Daemon, Inputs,
  max_socket_clients, remove_client, process_event,
}

-- Writes to an array with a default: `get_or` after `set`.
pub get_or-set_self :
    (es : List Event) (i : ℕ) (v : Event) → i < length es → get_or (set es i v) i zeroed ≡ v
get_or-set_self [] i v h = absurd (omega arith)
get_or-set_self (x ∷ es) zero v h = refl
get_or-set_self (x ∷ es) (suc i) v h = get_or-set_self es i v (omega arith)

pub get_or-set_ne :
    (es : List Event) (i j : ℕ) (v : Event)
    → i ≢ j
    → get_or (set es i v) j zeroed ≡ get_or es j zeroed
get_or-set_ne [] i j v h = refl
get_or-set_ne (x ∷ es) zero zero v h = absurd (h refl)
get_or-set_ne (x ∷ es) zero (suc j) v h = refl
get_or-set_ne (x ∷ es) (suc i) zero v h = refl
get_or-set_ne (x ∷ es) (suc i) (suc j) v h = get_or-set_ne es i j v (λ e. h (ap suc e))

-- 1 if a slot holds the descriptor, and how many of the first `n` slots do.
abbrev pub is_client : ℤ → Event → ℕ
is_client fd e = if ==ℤ e.fd fd then 1 else 0

unfoldable pub occurrences : ℤ → ℕ → List Event → ℕ
occurrences fd zero es = 0
occurrences fd (suc n) es = occurrences fd n es + is_client fd (get_or es n zeroed)

occurrences-set_ge :
    (fd : ℤ) (n i : ℕ) (es : List Event) (v : Event)
    → n ≤ i
    → occurrences fd n (set es i v) ≡ occurrences fd n es
unfolding occurrences
occurrences-set_ge fd zero i es v h = refl
occurrences-set_ge fd (suc n) i es v h =
    rw (occurrences-set_ge fd n i es v (omega arith), get_or-set_ne es i n v (omega arith))

occurrences-set :
    (fd : ℤ) (n i : ℕ) (es : List Event) (v : Event)
    → i < n
    → n ≤ length es
    → occurrences fd n (set es i v) + is_client fd (get_or es i zeroed)
      ≡ occurrences fd n es + is_client fd v
unfolding occurrences
occurrences-set fd zero i es v h l = absurd (omega arith)
occurrences-set fd (suc n) i es v h l = elim (ℕ_discrete i n) [
  | yes here ↦
      rw (here, occurrences-set_ge fd n n es v (omega arith), get_or-set_self es n v (omega arith))
        (omega arith)
  | no there ↦
      rw (get_or-set_ne es i n v there)
        (omega (arith, occurrences-set fd n i es v (omega arith) (omega arith)))
]

==ℤ→≡ : (a b : ℤ) → ==ℤ a b ≡ true → a ≡ b
==ℤ→≡ a b h = ground arith

-- A slot whose descriptor is `fd` counts for `g` exactly if `fd` is `g`.
abbrev same : ℤ → ℤ → ℕ
same fd g = if ==ℤ fd g then 1 else 0

last_kept :
    (n i : ℕ) (es : List Event)
    → suc n ≤ length es
    → get_or (set es i (get_or es n zeroed)) n zeroed ≡ get_or es n zeroed
last_kept n i es l = elim (ℕ_discrete i n) [
  | yes here ↦ rw here (get_or-set_self es n (get_or es n zeroed) l)
  | no there ↦ get_or-set_ne es i n (get_or es n zeroed) there
]

occurrences-suc :
    (fd : ℤ) (i : ℕ) (es : List Event)
    → ==ℤ (get_or es i zeroed).fd fd ≡ false
    → occurrences fd (i + 1) es ≡ occurrences fd i es
unfolding occurrences
occurrences-suc fd i es h =
    ap (λ k. occurrences fd k es) (let e : i + 1 ≡ suc i = omega arith in e) ∙ rw h (omega arith)

-- Moving the last slot into slot `i` and dropping the last takes out what slot `i` held.
swap_remove :
    (g : ℤ) (n i : ℕ) (es : List Event)
    → i < suc n
    → suc n ≤ length es
    → occurrences g n (set es i (get_or es n zeroed)) + is_client g (get_or es i zeroed)
      ≡ occurrences g (suc n) es
unfolding occurrences
swap_remove g n i es h l = omega (
  arith,
  occurrences-set g (suc n) i es (get_or es n zeroed) h l,
  ap (is_client g) (last_kept n i es l),
)

-- A descriptor that stands in a slot from `i` on is found: the pool has one client less, and it
-- holds each descriptor as often as before, but for one of `fd`.
Removed : ℤ → List Event → ℕ → List Event × ℕ → Type 0
Removed fd es count (es', n) =
    (suc n ≡ count) × ((g : ℤ) → occurrences g n es' + same fd g ≡ occurrences g count es)

remove_client-Removed :
    (rounds i : ℕ) (es : List Event) (count : ℕ) (fd : ℤ)
    → i + rounds ≡ count
    → count ≤ length es
    → occurrences fd i es < occurrences fd count es
    → Removed fd es count (remove_client rounds i es count fd)
unfolding remove_client Removed
remove_client-Removed zero i es count fd e l h =
    absurd (omega (arith, ap (λ n. occurrences fd n es) (let p : i ≡ count = omega arith in p)))
remove_client-Removed (suc k) i es count fd e l h =
    elim (Bool-cases (==ℤ (get_or es i zeroed).fd fd)) [
      | inl found ↦ rw found (
        omega arith,
        λ g. omega (
          arith,
          swap_remove g (count - 1) i es (omega arith) (omega arith),
          ap (λ n. occurrences g n es) (let p : suc (count - 1) ≡ count = omega arith in p),
          ap (λ f. same f g) (==ℤ→≡ (get_or es i zeroed).fd fd found),
        ),
      )
      | inr other ↦ rw other (
          remove_client-Removed k (i + 1) es count fd (omega arith) l
            (omega (arith, occurrences-suc fd i es other)))
    ]

-- A client that stands in the pool sends its request: it leaves the pool, and every other client
-- stays in it, as often as before.
pub request-Removed :
    (d : Daemon) (i : Inputs) (fd : ℤ)
    → d.client_event_count ≤ length d.client_events
    → 0 < occurrences fd d.client_event_count d.client_events
    → let d' = (process_event d i socket_client_request fd).0 in
      (suc d'.client_event_count ≡ d.client_event_count)
      × ((g : ℤ)
          → occurrences g d'.client_event_count d'.client_events + same fd g
            ≡ occurrences g d.client_event_count d.client_events)
unfolding process_event Removed occurrences
request-Removed d i fd l h =
    remove_client-Removed d.client_event_count 0 d.client_events d.client_event_count fd
      (omega arith) l h

abbrev pub client : ℤ → Event
client fd = record { type = socket_client_request; fd = fd }

-- The daemon after a client joined.
abbrev pub joined : Daemon → ℤ → Daemon × List Call
joined d fd = (
  record d {
    client_events = set d.client_events d.client_event_count (client fd);
    client_event_count = d.client_event_count + 1;
  },
  epoll_add fd true (client_event d.client_event_count) ∷ [],
)

pub accept-joined :
    (d : Daemon) (i : Inputs) (fd : ℤ)
    → ltb_ℤ i.accepted (pos 0) ≡ false
    → d.client_event_count < max_socket_clients
    → process_event d i socket_accept_client_event fd ≡ joined d i.accepted
unfolding process_event socket_accept_client
accept-joined d i fd a b = ground arith
