-- ===== src/Peer/Connect/Origin.antt =====
-- How a connection comes about, and that the chat over it starts with its connection registered.
use voice.Prelude.{
  ℕ, ◌≡◌, ◌⊎◌, refl, ap, sym, subst, ◌∙◌, Bool, true, false, ◌||◌, ◌&&◌, Option, none, some, List,
  [], ◌∷◌, ◌==◌, ==_iff, if◌then◌else◌, Bool-cases, Option-cases, some_injective, inl, inr, All,
}
use voice.Peer.Chat.{Interest}
use voice.Peer.Chat.{Progress, ended}
use voice.Peer.Connect.{
  Registered, interest_of, ep_add, ep_del, no_path, accept_path, connect_path, Dial, Connected,
  at_once, in_progress, refused, SoError, no_error, an_error, no_option, in_flight, start_dial,
  DialEvent, on_listening, is_cfd, on_connecting, dial_batch, DialWait, dialled, dial_interrupted,
  dial_failed, dial_loop, dial_cleanup, or_nothing, input_only, output_only,
}

-- Every descriptor that is registered, is so for input or output.
abbrev pub Listens : Registered → Type 0
Listens r = All (λ (fd, i). (i.read || i.write) ≡ true) r

interest_of-Listens :
    (fd : ℕ) (r : Registered) (i : Interest)
    → Listens r
    → interest_of fd r ≡ some i
    → (i.read || i.write) ≡ true
unfolding interest_of
interest_of-Listens fd [] i h e = cc
interest_of-Listens fd ((fd', j) ∷ r) i h e = elim (Bool-cases (fd == fd')) [
  | inl same ↦
      subst (λ (k : Interest). (k.read || k.write) ≡ true) (some_injective (sym (if_true same) ∙ e))
        h.0
  | inr other ↦ interest_of-Listens fd r i h.1 (sym (if_false other) ∙ e)
]
  where
    if_true : (fd == fd') ≡ true → (if fd == fd' then some j else interest_of fd r) ≡ some j
    if_true q = rw (q)

    if_false :
        (fd == fd') ≡ false → (if fd == fd' then some j else interest_of fd r) ≡ interest_of fd r
    if_false q = rw (q)

ep_add-Listens :
    (fd : ℕ) (i : Interest) (r : Registered)
    → (i.read || i.write) ≡ true
    → Listens r
    → Listens (ep_add fd i r)
unfolding ep_add
ep_add-Listens fd i r e h = elim (Option-cases (interest_of fd r)) [
  | inl q ↦ rw (ep_add, q) (e, h)
  | inr (j, q) ↦ rw (ep_add, q) h
]

ep_del-Listens : (fd : ℕ) (r : Registered) → Listens r → Listens (ep_del fd r)
unfolding ep_del
ep_del-Listens fd [] h = tt
ep_del-Listens fd ((fd', j) ∷ r) h = elim (Bool-cases (fd == fd')) [
  | inl e ↦ rw (e) h.1
  | inr e ↦ rw (e) (h.0, ep_del-Listens fd r h.1)
]

-- A descriptor that was added is registered, and listens.
pub fd_registered :
    (fd : ℕ) (r : Registered)
    → Listens r
    → let i = or_nothing (interest_of fd (ep_add fd input_only r)) in (i.read || i.write) ≡ true
unfolding interest_of ep_add
fd_registered fd r h = elim (Option-cases (interest_of fd r)) [
  | inl e ↦ rw (ep_add, e, (==_iff fd fd).1 refl) refl
  | inr (i, e) ↦ rw (ep_add, e, e) (interest_of-Listens fd r i h e)
]

-- How it stands with the connection: none, one that was accepted, or the one of main's own socket.
abbrev pub Origin : ℕ → Dial → Type 0
Origin cfd d =
    ((d.established ≡ none) × (d.active_path ≡ no_path))
    ⊎ (((afd : ℕ) × (d.established ≡ some afd) × (d.active_path ≡ accept_path))
        ⊎ ((d.established ≡ some cfd) × (d.cfd ≡ none) × (d.active_path ≡ connect_path)))

pub record IsDial (cfd : ℕ) (d : Dial) : Type 0 where
  pub own : (d.cfd ≡ none) ⊎ (d.cfd ≡ some cfd)
  pub origin : Origin cfd d
  pub listens : Listens d.registered

pub start_dial-IsDial :
    (lfd cfd : ℕ) (connected : Connected) → IsDial cfd (start_dial lfd cfd connected)
unfolding start_dial
start_dial-IsDial lfd cfd connected = record {
  own = inr refl;
  origin = inl (refl, refl);
  listens = ep_add-Listens 0 input_only _ refl (sockets connected);
}
  where
    listening : Listens (ep_add lfd input_only [])
    listening = ep_add-Listens lfd input_only [] refl tt

    sockets :
        (k : Connected)
        → Listens (
            if in_flight k
            then ep_add cfd output_only (ep_add lfd input_only [])
            else ep_add lfd input_only [])
    sockets at_once = listening
    sockets in_progress = ep_add-Listens cfd output_only (ep_add lfd input_only []) refl listening
    sockets refused = listening

on_listening-IsDial :
    (cfd : ℕ) (e : DialEvent) (d : Dial) → IsDial cfd d → IsDial cfd (on_listening e d)
unfolding on_listening
on_listening-IsDial cfd e d v = elim (Bool-cases (e.fd == d.lfd && e.input)) [
  | inr q ↦ rw (q) v
  | inl q ↦ elim (Option-cases e.accepted) [
    | inl z ↦ rw (q, z) v
    | inr (afd, z) ↦
        rw (q, z)
          (record { own = v.own; origin = inr (inl (afd, refl, refl)); listens = v.listens })
  ]
]

and_left : (a b : Bool) → (a && b) ≡ true → a ≡ true
and_left true b e = refl
and_left false b e = cc

and_right : (a b : Bool) → (a && b) ≡ true → b ≡ true
and_right true b e = e
and_right false b e = cc

-- The event is of main's own socket.
own_fd : (cfd fd : ℕ) (o : Option ℕ) → (o ≡ none) ⊎ (o ≡ some cfd) → is_cfd fd o ≡ true → fd ≡ cfd
own_fd cfd fd none h e = cc
own_fd cfd fd (some cfd') (inl h) e = cc
own_fd cfd fd (some cfd') (inr h) e = (==_iff fd cfd').0 e ∙ some_injective h

-- The connect of the descriptor is over.
given_up :
    (cfd : ℕ) (e : DialEvent) (d : Dial)
    → IsDial cfd d
    → IsDial cfd (record d { conn_inflight = false; registered = ep_del e.fd d.registered })
given_up cfd e d v = record {
  own = v.own;
  origin = v.origin;
  listens = ep_del-Listens e.fd d.registered v.listens;
}

by_so_error :
    (cfd : ℕ) (e : DialEvent) (d : Dial) (k : SoError)
    → IsDial cfd d
    → e.fd ≡ cfd
    → IsDial cfd (elim k [
      | no_option ↦ record d { conn_inflight = false; registered = ep_del e.fd d.registered }
      | no_error ↦ record d { established = some e.fd; cfd = none; active_path = connect_path }
      | an_error ↦ record d { conn_inflight = false; registered = ep_del e.fd d.registered }
    ])
by_so_error cfd e d no_option v q = given_up cfd e d v
by_so_error cfd e d an_error v q = given_up cfd e d v
by_so_error cfd e d no_error v q = record {
  own = inl refl;
  origin = inr (inr (ap some q, refl, refl));
  listens = v.listens;
}

on_connecting-IsDial :
    (cfd : ℕ) (e : DialEvent) (d : Dial) → IsDial cfd d → IsDial cfd (on_connecting e d)
unfolding on_connecting
on_connecting-IsDial cfd e d v =
    elim (Bool-cases (d.conn_inflight && (is_cfd e.fd d.cfd && e.out))) [
      | inr q ↦ rw (q) v
      | inl q ↦ rw (q) (
          by_so_error cfd e d e.so_error v
            (own_fd cfd e.fd d.cfd v.own (and_left _ e.out (and_right d.conn_inflight _ q))))
    ]

dial_batch-IsDial :
    (cfd : ℕ) (events : List DialEvent) (d : Dial) → IsDial cfd d → IsDial cfd (dial_batch events d)
unfolding dial_batch
dial_batch-IsDial cfd [] d v = v
dial_batch-IsDial cfd (e ∷ events) d v =
    dial_batch-IsDial cfd events _ (on_connecting-IsDial cfd e _ (on_listening-IsDial cfd e d v))

stop_dial : (cfd : ℕ) (d : Dial) (b : Bool) → IsDial cfd d → IsDial cfd (record d { stop = b })
stop_dial cfd d b v = record { own = v.own; origin = v.origin; listens = v.listens }

-- What the events of the waits are like.
abbrev pub AllEvents : (DialEvent → Type 0) → List DialWait → Type 0
AllEvents G [] = Unit
AllEvents G (dial_failed ∷ waits) = AllEvents G waits
AllEvents G (dial_interrupted signal ∷ waits) = AllEvents G waits
AllEvents G (dialled signal events ∷ waits) = All G events × AllEvents G waits

-- What a batch of such events and a signal keep, the loop keeps.
module _ (G : DialEvent → Type 0) (P : Dial → Type 0)
    (stop_keeps : (d : Dial) (b : Bool) → P d → P (record d { stop = b }))
    (batch_keeps : (events : List DialEvent) (d : Dial)
      → All G events
      → P d
      → P (dial_batch events d)) where
  by_wait :
      (waits : List DialWait)
      → (AllEvents G waits → (d : Dial) → P d → P (dial_loop waits d).1)
      → (w : DialWait) (d : Dial) → AllEvents G (w ∷ waits)
      → P d
      → P
          (elim w as (λ x. Progress × Dial) [
            | dial_failed ↦ (ended, d)
            | dial_interrupted signal ↦ dial_loop waits (record d { stop = signal })
            | dialled signal events ↦
                let d' = dial_batch events d in
                dial_loop waits (record d' { stop = d'.stop || signal })
          ]).1
  by_wait waits next dial_failed d g v = v
  by_wait waits next (dial_interrupted signal) d g v = next g _ (stop_keeps d signal v)
  by_wait waits next (dialled signal events) d g v =
      next g.1 _ (stop_keeps _ _ (batch_keeps events d g.0 v))

  behind : (w : DialWait) (waits : List DialWait) → AllEvents G (w ∷ waits) → AllEvents G waits
  behind dial_failed waits g = g
  behind (dial_interrupted signal) waits g = g
  behind (dialled signal events) waits g = g.1

  pub dial_loop-keeps :
      (waits : List DialWait) (d : Dial) → AllEvents G waits → P d → P (dial_loop waits d).1
  unfolding dial_loop
  dial_loop-keeps [] d g v = elim (Bool-cases d.stop) [
    | inl e ↦ rw (dial_loop, e) v
    | inr e ↦ elim (Option-cases d.established) [
      | inr (fd, q) ↦ rw (dial_loop, e, q) v
      | inl q ↦ rw (dial_loop, e, q) v
    ]
  ]
  dial_loop-keeps (w ∷ waits) d g v = elim (Bool-cases d.stop) [
    | inl e ↦ rw (dial_loop, e) v
    | inr e ↦ elim (Option-cases d.established) [
      | inr (fd, q) ↦ rw (dial_loop, e, q) v
      | inl q ↦ rw (dial_loop, e, q) (by_wait waits (λ h d. dial_loop-keeps waits d h) w d g v)
    ]
  ]

every_event : (G : DialEvent → Type 0) → ((e : DialEvent) → G e) → (es : List DialEvent) → All G es
every_event G each [] = tt
every_event G each (e ∷ es) = (each e, every_event G each es)

any_events :
    (G : DialEvent → Type 0) → ((e : DialEvent) → G e) → (ws : List DialWait) → AllEvents G ws
any_events G each [] = tt
any_events G each (dial_failed ∷ ws) = any_events G each ws
any_events G each (dial_interrupted signal ∷ ws) = any_events G each ws
any_events G each (dialled signal es ∷ ws) = (every_event G each es, any_events G each ws)

pub dial_loop-IsDial :
    (cfd : ℕ) (waits : List DialWait) (d : Dial) → IsDial cfd d → IsDial cfd (dial_loop waits d).1
dial_loop-IsDial cfd waits d v =
    dial_loop-keeps (λ e. Unit) (IsDial cfd) (stop_dial cfd)
      (λ events d g. dial_batch-IsDial cfd events d) waits d
      (any_events (λ e. Unit) (λ e. tt) waits) v

pub cleaned : (cfd : ℕ) (d : Dial) → IsDial cfd d → Listens (dial_cleanup d).registered
unfolding dial_cleanup
cleaned cfd d v = ep_del-Listens d.lfd _ (own d.cfd)
  where
    own : (o : Option ℕ) → Listens (elim o [ none ↦ d.registered | some c ↦ ep_del c d.registered ])
    own none = v.listens
    own (some c) = ep_del-Listens c d.registered v.listens

-- The connection in the first phase, and behind it, was accepted, or is that of main's own socket, as active_path
-- says, or there is none, whatever the calls answered.
pub dial_loop-Origin :
    (lfd cfd : ℕ) (connected : Connected) (dials : List DialWait)
    → Origin cfd (dial_loop dials (start_dial lfd cfd connected)).1
dial_loop-Origin lfd cfd connected dials =
    (dial_loop-IsDial cfd dials _ (start_dial-IsDial lfd cfd connected)).origin
