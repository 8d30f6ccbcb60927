-- ===== src/Peer/Connect/Main.antt =====
-- From the first phase to the chat: what main comes to.
use voice.Prelude.{
  All, ◌∙◌, ℕ, ◌≡◌, ◌≢◌, refl, sym, subst, false, ◌&&◌, some, List, [], ◌∷◌, ◌==◌, Bool-cases,
  Option-cases, inl, inr,
}
use voice.Peer.Chat.{Chat}
use voice.Peer.Connect.{
  connect_path, Dial, at_once, start_dial, DialEvent, on_listening, on_connecting, dial_batch,
  DialWait, dial_loop, not_established, dialling, chatting, Peer, chatted,
}
use voice.Peer.Chat.Accounts.{IsChat}
use voice.Peer.Connect.Origin.{AllEvents, dial_loop-keeps}

-- Main's own socket can give no connection any more, and none was taken from it.
record Idle (cfd : ℕ) (d : Dial) : Type 0 where
  none_inflight : d.conn_inflight ≡ false
  other_path : d.active_path ≢ connect_path
  not_taken : d.established ≢ some cfd

-- accept gives another descriptor than the one that is open already.
abbrev pub AcceptsOther : ℕ → DialEvent → Type 0
AcceptsOther cfd e = e.accepted ≢ some cfd

module _ (cfd : ℕ) where
  on_listening-Idle :
      (e : DialEvent) (d : Dial) → AcceptsOther cfd e → Idle cfd d → Idle cfd (on_listening e d)
  unfolding on_listening
  on_listening-Idle e d other v = elim (Bool-cases (e.fd == d.lfd && e.input)) [
    | inr q ↦ rw (q) v
    | inl q ↦ elim (Option-cases e.accepted) [
      | inl z ↦ rw (q, z) v
      | inr (afd, z) ↦
          rw (q, z)
            (record {
              none_inflight = v.none_inflight;
              other_path = λ r. cc;
              not_taken = λ r. other (z ∙ r);
            })
    ]
  ]

  on_connecting_same : (e : DialEvent) (d : Dial) → Idle cfd d → on_connecting e d ≡ d
  unfolding on_connecting
  on_connecting_same e d v = rw (v.none_inflight)

  dial_batch-Idle :
      (events : List DialEvent) (d : Dial)
      → All (AcceptsOther cfd) events
      → Idle cfd d
      → Idle cfd (dial_batch events d)
  unfolding dial_batch
  dial_batch-Idle [] d g v = v
  dial_batch-Idle (e ∷ events) d g v =
      let after = on_listening-Idle e d g.0 v in
      dial_batch-Idle events _ g.1 (subst (Idle cfd) (sym (on_connecting_same e _ after)) after)

-- When connect gives a connection at once, main never takes it, as its socket or as its path: whatever
-- follows, where accept gives other descriptors than that of the open socket.
pub start_dial-at_once :
    (lfd cfd : ℕ) (dials : List DialWait)
    → AllEvents (AcceptsOther cfd) dials
    → ((dial_loop dials (start_dial lfd cfd at_once)).1.established ≢ some cfd)
      × ((dial_loop dials (start_dial lfd cfd at_once)).1.active_path ≢ connect_path)
unfolding start_dial
start_dial-at_once lfd cfd dials others =
    let idle =
      dial_loop-keeps (AcceptsOther cfd) (Idle cfd)
        (λ d b v. record {
          none_inflight = v.none_inflight;
          other_path = v.other_path;
          not_taken = v.not_taken;
        })
        (dial_batch-Idle cfd) dials (start_dial lfd cfd at_once) others
        (record { none_inflight = refl; other_path = λ e. cc; not_taken = λ e. cc }) in
    (idle.not_taken, idle.other_path)

-- A chat keeps account of every byte and listens on its connection.
abbrev pub IsPeer : Peer → Type 0
IsPeer dialling = Unit
IsPeer not_established = Unit
IsPeer (chatting c) = IsChat c
IsPeer (chatted c) = IsChat c
