-- ===== src/Peer/Examples.antt =====
-- A peer that dials and types three letters.
use voice.Prelude.{some_injective, ◌≡◌, ◌≢◌, refl, true, false, none, some, List, [], ◌∷◌, arith}
use voice.Prelude.Run.{ok}
use voice.Peer.Outbuf.{outbuf_empty, took}
use voice.Peer.Outbuf.Pending.{Holds}
use voice.Peer.Chat.{
  Interest, Chat, got, again, keyboard, socket, on, chat_event, Waited, ready, signalled, new_chat,
}
use voice.Peer.Chat.Accounts.{IsChat}
use voice.Peer.Chat.Drains.{chat_event-drains}
use voice.Peer.Connect.{
  connect_path, at_once, no_error, an_error, start_dial, DialWait, dialled, dial_loop, Peer,
}
use voice.Peer.Connect.Main.{start_dial-at_once}

abbrev interest : Interest
interest = record { read = true; write = false }

-- The first byte of "abc" is sent already.
abbrev abc : Chat
abc = record (new_chat interest) {
  ob = record { bytes = 97 ∷ 98 ∷ 99 ∷ []; len = 3; off = 1 };
  interest = record { read = true; write = true };
  typed = 97 ∷ 98 ∷ 99 ∷ [];
  sent = 97 ∷ [];
}

abc-Holds : Holds abc.ob (98 ∷ 99 ∷ [])
abc-Holds = record { gone = 97 ∷ []; room = []; block = refl; start = refl; end = refl }

abbrev abc-IsChat : IsChat abc
abc-IsChat = record {
  waits = 98 ∷ 99 ∷ [];
  holds = abc-Holds;
  account = refl;
  kept = λ e. refl;
  watched = λ ne. refl;
  listens = refl;
}

drains_example :
    (c' : Chat) × (chat_event (socket false false false true again (took 1 ∷ [])) abc ≡ ok (on, c'))
    × (c'.sent ≡ abc.typed)
    × (c'.typed ≡ abc.typed)
    × (outbuf_empty c'.ob ≡ true)
    × (c'.interest ≡ record { read = true; write = false })
drains_example = chat_event-drains 1 [] abc abc-IsChat refl (omega arith)

abbrev waits : List Waited
waits =
    ready false (keyboard (got 97 (98 ∷ 99 ∷ [])) true ∷ [])
    ∷ ready false (socket true false false true (got 104 []) (took 0 ∷ []) ∷ [])
    ∷ signalled
    ∷ []

-- The connect fails, and then a connection comes in.
abbrev dials : List DialWait
dials =
    dialled false
      (record { fd = 4; input = false; out = true; accepted = none; so_error = an_error } ∷ [])
    ∷ dialled false
        (record { fd = 3; input = true; out = false; accepted = some 5; so_error = no_error } ∷ [])
    ∷ []

at_once_example :
    ((dial_loop dials (start_dial 3 4 at_once)).1.established ≢ some 4)
    × ((dial_loop dials (start_dial 3 4 at_once)).1.active_path ≢ connect_path)
at_once_example =
    start_dial-at_once 3 4 dials
      (((λ e. cc), tt), (((λ e. let same = some_injective e in omega (arith, same)), tt), tt))
