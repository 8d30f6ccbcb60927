-- ===== src/Peer/Chat/Loop.antt =====
-- The loops of the chat keep what each event keeps.
use voice.Prelude.{◌≡◌, refl, Bool, true, false, ◌||◌, List, [], ◌∷◌, Bool-cases, inl, inr}
use voice.Prelude.Run.{Run, ok}
use voice.Peer.Chat.{
  Chat, ChatEvent, Flow, on, leave, chat_batch, Waited, ready, signalled, interrupted_wait,
  failed_wait, chat_round, chat_loop, Progress, ended, waiting,
}
use voice.Peer.Chat.Accounts.{IsChat, chat_event-Steps}

-- What a run leaves.
pub record Keeps (r : Run Chat) : Type 0 where
  pub after : Chat
  pub done : r ≡ ok after
  pub chat : IsChat after

then_batch :
    (events : List ChatEvent) (flow : Flow) (c : Chat)
    → ((c' : Chat) → IsChat c' → c'.lost ≡ [] → Keeps (chat_batch events c'))
    → IsChat c
    → (flow ≡ on → c.lost ≡ [])
    → Keeps (elim flow [ leave ↦ ok c | on ↦ chat_batch events c ])
then_batch events leave c next v n = record { after = c; done = refl; chat = v }
then_batch events on c next v n = next c v (n refl)

chat_batch-Keeps :
    (events : List ChatEvent) (c : Chat) → IsChat c → c.lost ≡ [] → Keeps (chat_batch events c)
unfolding chat_batch
chat_batch-Keeps [] c v e = record { after = c; done = refl; chat = v }
chat_batch-Keeps (event ∷ events) c v e =
    let first = chat_event-Steps event c v e in
    rw (first.done) (
      then_batch events first.flow first.after (chat_batch-Keeps events) first.chat first.none_lost)

-- What the loop leaves.
pub record KeepsOn (r : Run (Progress × Chat)) : Type 0 where
  pub progress : Progress
  pub after : Chat
  pub done : r ≡ ok (progress, after)
  pub chat : IsChat after

-- A signal changes the flag only.
stop_later :
    (c : Chat) (b : Bool) → IsChat c → (b ≡ false → c.lost ≡ []) → IsChat (record c { stop = b })
stop_later c b v n = record {
  waits = v.waits;
  holds = v.holds;
  account = v.account;
  kept = n;
  watched = v.watched;
  listens = v.listens;
}

or_left : (a b : Bool) → (a || b) ≡ false → a ≡ false
or_left true b e = cc
or_left false b e = refl

-- A round of the loop, with how it goes on.
record Round (r : Run (Flow × Chat)) : Type 0 where
  flow : Flow
  after : Chat
  done : r ≡ ok (flow, after)
  chat : IsChat after

chat_round-Round : (w : Waited) (c : Chat) → IsChat c → c.lost ≡ [] → Round (chat_round w c)
unfolding chat_round
chat_round-Round (ready signal events) c v e =
    let batch = chat_batch-Keeps events c v e in
    rw (batch.done) (record {
      flow = on;
      after = record batch.after { stop = batch.after.stop || signal };
      done = refl;
      chat =
          stop_later batch.after (batch.after.stop || signal) batch.chat
            (λ q. batch.chat.kept (or_left batch.after.stop signal q));
    })
chat_round-Round signalled c v e = record {
  flow = on;
  after = record c { stop = true };
  done = refl;
  chat = stop_later c true v (λ q. cc);
}
chat_round-Round interrupted_wait c v e = record { flow = on; after = c; done = refl; chat = v }
chat_round-Round failed_wait c v e = record { flow = leave; after = c; done = refl; chat = v }

then_loop :
    (waits : List Waited) (flow : Flow) (c : Chat)
    → ((c' : Chat) → IsChat c' → KeepsOn (chat_loop waits c'))
    → IsChat c
    → KeepsOn (elim flow [ leave ↦ ok (ended, c) | on ↦ chat_loop waits c ])
then_loop waits leave c next v = record { progress = ended; after = c; done = refl; chat = v }
then_loop waits on c next v = next c v

pub chat_loop-Keeps : (waits : List Waited) (c : Chat) → IsChat c → KeepsOn (chat_loop waits c)
unfolding chat_loop
chat_loop-Keeps [] c v = elim (Bool-cases c.stop) [
  | inl e ↦ record { progress = ended; after = c; done = rw e refl; chat = v }
  | inr e ↦ record { progress = waiting; after = c; done = rw e refl; chat = v }
]
chat_loop-Keeps (w ∷ waits) c v = elim (Bool-cases c.stop) [
  | inl e ↦ rw (chat_loop, e) (record { progress = ended; after = c; done = refl; chat = v })
  | inr e ↦
      let round = chat_round-Round w c v (v.kept e) in
      rw (chat_loop, e, round.done)
        (then_loop waits round.flow round.after (chat_loop-Keeps waits) round.chat)
]
