-- ===== src/Peer/Chat/Accounts.antt =====
-- What the chat loop keeps: every byte that was typed was sent, waits, or had no memory, in this order;
-- and while bytes wait, the loop listens for room to send.
use voice.Prelude.{
  ℕ, ◌≡◌, ◌≢◌, refl, ap, sym, ◌∙◌, Bool, true, false, ◌||◌, List, [], ◌∷◌, ◌++◌, Bool-cases, inl,
  inr, append_assoc, append-nil, ◌==◌, some,
}
use voice.Prelude.Int.{ℤ, pos, negsuc}
use voice.Prelude.Run.{Run, ok}
use voice.Prelude.Text.{c_string}
use voice.Peer.Outbuf.{Outbuf, outbuf_empty, Sent}
use voice.Peer.Chat.{
  Chat, Input, got, end_of_input, again, failed, ChatEvent, keyboard, socket, Flow, on, leave,
  stopped, appended, on_keyboard, on_receive, on_readable, flushed_by, on_writable, chat_event,
}
use voice.Peer.Outbuf.Pending.{
  Holds, outbuf_empty-nil, outbuf_append-Holds, outbuf_append-no_memory,
}
use voice.Peer.Outbuf.Flush.{Flushed, outbuf_flush_fd-Flushed}

pub record IsChat (c : Chat) : Type 0 where
  pub waits : List ℕ
  pub holds : Holds c.ob waits
  pub account : c.sent ++ (waits ++ c.lost) ≡ c.typed
  pub kept : c.stop ≡ false → c.lost ≡ []
  pub watched : waits ≢ [] → c.interest.write ≡ true
  pub listens : (c.interest.read || c.interest.write) ≡ true

-- A handler that ends, keeps this, and loses nothing unless it leaves.
pub record Steps (r : Run (Flow × Chat)) : Type 0 where
  pub flow : Flow
  pub after : Chat
  pub done : r ≡ ok (flow, after)
  pub chat : IsChat after
  pub none_lost : flow ≡ on → after.lost ≡ []

stays : (c : Chat) → IsChat c → c.lost ≡ [] → Steps (ok (on, c))
stays c v e = record { flow = on; after = c; done = refl; chat = v; none_lost = λ _. e }

stops : (c : Chat) → IsChat c → Steps (stopped c)
stops c v = record {
  flow = leave;
  after = record c { stop = true };
  done = refl;
  chat = record {
    waits = v.waits;
    holds = v.holds;
    account = v.account;
    kept = λ e. cc;
    watched = v.watched;
    listens = v.listens;
  };
  none_lost = λ e. cc;
}

c_string-nul : (s : List ℕ) → (t : List ℕ) × (c_string (s ++ 0 ∷ []) ≡ some t)
unfolding c_string
c_string-nul [] = ([], refl)
c_string-nul (c ∷ s) =
    let (t, e) = c_string-nul s in
    elim (Bool-cases (c == 0)) [
      | inl z ↦ ([], rw (c_string, z))
      | inr z ↦ (c ∷ t, rw (c_string, z) (rw (e)))
    ]

grown :
    (c : Chat) (ob : Outbuf) (v : IsChat c) (x : ℕ) (p : List ℕ)
    → c.lost ≡ []
    → Holds ob (v.waits ++ x ∷ p)
    → Steps (appended (pos 0) ob (x ∷ p) c)
unfolding appended
grown c ob v x p e holds = record {
  flow = on;
  after = _;
  done = refl;
  chat = record {
    waits = v.waits ++ x ∷ p;
    holds = holds;
    account =
        ap (λ t. c.sent ++ ((v.waits ++ x ∷ p) ++ t)) e
        ∙ ap (λ t. c.sent ++ t) (append-nil (v.waits ++ x ∷ p))
        ∙ sym (append_assoc c.sent v.waits (x ∷ p))
        ∙ ap (λ t. t ++ x ∷ p)
            (ap (λ t. c.sent ++ t) (sym (append-nil v.waits) ∙ ap (λ t. v.waits ++ t) (sym e))
              ∙ v.account);
    kept = λ _. e;
    watched = λ ne. elim (Bool-cases (outbuf_empty ob)) [
      | inl none_left ↦ absurd (ne (outbuf_empty-nil ob _ holds none_left))
      | inr some_left ↦ rw (some_left) refl
    ];
    listens = refl;
  };
  none_lost = λ _. e;
}

no_memory :
    (c : Chat) (ob : Outbuf) (v : IsChat c) (x : ℕ) (p : List ℕ)
    → c.lost ≡ []
    → Holds ob v.waits
    → Steps (appended (negsuc 0) ob (x ∷ p) c)
unfolding appended
no_memory c ob v x p e holds = record {
  flow = leave;
  after = _;
  done = refl;
  chat = record {
    waits = v.waits;
    holds = holds;
    account =
        ap (λ t. c.sent ++ t) (sym (append_assoc v.waits c.lost (x ∷ p)))
        ∙ sym (append_assoc c.sent (v.waits ++ c.lost) (x ∷ p))
        ∙ ap (λ t. t ++ x ∷ p) v.account;
    kept = λ e. cc;
    watched = v.watched;
    listens = v.listens;
  };
  none_lost = λ e. cc;
}

on_keyboard-Steps :
    (input : Input) (got_memory : Bool) (c : Chat)
    → IsChat c
    → c.lost ≡ []
    → Steps (on_keyboard input got_memory c)
unfolding on_keyboard
on_keyboard-Steps (got x p) true c v e =
    let put = outbuf_append-Holds c.ob v.waits (x ∷ p) v.holds in
    rw (put.done) (grown c put.buffer v x p e put.holds)
on_keyboard-Steps (got x p) false c v e =
    let put = outbuf_append-no_memory c.ob v.waits x p v.holds in
    rw (put.done) (no_memory c put.buffer v x p e put.holds)
on_keyboard-Steps end_of_input got_memory c v e = stays c v e
on_keyboard-Steps again got_memory c v e = stays c v e
on_keyboard-Steps failed got_memory c v e = stops c v

on_receive-Steps : (input : Input) (c : Chat) → IsChat c → c.lost ≡ [] → Steps (on_receive input c)
unfolding on_receive
on_receive-Steps (got x p) c v e =
    let (text, read) = c_string-nul (x ∷ p) in
    rw (read) (record {
      flow = on;
      after = record c { shown = c.shown ++ text };
      done = refl;
      chat = record {
        waits = v.waits;
        holds = v.holds;
        account = v.account;
        kept = v.kept;
        watched = v.watched;
        listens = v.listens;
      };
      none_lost = λ _. e;
    })
on_receive-Steps end_of_input c v e = stops c v
on_receive-Steps again c v e = stays c v e
on_receive-Steps failed c v e = stops c v

on_readable-Steps :
    (readable hup err : Bool) (input : Input) (c : Chat)
    → IsChat c
    → c.lost ≡ []
    → Steps (on_readable readable hup err input c)
unfolding on_readable
on_readable-Steps true true err input c v e = stops c v
on_readable-Steps true false err input c v e = on_receive-Steps input c v e
on_readable-Steps false true err input c v e = stops c v
on_readable-Steps false false true input c v e = stays c v e
on_readable-Steps false false false input c v e = stays c v e

nil_right : (s w : List ℕ) → s ++ w ≡ [] → w ≡ []
nil_right [] w e = e
nil_right (c ∷ s) w e = cc

module _ (c : Chat) (v : IsChat c) (e : c.lost ≡ []) {r : Run (ℤ × List ℕ × Outbuf)}
    (fl : Flushed v.waits r) where
  abbrev after_flush : Chat
  after_flush = record c { ob = fl.buffer; sent = c.sent ++ fl.sent }

  sent_account : (c.sent ++ fl.sent) ++ (fl.waits ++ c.lost) ≡ c.typed
  sent_account =
      append_assoc c.sent fl.sent (fl.waits ++ c.lost)
      ∙ ap (λ t. c.sent ++ t)
          (sym (append_assoc fl.sent fl.waits c.lost) ∙ ap (λ t. t ++ c.lost) (sym fl.split))
      ∙ v.account

  after_flush-IsChat : IsChat after_flush
  after_flush-IsChat = record {
    waits = fl.waits;
    holds = fl.holds;
    account = sent_account;
    kept = v.kept;
    watched = λ ne. v.watched (λ z. ne (nil_right fl.sent fl.waits (sym fl.split ∙ z)));
    listens = v.listens;
  }

  all_flushed : fl.waits ≡ [] → Steps (flushed_by (pos 0) after_flush)
  unfolding flushed_by
  all_flushed z = record {
    flow = on;
    after = record after_flush { interest = record { read = true; write = false } };
    done = refl;
    chat = record {
      waits = fl.waits;
      holds = fl.holds;
      account = sent_account;
      kept = v.kept;
      watched = λ ne. absurd (ne z);
      listens = refl;
    };
    none_lost = λ _. e;
  }

  by_outcome : Steps (flushed_by fl.code after_flush)
  unfolding flushed_by
  by_outcome = elim fl.outcome [
    | inl (code, z) ↦ rw (code) (all_flushed z)
    | inr (inl code) ↦ rw (code) (stays after_flush after_flush-IsChat e)
    | inr (inr code) ↦ rw (code) (stops after_flush after_flush-IsChat)
  ]

on_writable-Steps :
    (writable : Bool) (answers : List Sent) (c : Chat)
    → IsChat c
    → c.lost ≡ []
    → Steps (on_writable writable answers c)
unfolding on_writable flushed_by
on_writable-Steps false answers c v e = stays c v e
on_writable-Steps true answers c v e =
    let fl = outbuf_flush_fd-Flushed answers c.ob v.waits v.holds in
    rw (fl.done) (by_outcome c v e fl)

on_socket-Steps :
    (readable hup err writable : Bool) (input : Input) (answers : List Sent) (c : Chat)
    → IsChat c
    → c.lost ≡ []
    → Steps (chat_event (socket readable hup err writable input answers) c)
unfolding chat_event
on_socket-Steps readable hup err writable input answers c v e =
    let first = on_readable-Steps readable hup err input c v e in
    rw (first.done) (then_writable first.flow first.after first.chat first.none_lost)
  where
    then_writable :
        (flow : Flow) (c' : Chat)
        → IsChat c'
        → (flow ≡ on → c'.lost ≡ [])
        → Steps (elim flow [ leave ↦ ok (leave, c') | on ↦ on_writable writable answers c' ])
    then_writable leave c' v' n = record {
      flow = leave;
      after = c';
      done = refl;
      chat = v';
      none_lost = λ q. cc;
    }
    then_writable on c' v' n = on_writable-Steps writable answers c' v' (n refl)

-- One event.
pub chat_event-Steps :
    (event : ChatEvent) (c : Chat) → IsChat c → c.lost ≡ [] → Steps (chat_event event c)
unfolding chat_event
chat_event-Steps (keyboard input got_memory) c v e = on_keyboard-Steps input got_memory c v e
chat_event-Steps (socket readable hup err writable input answers) c v e =
    on_socket-Steps readable hup err writable input answers c v e
