-- ===== src/Peer/Chat/Drains.antt =====
-- That what was typed gets out once the connection has room.
use voice.Prelude.{
  ℕ, suc, ◌≤◌, ◌≡◌, refl, ap, sym, ◌∙◌, true, false, List, ◌∷◌, ◌++◌, append-nil, length,
}
use voice.Prelude.Run.{ok}
use voice.Peer.Outbuf.{outbuf_empty, Sent, took}
use voice.Peer.Chat.{Chat, again, socket, on, on_writable, flushed_by, chat_event}
use voice.Peer.Chat.Accounts.{IsChat}
use voice.Peer.Outbuf.Flush.{outbuf_flush_fd-all}

-- Once the connection can take all that waits, one event for output sends it: then every byte that was
-- typed is sent, the buffer is empty, and the loop listens for input only. Nothing had been lost.
pub chat_event-drains :
    (n : ℕ) (answers : List Sent) (c : Chat) (v : IsChat c)
    → c.stop ≡ false
    → length v.waits ≤ suc n
    → (c' : Chat) × (chat_event (socket false false false true again (took n ∷ answers)) c
        ≡ ok (on, c'))
      × (c'.sent ≡ c.typed)
      × (c'.typed ≡ c.typed)
      × (outbuf_empty c'.ob ≡ true)
      × (c'.interest ≡ record { read = true; write = false })
unfolding chat_event on_writable flushed_by outbuf_empty
chat_event-drains n answers c v running room =
    let all = outbuf_flush_fd-all n answers c.ob v.waits v.holds room in
    (
      record c {
        ob = record c.ob { len = 0; off = 0 };
        sent = c.sent ++ v.waits;
        interest = record { read = true; write = false };
      },
      rw (all),
      ap (λ t. c.sent ++ t)
            (sym (append-nil v.waits) ∙ ap (λ t. v.waits ++ t) (sym (v.kept running)))
          ∙ v.account,
      refl,
      refl,
      refl,
    )
