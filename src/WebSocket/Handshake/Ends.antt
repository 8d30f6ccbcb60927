-- ===== src/WebSocket/Handshake/Ends.antt =====
-- The loop of `handshake` ends: each line that is read moves the index.
use voice.Prelude.{
  ℕ, zero, suc, ◌+◌, ◌≡◌, ◌≢◌, ◌<◌, ◌≤◌, inl, inr, some, List, [], ◌∷◌, arith, length, length-drop,
  drop, Bool-cases, Option-cases, All,
}
use voice.Prelude.Text.{strstr, c_string, c_string-none}
use voice.WebSocket.Conn.{Conn, fault, out_of_fuel}
use voice.WebSocket.Handshake.{
  key_name, readline_from, readline, at_blank, OpenSsl, answer, handshake_loop, handshake,
}

readline_from-after :
    (level : ℕ) (cs : List ℕ) (i : ℕ)
    → (readline_from level cs).0 ≡ some i
    → (level < i) × (i ≤ level + length cs)
unfolding readline_from
readline_from-after level [] i e = cc
readline_from-after level (c ∷ []) i e = ground arith
readline_from-after level (c ∷ d ∷ cs) i e =
    ground (arith, readline_from-after (level + 1) (d ∷ cs) i)

readline-after :
    (text : List ℕ) (idx i : ℕ)
    → idx ≤ length text
    → (readline text idx).0 ≡ some i
    → (idx < i) × (i ≤ length text)
unfolding readline
readline-after text idx i h e =
    ground (arith, readline_from-after idx (drop idx text) i e, length-drop idx text)

module _ (ssl : OpenSsl) where
  answer-ne-out_of_fuel : (line : List ℕ) (c : Conn) → answer ssl line c ≢ out_of_fuel
  unfolding answer
  answer-ne-out_of_fuel line c = ground arith

  handshake_loop-ends :
      (fuel : ℕ) (text : List ℕ) (idx : ℕ) (c : Conn)
      → idx ≤ length text
      → length text < fuel + idx
      → handshake_loop ssl fuel text idx c ≢ out_of_fuel
  unfolding handshake_loop
  handshake_loop-ends zero text idx c h enough = absurd (omega arith)
  handshake_loop-ends (suc fuel) text idx c h enough =
      elim (Bool-cases (strstr (readline text idx).1 key_name)) [
        | inl k ↦ rw k (answer-ne-out_of_fuel (readline text idx).1 c)
        | inr k ↦ rw k (elim (Option-cases (readline text idx).0) [
          | inl n ↦ rw n (λ e. cc)
          | inr (i, n) ↦ rw n (elim (Bool-cases (at_blank text i)) [
            | inl b ↦ rw b (λ e. cc)
            | inr b ↦
                let (up, top) = readline-after text idx i h n in
                rw b (handshake_loop-ends fuel text i c top (omega arith))
          ])
        ])
      ]

  -- A round for each byte of the text and one more are enough for the loop, whatever it comes to.
  pub handshake-ends : (c : Conn) → handshake ssl c ≢ out_of_fuel
  unfolding handshake
  handshake-ends c = elim (Option-cases (c_string c.rbuffer)) [
    | inl e ↦ rw e (λ x. cc)
    | inr (text, e) ↦
        rw e (handshake_loop-ends (length text + 1) text 0 c (omega arith) (omega arith))
  ]

  -- A request that fills the buffer to its last byte, with no NUL, makes `handshake` read past it.
  pub handshake_unterminated : (c : Conn) → All (λ b. b ≢ 0) c.rbuffer → handshake ssl c ≡ fault
  unfolding handshake
  handshake_unterminated c h = rw (c_string-none c.rbuffer h)
