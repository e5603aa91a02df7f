-- ===== src/Transfer/Sender/Again.antt =====
-- A retransmission at the end of the file.
use network_programming.Base.{
  ℕ, zero, suc, ◌≤◌, none, some, List, [], ◌∷◌, ◌++◌, length, Bytes, ◌≡◌, refl, arith,
  length-append,
}
use network_programming.Transfer.Receiver.{payload}
use network_programming.Transfer.Sender.{Sender, reread, resend, set_type, start_timer, send_one}
use network_programming.Transfer.Sender.Sent.{set_type-none}

reread-append :
    (ws : List Bytes) (w : Bytes) (u : ℕ) → length ws ≤ u → reread (ws ++ (w ∷ [])) u ≡ w
unfolding reread
reread-append [] w zero l = refl
reread-append [] w (suc u) l = refl
reread-append (v ∷ ws) w zero l = absurd (omega arith)
reread-append (v ∷ []) w (suc u) l = reread-append [] w u (omega arith)
reread-append (v ∷ (x ∷ ws)) w (suc u) l = reread-append (x ∷ ws) w u (omega arith)

reread-last :
    (ws : List Bytes) (w : Bytes) (all : List Bytes)
    → all ≡ ws ++ (w ∷ [])
    → reread all (length all) ≡ w
reread-last ws w all e = rw e (reread-append ws w _ (ground (arith, length-append ws (w ∷ []))))

send_one-resend :
    (ts u : ℕ) (s : Sender)
    → s.last_unacked ≡ some u
    → send_one ts s ≡ start_timer (set_type (resend u s))
unfolding send_one
send_one-resend ts u s h = ground arith

again :
    (s : Sender) (w : Bytes) (ws : List Bytes)
    → s.words ≡ ws ++ (w ∷ [])
    → s.last_pack ≡ none
    → let d = (start_timer (set_type (resend (length s.words) s))).q_obj in
      (d.kind ≡ payload) × (d.seq ≡ length s.words) × (d.buf ≡ w)
unfolding start_timer resend
again s w ws e n =
    rw (set_type-none (resend (length s.words) s) n) (refl, refl, reread-last ws w s.words e)

-- When the end of the file has not been noted and the number behind the last word is to be sent
-- again, the sender sends that word once more, as data with the next number.
pub last_word_again :
    (ts : ℕ) (s : Sender) (w : Bytes) (ws : List Bytes)
    → s.words ≡ ws ++ (w ∷ [])
    → s.last_pack ≡ none
    → s.last_unacked ≡ some (length s.words)
    → ((send_one ts s).q_obj.kind ≡ payload)
      × ((send_one ts s).q_obj.seq ≡ length s.words)
      × ((send_one ts s).q_obj.buf ≡ w)
last_word_again ts s w ws e n u = rw (send_one-resend ts (length s.words) s u) (again s w ws e n)
