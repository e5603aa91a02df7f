-- ===== src/Transfer/Receiver/Arrive.antt =====
-- A datagram arrives: the window stays in order, and the loop that moves the expected number ends.
use network_programming.Base.{
  ℕ, suc, ◌+◌, ◌%◌, ◌<◌, Bool, true, false, ◌&&◌, some, length, set, get_elem?, get_elem?-some, ltb,
  ◌==◌, if◌then◌else◌, Bytes, ◌≡◌, refl, sym, subst, ◌∙◌, arith, inl, inr, Bool-cases, length-set,
  get_elem?-set_self, lt-length_of_get_elem?,
}
use network_programming.Transfer.Receiver.{
  Slot, Window, Receiver, Datagram, DataType, ack, ping, payload, eof, Ack, last_words, ispresent,
  int_max, push_data_to_buffer, push_at, update_expected_from, store, on_datagram, is_eof,
  send_ack_to_server,
}
use network_programming.Transfer.Receiver.Scan.{Holds, ispresent-true}
use network_programming.Transfer.Receiver.Order.{
  number, InOrder, slot_index, push_cases, not_full, filled_slot, set_slots, ispresent-expected,
  update_expected_stay, update_expected_once,
}

-- The kinds of datagrams that are stored.
abbrev pub is_word : DataType → Bool
is_word payload = true
is_word eof = true
is_word ack = false
is_word ping = false

-- The number that is expected after a datagram: the next one if the datagram has data or the end of the
-- file, has the expected number, and finds room among the numbers from `lo` on.
abbrev pub is_taken : ℕ → ℕ → DataType → ℕ → ℕ → Bool
is_taken w lo k seq expected = is_word k && ((seq == expected) && ltb expected (lo + w))

abbrev pub next_expected : ℕ → ℕ → DataType → ℕ → ℕ → ℕ
next_expected w lo k seq expected = if is_taken w lo k seq expected then expected + 1 else expected

-- The new state after a window was changed and the loop over the expected number has ended.
abbrev pub Accepted : ℕ → (ℕ → Bytes) → ℕ → Window → ℕ → ℕ → Type 0
Accepted w word lo win expected e =
    (update_expected_from (suc (length win)) win expected ≡ some e)
    × InOrder w word lo (record { window = win; expected = e })

unchanged :
    (w : ℕ) (word : ℕ → Bytes) (lo : ℕ) (s : Receiver)
    → InOrder w word lo s
    → Accepted w word lo s.window s.expected s.expected
unchanged w word lo s o = (
  update_expected_stay (length s.window) s.window s.expected
      (rw o.next (ispresent-expected w word o.base o.r o.n s.window o.slots)),
  o,
)

-- Storing the expected datagram.
stored-Accepted :
    (w : ℕ) (word : ℕ → Bytes) (lo : ℕ) (s : Receiver) (x : Slot)
    → InOrder w word lo s
    → s.expected < int_max
    → get_elem? s.window (s.expected % length s.window) ≡ some x
    → x.is_filled ≡ false
    → Accepted w word lo
        (set s.window (s.expected % length s.window) (filled_slot word s.expected))
        s.expected
        (s.expected + 1)
stored-Accepted w word lo s x o b e f =
    let hi = o.base + o.r + o.n in
    let at = hi % w in
    let new = set s.window at (filled_slot word hi) in
    let e' : get_elem? s.window at ≡ some x = rw (o.next, o.size) at e in
    let lt : o.n < w =
      not_full w o.base o.r o.n word s.window x o.aligned o.inside o.pending o.slots e' f in
    let up : hi + 1 ≡ o.base + o.r + (o.n + 1) = omega arith in
    let slots' = λ (i : ℕ) (y : Slot) (g : get_elem? new i ≡ some y).
      subst (λ (m : ℕ). Holds word m (number w o.base o.r i) y) up
        (set_slots w o.base o.r o.n word s.window o.size o.aligned o.inside lt o.slots i y g) in
    let found =
      get_elem?-set_self s.window at (filled_slot word hi)
        (lt-length_of_get_elem? s.window at e') in
    let gone : ispresent (hi + 1) new ≡ false =
      rw up (ispresent-expected w word o.base o.r (o.n + 1) new slots') in
    rw (o.next, o.size)
      (
        update_expected_once (length new) new hi
            (ispresent-true hi new at (filled_slot word hi) found (ground arith)) gone
            (omega (arith, length-set s.window at (filled_slot word hi), o.size)),
        record {
          base = o.base;
          r = o.r;
          n = o.n + 1;
          size = length-set s.window at (filled_slot word hi) ∙ o.size;
          aligned = o.aligned;
          inside = o.inside;
          pending = omega arith;
          low = o.low;
          next = up;
          bounded = omega (arith, o.next);
          slots = slots';
        },
      )

-- The slot of the expected number is free while there is room.
free_slot :
    (w : ℕ) (word : ℕ → Bytes) (lo : ℕ) (s : Receiver)
    → InOrder w word lo s
    → s.expected < lo + w
    → (x : Slot) × (get_elem? s.window (s.expected % length s.window) ≡ some x)
      × (x.is_filled ≡ false)
free_slot w word lo s o l =
    let hi = o.base + o.r + o.n in
    let (lt, num) = slot_index w o.base o.r o.n o.aligned o.inside (omega (arith, o.low, o.next)) in
    let (x, e) = get_elem?-some s.window (hi % w) (omega (arith, o.size)) in
    let v = (o.slots (hi % w) x e).vacant (omega (arith, num)) in rw (o.next, o.size) (x, e, v)

push_free :
    (win : Window) (buf : Bytes) (seq expected : ℕ) (x : Slot)
    → seq ≡ expected
    → get_elem? win (expected % length win) ≡ some x
    → x.is_filled ≡ false
    → push_data_to_buffer win buf seq expected
      ≡ set win (seq % length win) (record { content = buf; is_filled = true; seq = seq })
unfolding push_data_to_buffer push_at
push_free win buf seq expected x k e f =
    let e' : get_elem? win (seq % length win) ≡ some x =
      subst (λ (m : ℕ). get_elem? win (m % length win) ≡ some x) (sym k) e in
    ground arith

-- `push_data_to_buffer` with the words of its number, on a window in order.
push-Accepted :
    (w : ℕ) (word : ℕ → Bytes) (lo : ℕ) (s : Receiver) (buf : Bytes) (k : DataType) (seq : ℕ)
    → is_word k ≡ true
    → InOrder w word lo s
    → (seq < int_max) × (buf ≡ word seq)
    → Accepted w word lo
        (push_data_to_buffer s.window buf seq s.expected)
        s.expected
        (next_expected w lo k seq s.expected)
push-Accepted w word lo s buf kind seq kw o (b, q) =
    elim (Bool-cases (is_taken w lo kind seq s.expected)) [
      | inl t ↦
          let k : seq ≡ s.expected = ground arith in
          let (x, e, f) = free_slot w word lo s o (ground arith) in
          rw t (
            rw (push_free s.window buf seq s.expected x k e f, q, k)
              (stored-Accepted w word lo s x o (rw k at b) e f))
      | inr t ↦ elim (push_cases s.window buf seq s.expected) [
        | inl same ↦ rw (t, same) (unchanged w word lo s o)
        | inr (x, e, f, k, new) ↦
            let at = (o.base + o.r + o.n) % w in
            let e' : get_elem? s.window at ≡ some x =
              rw (o.next, o.size) at
                (subst (λ (m : ℕ). get_elem? s.window (m % length s.window) ≡ some x) k e) in
            let lt : o.n < w =
              not_full w o.base o.r o.n word s.window x o.aligned o.inside o.pending o.slots e' f in
            let room : s.expected < lo + w = omega (arith, o.low, o.next, lt) in
            absurd (ground arith)
      ]
    ]

-- What the datagrams of a transfer carry. One with data has a number below INT_MAX and the words of
-- that number; the last one, which says that the file has ended, has such a number too, and stands for
-- the words that the client prints for it.
abbrev pub Carries : (ℕ → Bytes) → Datagram → Type 0
Carries word d =
    (d.kind ≡ payload → (d.seq < int_max) × (d.buf ≡ word d.seq))
    × (d.kind ≡ eof → (d.seq < int_max) × (last_words ≡ word d.seq))

store-Accepted :
    (w : ℕ) (word : ℕ → Bytes) (lo : ℕ) (k : DataType) (d : Datagram) (s : Receiver)
    → d.kind ≡ k
    → InOrder w word lo s
    → Carries word d
    → Accepted w word lo (store d s) s.expected (next_expected w lo k d.seq s.expected)
unfolding store
store-Accepted w word lo payload d s q o c =
    rw (q, store) (push-Accepted w word lo s d.buf payload d.seq refl o (c.0 q))
store-Accepted w word lo eof d s q o c =
    rw (q, store) (push-Accepted w word lo s last_words eof d.seq refl o (c.1 q))
store-Accepted w word lo ack d s q o c = rw (q, store) (unchanged w word lo s o)
store-Accepted w word lo ping d s q o c = rw (q, store) (unchanged w word lo s o)

-- Every datagram of a transfer that is not dropped is handled: the loop over the expected number ends
-- within its fuel, the window stays in order with nothing printed, and the acknowledgement asks for
-- the number that is expected then. That is the next number if the datagram has data or the end of the
-- file, has the number expected before, and finds room in the window, and else the one expected before.
pub on_datagram-InOrder :
    (w : ℕ) (word : ℕ → Bytes) (lo : ℕ) (d : Datagram) (s : Receiver)
    → InOrder w word lo s
    → Carries word d
    → (s' : Receiver) × (a : Ack) × (stop : Bool) × (on_datagram d s ≡ some (s', a, stop))
      × InOrder w word lo s'
      × (a.seq ≡ s'.expected)
      × (s'.expected ≡ next_expected w lo d.kind d.seq s.expected)
unfolding on_datagram send_ack_to_server
on_datagram-InOrder w word lo d s o c =
    let e = next_expected w lo d.kind d.seq s.expected in
    let (u, i) = store-Accepted w word lo d.kind d s refl o c in
    (
      record { window = store d s; expected = e },
      send_ack_to_server (store d s) d.ts e,
      is_eof d.kind && (d.seq + 1 == e),
      rw (on_datagram, u) refl,
      i,
      refl,
      refl,
    )
