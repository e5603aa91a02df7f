-- ===== src/Transfer/Receiver/Deliver.antt =====
-- A whole transfer: what the client prints, whatever is dropped and whenever the reader runs.
use network_programming.Base.{
  ℕ, zero, suc, ◌+◌, ◌≤◌, ◌<◌, false, Option, some, List, [], ◌∷◌, ◌++◌, All, Bytes, ◌≡◌, refl,
  subst, ap, arith, Bool, Bool-cases, inl, inr, length-replicate, All-replicate, All-get_elem?,
}
use mathlib.Core.List.{append-nil}
use native.Mathlib.Nat.{zero-mod, add-zero, zero-add, suc-add}
use network_programming.Transfer.Receiver.{
  Slot, Line, Receiver, Event, dropped, arrives, reads, init_window, start, step, run, read_buffer,
}
use network_programming.Transfer.Receiver.Scan.{stream}
use network_programming.Transfer.Receiver.Order.{InOrder}
use network_programming.Transfer.Receiver.Arrive.{Carries, on_datagram-InOrder}
use network_programming.Transfer.Receiver.Read.{read_buffer-InOrder}

pub start-InOrder : (w : ℕ) (word : ℕ → Bytes) → 0 < w → InOrder w word 0 (start w)
unfolding start init_window
start-InOrder w word p = record {
  base = 0;
  r = 0;
  n = 0;
  size = length-replicate w _;
  aligned = zero-mod w;
  inside = p;
  pending = omega arith;
  low = omega arith;
  next = omega arith;
  bounded = omega arith;
  slots = λ i x e. record {
    full = λ l. absurd (omega arith);
    vacant = λ _.
        All-get_elem? (λ (y : Slot). y.is_filled ≡ false) (init_window w) i
          (All-replicate (λ (y : Slot). y.is_filled ≡ false) w _ refl) e;
  };
}

pub stream-append :
    (word : ℕ → Bytes) (k c d : ℕ)
    → stream word k c ++ stream word (k + c) d ≡ stream word k (c + d)
stream-append word k zero d = rw (add-zero, zero-add)
stream-append word k (suc c) d =
    let shift : k + suc c ≡ k + 1 + c = omega arith in
    rw (suc-add, shift) (ap (λ ls. (k, word k) ∷ ls) (stream-append word (k + 1) c d))

-- What the datagrams of an event carry.
abbrev pub IsFair : (ℕ → Bytes) → Event → Type 0
IsFair word (dropped d) = Unit
IsFair word (arrives d) = Carries word d
IsFair word reads = Unit

-- What a run leads to: it is handled, prints `c` more lines in order, and leaves the window
-- in order behind them.
abbrev pub Delivers : ℕ → (ℕ → Bytes) → ℕ → Option (Receiver × List Line) → Type 0
Delivers w word lo result =
    (s' : Receiver) × (c : ℕ) × (result ≡ some (s', stream word lo c)) × InOrder w word (lo + c) s'

stays :
    (w : ℕ) (word : ℕ → Bytes) (lo : ℕ) (s : Receiver)
    → InOrder w word lo s
    → InOrder w word (lo + 0) s
stays w word lo s o = subst (λ (l : ℕ). InOrder w word l s) (omega arith) o

step-Delivers :
    (w : ℕ) (word : ℕ → Bytes) (lo : ℕ) (e : Event) (s : Receiver)
    → IsFair word e
    → InOrder w word lo s
    → (s' : Receiver) × (c : ℕ) × (stop : Bool) × (step e s ≡ some (s', stream word lo c, stop))
      × InOrder w word (lo + c) s'
unfolding step
step-Delivers w word lo (dropped d) s f o = (s, 0, false, refl, stays w word lo s o)
step-Delivers w word lo (arrives d) s f o =
    let (s', a, stop, e, o', _, _) = on_datagram-InOrder w word lo d s o f in
    (s', 0, stop, ground arith, stays w word lo s' o')
step-Delivers w word lo reads s f o =
    let (c, q, _, o') = read_buffer-InOrder w word lo s o in
    (record s { window = (read_buffer s.window).0 }, c, false, rw q, o')

run-Delivers :
    (w : ℕ) (word : ℕ → Bytes) (lo : ℕ) (es : List Event) (s : Receiver)
    → All (IsFair word) es
    → InOrder w word lo s
    → Delivers w word lo (run es s)
unfolding run
run-Delivers w word lo [] s f o = (s, 0, refl, stays w word lo s o)
run-Delivers w word lo (e ∷ es) s f o =
    let (s₁, c, stop, p, o₁) = step-Delivers w word lo e s f.0 o in
    let (s₂, d, q, o₂) = run-Delivers w word (lo + c) es s₁ f.1 o₁ in
    elim (Bool-cases stop) [
      | inl y ↦
          (s₁, c, rw (run, p, y) (ap (λ ls. some (s₁, ls)) (append-nil (stream word lo c))), o₁)
      | inr n ↦ (
        s₂,
        c + d,
        rw (run, p, n) (ground (arith, q, stream-append word lo c d)),
        subst (λ (l : ℕ). InOrder w word l s₂) (omega arith) o₂,
      )
    ]

-- Whatever datagrams are dropped, repeated or out of order, and whenever the reader runs, the client
-- handles every event up to its end and prints the words of the numbers 0, 1, 2 and so on, in order, each once and
-- with none left out, up to a number that is not above the expected one. It is assumed that the
-- window has a slot, and that each datagram with data, or with the end of the file, carries a number
-- below INT_MAX and its words.
pub in_order_delivery :
    (w : ℕ) (word : ℕ → Bytes) (es : List Event)
    → 0 < w
    → All (IsFair word) es
    → (s : Receiver) × (c : ℕ) × (run es (start w) ≡ some (s, stream word 0 c)) × (c ≤ s.expected)
in_order_delivery w word es p f =
    let (s, c, e, o) = run-Delivers w word 0 es (start w) f (start-InOrder w word p) in
    (s, c, e, omega (arith, o.low, o.next))
