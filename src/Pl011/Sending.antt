-- ===== src/Pl011/Sending.antt =====
-- What `send` of kernel/pl011/src/lib.rs puts on the line.
use aarch.Base.{
  ℕ, zero, suc, ◌<◌, ◌≡◌, ◌⊎◌, inl, inr, refl, ap, sym, ◌∙◌, arith, List, [], ◌∷◌, ◌++◌, bit_and,
  ◌==◌, if◌then◌else◌, Bool-cases, ==_iff, append-nil, All, Result, ok,
}
use mathlib.Core.List.{append_assoc}
use aarch.Pl011.{
  Device, Pl011, uartdr, uartfr, uartfr_busy, load, store, wait_tx_complete, put, send_bytes, send,
}

-- The text with a carriage return before each line feed.
abbrev pub with_returns : List ℕ → List ℕ
with_returns [] = []
with_returns (b ∷ bs) = if b == b'\n' then b'\r' ∷ (b ∷ with_returns bs) else b ∷ with_returns bs

two_more :
    (xs : List ℕ) (a b : ℕ) (rest : List ℕ)
    → ((xs ++ a ∷ []) ++ b ∷ []) ++ rest ≡ xs ++ a ∷ (b ∷ rest)
two_more xs a b rest =
    append_assoc (xs ++ a ∷ []) (b ∷ []) rest ∙ append_assoc xs (a ∷ []) (b ∷ rest)

-- A port that is busy for less than `fuel` reads of its flags, one after the other.
pub record Waits (dev : Device) (p : Pl011) (fuel : ℕ) : Type 0 where
  pub pending : dev.State → ℕ
  pub read_waits :
      (s : dev.State)
      → (bit_and ((load dev p uartfr s).0) uartfr_busy ≡ 0)
        ⊎ (pending ((load dev p uartfr s).1) < pending s)
  pub bounded : (s : dev.State) → pending s < fuel

-- A port that works: `sent` is what it has taken to send. A write of the data register is sent only
-- where the port is enabled and empty, and it is empty where its flags have said that it is not busy.
pub record Port (dev : Device) (p : Pl011) (fuel : ℕ) : Type 1 where
  pub waits : Waits dev p fuel
  pub sent : dev.State → List ℕ
  pub Enabled : dev.State → Type 0
  pub Empty : dev.State → Type 0
  pub read_sent : (s : dev.State) → sent ((load dev p uartfr s).1) ≡ sent s
  pub read_Enabled : (s : dev.State) → Enabled s → Enabled ((load dev p uartfr s).1)
  pub read_Empty :
      (s : dev.State)
      → bit_and ((load dev p uartfr s).0) uartfr_busy ≡ 0
      → Empty ((load dev p uartfr s).1)
  pub write_sent :
      (b : ℕ) (s : dev.State)
      → b < 256
      → Enabled s
      → Empty s
      → sent (store dev p uartdr b s) ≡ sent s ++ b ∷ []
  pub write_Enabled : (b : ℕ) (s : dev.State) → Enabled s → Enabled (store dev p uartdr b s)

-- A wait ends behind a read at which the port is not busy, and keeps what each read keeps.
pub wait-Kept :
    (dev : Device) (p : Pl011) (fuel : ℕ) (waits : Waits dev p fuel) (Kept : dev.State → Type 0)
    → ((s : dev.State) → Kept s → Kept ((load dev p uartfr s).1))
    → (n : ℕ) (s : dev.State) → waits.pending s < n
    → Kept s
    → (t : dev.State) × (wait_tx_complete dev p n s ≡ ok ((load dev p uartfr t).1))
      × (bit_and ((load dev p uartfr t).0) uartfr_busy ≡ 0)
      × Kept t
unfolding wait_tx_complete
wait-Kept dev p fuel waits Kept step zero s h k = absurd (omega arith)
wait-Kept dev p fuel waits Kept step (suc n) s h k =
    elim (Bool-cases (bit_and ((load dev p uartfr s).0) uartfr_busy == 0)) [
      | inl idle ↦
          (s, rw idle refl, (==_iff (bit_and ((load dev p uartfr s).0) uartfr_busy) 0).0 idle, k)
      | inr busy ↦ elim (waits.read_waits s) [
        | inl idle ↦ absurd (ground arith)
        | inr less ↦
            let (t, runs, idle, kept) =
              wait-Kept dev p fuel waits Kept step n ((load dev p uartfr s).1) (omega arith)
                (step s k) in
            (t, rw busy runs, idle, kept)
      ]
    ]

module _ (dev : Device) (p : Pl011) (fuel : ℕ) (port : Port dev p fuel) where
  -- The call ends, has sent the bytes `bs`, and leaves the port enabled and empty.
  record Sends (bs : List ℕ) (s : dev.State) (r : Result dev.State) : Type 0 where
    after : dev.State
    runs : r ≡ ok after
    sent : port.sent after ≡ port.sent s ++ bs
    enabled : port.Enabled after
    empty : port.Empty after

  wait-Sends : (s : dev.State) → port.Enabled s → Sends [] s (wait_tx_complete dev p fuel s)
  wait-Sends s on =
      let (t, runs, idle, (same, enabled)) =
        wait-Kept dev p fuel port.waits (λ t. (port.sent t ≡ port.sent s) × port.Enabled t)
          (λ t k. (port.read_sent t ∙ k.0, port.read_Enabled t k.1)) fuel s (port.waits.bounded s)
          (refl, on) in
      record {
        after = (load dev p uartfr t).1;
        runs = runs;
        sent = port.read_sent t ∙ same ∙ sym (append-nil (port.sent s));
        enabled = port.read_Enabled t enabled;
        empty = port.read_Empty t idle;
      }

  put-Sends :
      (b : ℕ) (s : dev.State)
      → b < 256
      → port.Enabled s
      → port.Empty s
      → Sends (b ∷ []) s (put dev p fuel b s)
  unfolding put
  put-Sends b s small on empty =
      let w = wait-Sends (store dev p uartdr b s) (port.write_Enabled b s on) in
      record {
        after = w.after;
        runs = w.runs;
        sent = w.sent ∙ append-nil _ ∙ port.write_sent b s small on empty;
        enabled = w.enabled;
        empty = w.empty;
      }

  send_bytes-Sends :
      (text : List ℕ) (s : dev.State)
      → All (λ b. b < 256) text
      → port.Enabled s
      → port.Empty s
      → Sends (with_returns text) s (send_bytes dev p fuel text s)
  unfolding send_bytes
  send_bytes-Sends [] s small on empty = record {
    after = s;
    runs = refl;
    sent = sym (append-nil (port.sent s));
    enabled = on;
    empty = empty;
  }
  send_bytes-Sends (b ∷ bs) s (small, others) on empty = elim (Bool-cases (b == b'\n')) [
    | inl feed ↦
        let cr = put-Sends b'\r' s (omega arith) on empty in
        let one = put-Sends b cr.after small cr.enabled cr.empty in
        let rest = send_bytes-Sends bs one.after others one.enabled one.empty in
        record {
          after = rest.after;
          runs = rw (feed, cr.runs, one.runs) rest.runs;
          sent = rw feed (
              rest.sent
              ∙ ap (λ t. t ++ with_returns bs) (one.sent ∙ ap (λ t. t ++ b ∷ []) cr.sent)
              ∙ two_more (port.sent s) b'\r' b (with_returns bs));
          enabled = rest.enabled;
          empty = rest.empty;
        }
    | inr other ↦
        let one = put-Sends b s small on empty in
        let rest = send_bytes-Sends bs one.after others one.enabled one.empty in
        record {
          after = rest.after;
          runs = rw (other, one.runs) rest.runs;
          sent = rw other (
              rest.sent
              ∙ ap (λ t. t ++ with_returns bs) one.sent
              ∙ append_assoc (port.sent s) (b ∷ []) (with_returns bs));
          enabled = rest.enabled;
          empty = rest.empty;
        }
  ]

  -- For a port that is busy for less than fuel reads one after the other, is empty once its
  -- flags have not said busy, sends a byte that is written to its data register while it is
  -- enabled and empty, sends nothing for a read of its flags, and stays enabled through both,
  -- send of a text of bytes to the enabled port ends, has sent the text with a carriage return
  -- before each line feed, and leaves the port enabled and empty.
  pub send-with_returns :
      (text : List ℕ) (s : dev.State)
      → All (λ b. b < 256) text
      → port.Enabled s
      → (s' : dev.State) × (send dev p fuel text s ≡ ok s')
        × (port.sent s' ≡ port.sent s ++ with_returns text)
        × port.Enabled s'
        × port.Empty s'
  unfolding send
  send-with_returns text s small on =
      let first = wait-Sends s on in
      let rest = send_bytes-Sends text first.after small first.enabled first.empty in
      (
        rest.after,
        rw first.runs rest.runs,
        rest.sent ∙ ap (λ t. t ++ with_returns text) (first.sent ∙ append-nil (port.sent s)),
        rest.enabled,
        rest.empty,
      )
