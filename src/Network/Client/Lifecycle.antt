-- ===== src/Network/Client/Lifecycle.antt =====
-- From the start of a connection to its end, and what becomes of bytes that are left in the buffer.
use dcscan_modules_api.Prelude.{
  ℕ, zero, suc, ◌<◌, ◌≡◌, refl, Bool, true, false, none, List, arith, ◌==◌, if◌then◌else◌,
}
use dcscan_modules_api.Utils.ByteQueue.{count, fetch_header, fetch_next_msg, notify_unblock}
use dcscan_modules_api.Network.Message.{Memory}
use dcscan_modules_api.Network.Client.{Client, Round, decode_round, hang_up, start_sending}

module _ {E : Type 0} (callback : ℕ → List ℕ → E → E) where
  abbrev word : ℕ → ℕ
  word v = if v == 1 then 1 else 2

  -- `n` rounds of the decoder.
  abbrev go_on : Memory → Round callback → (Client E → Round callback) → Round callback
  go_on memory (Round.again c) rest = rest c
  go_on memory r rest = r

  abbrev pub rounds : Memory → ℕ → Client E → Round callback
  rounds memory zero c = Round.again c
  rounds memory (suc n) c = go_on memory (decode_round callback memory c) (λ c'. rounds memory n c')

  idle_round :
      (memory : Memory) (c : Client E)
      → c.inbound.ntf_unblock ≡ true
      → 0 < count c.inbound
      → decode_round callback memory c ≡ Round.again c
  unfolding decode_round fetch_next_msg fetch_header
  idle_round memory c u h = ground (arith, u, h)

  spins :
      (memory : Memory) (n : ℕ) (c : Client E)
      → c.inbound.ntf_unblock ≡ true
      → 0 < count c.inbound
      → rounds memory n c ≡ Round.again c
  spins memory zero c u h = refl
  spins memory (suc n) c u h = rw (idle_round memory c u h) (spins memory n c u h)

  -- If the connection ends while bytes are left in the buffer, the decoder never ends: after any number
  -- of rounds it starts another one, and nothing has changed, so that the join waits for ever. A start
  -- that has not yet seen the server's word waits for ever too.
  pub hang_up_strands :
      (memory : Memory) (woken : Bool) (n socket : ℕ) (c : Client E)
      → 0 < count c.inbound
      → c.send_thread ≡ false
      → (rounds memory n (hang_up callback c) ≡ Round.again (hang_up callback c))
        × (start_sending callback woken socket (hang_up callback c) ≡ none)
  unfolding hang_up start_sending
  hang_up_strands memory woken n socket c h idle = (
    unfold notify_unblock count in spins memory n (hang_up callback c) refl h,
    ground (arith, idle),
  )
