-- ===== src/Periph/Transfer.antt =====
-- A whole transfer on DMA channel 1, word by word.
use edi_emulator.Prelude.{
  ℕ, zero, suc, ◌+◌, ◌-◌, ◌*◌, ◌%◌, ◌^◌, ◌≤◌, ◌<◌, ◌≡◌, ◌∙◌, arith, true, false, length, get_or,
  has_bit,
}
use edi_emulator.Prelude.Paced.{iterate}
use edi_emulator.Periph.{Peripherals}
use edi_emulator.Periph.Dma.{
  dma1_memory_address, dma1_transfer_count, dma1_active, advance_dma1_word,
}
use edi_emulator.Periph.DmaLaws.{IsWord, advance-IsWord}

-- `q` is `k` words further than `p`.
pub record IsTransferred (p : Peripherals) (k : ℕ) (q : Peripherals) : Type 0 where
  pub address : dma1_memory_address q ≡ (dma1_memory_address p + 2 * k) % 2 ^ 32
  pub count : dma1_transfer_count q ≡ dma1_transfer_count p - k
  pub going :
      k < dma1_transfer_count p
      → (dma1_active q ≡ dma1_active p) × (get_or q.dma_regs 0x40 0 ≡ get_or p.dma_regs 0x40 0)
  pub over :
      k ≡ dma1_transfer_count p
      → (dma1_active q ≡ false) × (has_bit (get_or q.dma_regs 0x40 0) 7 ≡ true)

active-word :
    (p q : Peripherals) → IsWord p q → 1 < dma1_transfer_count p → dma1_active q ≡ dma1_active p
unfolding dma1_active
active-word p q w h = ground (arith, w.count, (w.going h).0)

inactive-word : (p q : Peripherals) → IsWord p q → dma1_transfer_count p ≤ 1 → dma1_active q ≡ false
unfolding dma1_active
inactive-word p q w h = ground (arith, (w.over h).0)

transfer_step :
    (p q : Peripherals) (k : ℕ) (r : Peripherals)
    → IsWord p q
    → suc (suc k) ≤ dma1_transfer_count p
    → IsTransferred q (suc k) r
    → IsTransferred p (suc (suc k)) r
transfer_step p q k r w h t = record {
  address = t.address ∙ (rw w.address (omega arith));
  count = t.count ∙ (rw w.count (omega arith));
  going = λ more. (
    (t.going (omega (arith, w.count))).0 ∙ active-word p q w (omega arith),
    (t.going (omega (arith, w.count))).1 ∙ (w.going (omega arith)).1,
  );
  over = λ last. t.over (omega (arith, w.count));
}

-- A channel that has `n` words to go and is given `k` of them, `0 < k ≤ n`: the address has moved
-- by `2 k` modulo `2 ^ 32`, `n - k` words are left; before the last word the channel is as active
-- as it was and its status is unchanged, and with the last it is inactive and COC (bit 7) is up.
pub transfer-IsTransferred :
    (k : ℕ) (p : Peripherals)
    → length p.dma_regs ≡ 112
    → dma1_transfer_count p < 2 ^ 16
    → suc k ≤ dma1_transfer_count p
    → IsTransferred p (suc k) (iterate (suc k) advance_dma1_word p)
unfolding iterate
transfer-IsTransferred zero p h c m =
    let w = advance-IsWord p h c in
    record {
      address = w.address;
      count = w.count;
      going = λ more. (active-word p _ w more, (w.going more).1);
      over = λ last. (inactive-word p _ w (omega arith), (w.over (omega arith)).1);
    }
transfer-IsTransferred (suc k) p h c m =
    let w = advance-IsWord p h c in
    transfer_step p (advance_dma1_word p) k _ w m (
      transfer-IsTransferred k (advance_dma1_word p) (w.length_same ∙ h) (omega (arith, w.count))
        (omega (arith, w.count)))
