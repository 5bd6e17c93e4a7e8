-- ===== src/Periph/DmaLaws.antt =====
-- The paced transfer of DMA channel 1: each word moves the address by two and the count by one,
-- and the last word ends the transfer.
use edi_emulator.Prelude.{
  ℕ, ◌+◌, ◌-◌, ◌%◌, ◌^◌, ◌≤◌, ◌<◌, ◌≡◌, sym, ◌∙◌, arith, true, false, ◌==◌, if◌then◌else◌, List,
  length, get_or, length-set, get_or-set, has_bit, clear_bit, set_bit, u32, Bool-cases, inl, inr,
}
use edi_emulator.Periph.{Peripherals}
use edi_emulator.Periph.Dma.{
  be32, be16, put_be32, put_be16, dma1_memory_address, dma1_transfer_count, complete_dma1,
  advance_dma1_word,
}

ruleset reads = (get_or-set, length-set)

module _ (l : List ℕ) (h : length l ≡ 112) where
  address-put : (v : ℕ) → v < 2 ^ 32 → be32 (put_be32 l 0x4c v) 0x4c ≡ v
  unfolding be32 put_be32
  address-put v k = simp (reads, h) (omega arith)

  count-put_address : (v : ℕ) → be16 (put_be32 l 0x4c v) 0x4a ≡ be16 l 0x4a
  unfolding be16 put_be32
  count-put_address v = simp reads

  count-put : (v : ℕ) → v < 2 ^ 16 → be16 (put_be16 l 0x4a v) 0x4a ≡ v
  unfolding be16 put_be16
  count-put v k = simp (reads, h) (omega arith)

  address-put_count : (v : ℕ) → be32 (put_be16 l 0x4a v) 0x4c ≡ be32 l 0x4c
  unfolding be32 put_be16
  address-put_count v = simp reads

  other-put :
      (v w : ℕ) (i : ℕ) → i < 0x4a → get_or (put_be16 (put_be32 l 0x4c v) 0x4a w) i 0 ≡ get_or l i 0
  unfolding put_be16 put_be32
  other-put v w i k = simp (reads, h) (ground arith)

complete-address : (p : Peripherals) → dma1_memory_address (complete_dma1 p) ≡ dma1_memory_address p
unfolding dma1_memory_address complete_dma1 be32
complete-address p = simp reads

complete-count : (p : Peripherals) → dma1_transfer_count (complete_dma1 p) ≡ dma1_transfer_count p
unfolding dma1_transfer_count complete_dma1 be16
complete-count p = simp reads

complete-control :
    (p : Peripherals)
    → length p.dma_regs ≡ 112
    → get_or (complete_dma1 p).dma_regs 0x47 0 ≡ clear_bit (get_or p.dma_regs 0x47 0) 7
unfolding complete_dma1
complete-control p h = simp (reads, h)

complete-status :
    (p : Peripherals)
    → length p.dma_regs ≡ 112
    → get_or (complete_dma1 p).dma_regs 0x40 0 ≡ set_bit (get_or p.dma_regs 0x40 0) 7
unfolding complete_dma1
complete-status p h = simp (reads, h)

-- The state after the address and the count of one word, before a completion.
moved : Peripherals → Peripherals
moved p =
    let l = put_be32 p.dma_regs 0x4c (u32 (dma1_memory_address p + 2)) in
    record p { dma_regs = put_be16 l 0x4a (be16 p.dma_regs 0x4a - 1) }

length-moved : (p : Peripherals) → length p.dma_regs ≡ 112 → length (moved p).dma_regs ≡ 112
unfolding moved put_be32 put_be16
length-moved p h = simp (length-set, h)

length-put_address : (l : List ℕ) (v : ℕ) → length (put_be32 l 0x4c v) ≡ length l
unfolding put_be32
length-put_address l v = simp length-set

module _ (p : Peripherals) (h : length p.dma_regs ≡ 112) where
  advance-moved :
      advance_dma1_word p
      ≡ (if dma1_transfer_count p - 1 == 0 then complete_dma1 (moved p) else moved p)
  unfolding advance_dma1_word moved dma1_transfer_count
  advance-moved = rw (count-put_address p.dma_regs h (u32 (dma1_memory_address p + 2)))

  moved-address : dma1_memory_address (moved p) ≡ u32 (dma1_memory_address p + 2)
  unfolding moved dma1_memory_address
  moved-address =
      let l = put_be32 p.dma_regs 0x4c (u32 (be32 p.dma_regs 0x4c + 2)) in
      address-put_count l (length-put_address p.dma_regs (u32 (be32 p.dma_regs 0x4c + 2)) ∙ h)
        (be16 p.dma_regs 0x4a - 1)
      ∙ address-put p.dma_regs h (u32 (be32 p.dma_regs 0x4c + 2)) (omega arith)

  moved-count :
      dma1_transfer_count p < 2 ^ 16 → dma1_transfer_count (moved p) ≡ dma1_transfer_count p - 1
  unfolding moved dma1_transfer_count
  moved-count k =
      count-put (put_be32 p.dma_regs 0x4c (u32 (dma1_memory_address p + 2)))
        (length-put_address p.dma_regs _ ∙ h) (be16 p.dma_regs 0x4a - 1) (omega arith)

  moved-other : (i : ℕ) → i < 0x4a → get_or (moved p).dma_regs i 0 ≡ get_or p.dma_regs i 0
  unfolding moved
  moved-other i k = other-put p.dma_regs h _ _ i k

-- What one word does.
pub record IsWord (p q : Peripherals) : Type 0 where
  pub length_same : length q.dma_regs ≡ length p.dma_regs
  pub address : dma1_memory_address q ≡ (dma1_memory_address p + 2) % 2 ^ 32
  pub count : dma1_transfer_count q ≡ dma1_transfer_count p - 1
  pub going :
      1 < dma1_transfer_count p
      → (get_or q.dma_regs 0x47 0 ≡ get_or p.dma_regs 0x47 0)
        × (get_or q.dma_regs 0x40 0 ≡ get_or p.dma_regs 0x40 0)
  pub over :
      dma1_transfer_count p ≤ 1
      → (has_bit (get_or q.dma_regs 0x47 0) 7 ≡ false)
        × (has_bit (get_or q.dma_regs 0x40 0) 7 ≡ true)

clear_bit_lem : (x : ℕ) → has_bit (clear_bit x 7) 7 ≡ false
clear_bit_lem x = ground arith

set_bit_lem : (x : ℕ) → has_bit (set_bit x 7) 7 ≡ true
set_bit_lem x = ground arith

length_complete : (p : Peripherals) → length (complete_dma1 p).dma_regs ≡ length p.dma_regs
unfolding complete_dma1
length_complete p = simp length-set

pub advance-IsWord :
    (p : Peripherals)
    → length p.dma_regs ≡ 112
    → dma1_transfer_count p < 2 ^ 16
    → IsWord p (advance_dma1_word p)
advance-IsWord p h k = elim (Bool-cases (dma1_transfer_count p - 1 == 0)) [
  | inl last ↦
      let m = moved p in
      let hm = length-moved p h in
      rw (advance-moved p h, last)
        (record {
          length_same = length_complete m ∙ hm ∙ sym h;
          address = complete-address m ∙ moved-address p h;
          count = complete-count m ∙ moved-count p h k;
          going = λ more. absurd (ground arith);
          over = λ few. (
            rw (complete-control m hm) (clear_bit_lem (get_or m.dma_regs 0x47 0)),
            rw (complete-status m hm) (set_bit_lem (get_or m.dma_regs 0x40 0)),
          );
        })
  | inr more ↦
      rw (advance-moved p h, more)
        (record {
          length_same = length-moved p h ∙ sym h;
          address = moved-address p h;
          count = moved-count p h k;
          going =
              λ some_left. (moved-other p h 0x47 (omega arith), moved-other p h 0x40 (omega arith));
          over = λ few. absurd (ground arith);
        })
]
