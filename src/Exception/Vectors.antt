-- ===== src/Exception/Vectors.antt =====
-- kernel/arch/arm/exception/vectors.S: the table that the processor goes through to an entry of
-- exception_entry.S.
use refix_os.Common.{ℕ, List, Option, ◌∷◌, drop, none, ◌≡◌, some, ◌/◌, [], suc, zero, refl}

-- The exceptions of the processor, and where it goes on from the start of the table.
data Exception : Type 0 where
  reset undefined_instruction supervisor_call prefetch_abort data_abort irq fiq : Exception

abbrev offset : Exception → ℕ
offset reset = 0x00
offset undefined_instruction = 0x04
offset supervisor_call = 0x08
offset prefetch_abort = 0x0C
offset data_abort = 0x10
offset irq = 0x18
offset fiq = 0x1C

-- The labels that the literal pool holds.
data Entry : Type 0 where
  start exception_entry_undef exception_entry_svc exception_entry_pabort exception_entry_dabort
        exception_entry_irq exception_entry_fiq :
      Entry

-- `ldr pc, …` with the place in the pool, and the instruction of the reserved entry.
data Instruction : Type 0 where
  ldr_pc : ℕ → Instruction
  nop : Instruction

unfoldable vectors : List Instruction
vectors = ldr_pc 0 ∷ ldr_pc 1 ∷ ldr_pc 2 ∷ ldr_pc 3 ∷ ldr_pc 4 ∷ nop ∷ ldr_pc 5 ∷ ldr_pc 6 ∷ []

unfoldable pool : List Entry
pool =
    start ∷ exception_entry_undef ∷ exception_entry_svc ∷ exception_entry_pabort
    ∷ exception_entry_dabort ∷ exception_entry_irq ∷ exception_entry_fiq ∷ []

abbrev word_at : List Entry → ℕ → Option Entry
word_at [] i = none
word_at (e ∷ es) zero = some e
word_at (e ∷ es) (suc i) = word_at es i

-- The entry that is reached; a nop goes on at the next instruction.
unfoldable run_from : List Instruction → Option Entry
run_from [] = none
run_from (ldr_pc i ∷ rest) = word_at pool i
run_from (nop ∷ rest) = run_from rest

unfoldable taken : Exception → Option Entry
taken e = run_from (drop (offset e / 4) vectors)

-- Each exception comes to the entry of its name.
taken_lem :
    (taken reset ≡ some start)
    × (taken undefined_instruction ≡ some exception_entry_undef)
    × (taken supervisor_call ≡ some exception_entry_svc)
    × (taken prefetch_abort ≡ some exception_entry_pabort)
    × (taken data_abort ≡ some exception_entry_dabort)
    × (taken irq ≡ some exception_entry_irq)
    × (taken fiq ≡ some exception_entry_fiq)
unfolding taken run_from vectors pool
taken_lem = (refl, refl, refl, refl, refl, refl, refl)
