-- ===== src/Context.antt =====
-- kernel/arch/arm/proc/context_switch.S, and ret_from_first_entry of
-- kernel/arch/arm/exception/exception_entry.S, instruction by instruction. The processor is in SVC
-- mode, and only the registers that the code touches are there; barriers and cache operations have no
-- effect on them.
pub mod Frames
pub mod Saved
pub mod Restored
pub mod FirstEntry
pub mod Entry
pub mod Returned
pub mod Interrupted
pub mod Faulted
pub mod Preempted
mod Tests
use Prim.Native.Nat.{bit_or}
use refix_os.Common.{ℕ, List, Option, [], some, ◌∷◌, add32, sub32, ◌*◌, suc, ◌++◌, zero, none}
use refix_os.Boot.{Words, store_word}
use refix_os.Proc.{Table, update}

-- r4 to r11 and lr; the stack pointer of SVC mode; the banked SP and LR of user mode; TTBR0.
pub record Cpu : Type 0 where
  pub saved : List ℕ
  pub lr : ℕ
  pub sp : ℕ
  pub sp_usr : ℕ
  pub lr_usr : ℕ
  pub ttbr0 : ℕ

-- With it the words of memory by address, and the process table.
pub record Core : Type 0 where
  pub cpu : Cpu
  pub memory : Words
  pub processes : Table

-- The registers of `stmfd sp!, {…}` and `ldmfd sp!, {…}`, the lowest at the lowest address.
unfoldable pub store_words : Words → ℕ → List ℕ → Words
store_words m a [] = m
store_words m a (v ∷ vs) = store_words (store_word m a v) (add32 a 4) vs

unfoldable pub load_words : Words → ℕ → ℕ → List ℕ
load_words m a zero = []
load_words m a (suc n) = m a ∷ load_words m (add32 a 4) n

-- The save side: push {r4-r11, lr}, and sp, SP_usr and LR_usr into `prev->ctx`.
unfoldable pub save : Core → Option ℕ → Core
save s none = s
save s (some prev) =
    let sp = sub32 s.cpu.sp (9 * 4) in
    let p = s.processes prev in
    record {
      cpu = record (s.cpu) { sp = sp };
      memory = store_words s.memory sp (s.cpu.saved ++ s.cpu.lr ∷ []);
      processes = update s.processes prev (record p {
        ctx = record (p.ctx) { sp_svc = sp; sp_usr = s.cpu.sp_usr; lr_usr = s.cpu.lr_usr };
      });
    }

-- The load side, up to `bx lr`.
unfoldable pub load : Core → ℕ → Core
load s next =
    let p = s.processes next in
    record s {
      cpu = record {
        saved = load_words s.memory p.ctx.sp_svc 8;
        lr = s.memory (add32 p.ctx.sp_svc (8 * 4));
        sp = add32 p.ctx.sp_svc (9 * 4);
        sp_usr = p.ctx.sp_usr;
        lr_usr = p.ctx.lr_usr;
        ttbr0 = bit_or p.pgd_pa 0x4A;
      };
    }

-- Control goes on at the address that `lr` of the result holds.
unfoldable pub context_switch : Core → Option ℕ → ℕ → Core
context_switch s prev next = load (save s prev) next

-- The registers of a process in user mode.
pub record UserState : Type 0 where
  pub r : List ℕ
  pub pc : ℕ
  pub cpsr : ℕ
  pub sp : ℕ
  pub lr : ℕ

-- `ldmfd sp!, {r0-r12, lr}` and `rfefd sp!`, with the stack pointer of SVC mode that they leave.
unfoldable pub ret_from_first_entry : Core → UserState × ℕ
ret_from_first_entry s =
    let at = λ (i : ℕ). s.memory (add32 s.cpu.sp (i * 4)) in
    (
      record {
        r = load_words s.memory s.cpu.sp 13;
        pc = at 14;
        cpsr = at 15;
        sp = s.cpu.sp_usr;
        lr = s.cpu.lr_usr;
      },
      add32 s.cpu.sp (16 * 4),
    )
