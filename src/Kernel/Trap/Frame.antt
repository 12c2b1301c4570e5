-- ===== src/Kernel/Trap/Frame.antt =====
-- Where page_fault_handler of trap.c puts its frame.
use damn_os_damn_fs.Prelude.{ℕ, ◌+◌, ◌-◌, ◌≤◌, ◌<◌, ◌≡◌, ◌⊎◌, arith}
use damn_os_damn_fs.Kernel.State.{pgsize}
use damn_os_damn_fs.Kernel.Trap.{utf_addr, uxstacktop, utrapframe_size}

-- The frame of a page fault lies below the top of the exception stack. If the fault happened on that
-- stack, the frame ends at least a word below the stack pointer, so it overwrites nothing that is on
-- the stack and leaves the word that the way back needs; otherwise it ends at the top.
pub utf_addr-below :
    (esp : ℕ)
    → (utf_addr esp + utrapframe_size ≤ uxstacktop)
      × (uxstacktop - pgsize ≤ esp → esp < uxstacktop → utf_addr esp + utrapframe_size + 4 ≡ esp)
      × ((esp < uxstacktop - pgsize) ⊎ (uxstacktop ≤ esp)
          → utf_addr esp + utrapframe_size ≡ uxstacktop)
unfolding utf_addr
utf_addr-below esp = (ground arith, λ a b. ground arith, λ o. ground (arith, o))
