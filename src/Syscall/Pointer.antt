-- ===== src/Syscall/Pointer.antt =====
-- `valid_user_ptr`, the check that every pointer from user space passes.
use refix_os.Common.{
  ℕ, ◌<◌, Bool, u32_mod, add32, if◌then◌else◌, ◌≡◌, ltb, true, ◌↔◌, false, ◌+◌, ◌≤◌, arith,
}

-- USER_VIRT_BASE and USER_REGION_SIZE of kernel/include/platform.h
abbrev pub user_virt_base : ℕ
user_virt_base = 0x40000000

abbrev pub user_region_size : ℕ
user_region_size = 0x00100000

unfoldable pub valid_user_ptr : ℕ → ℕ → Bool
valid_user_ptr addr len =
    let end = add32 addr len in
    if ltb end addr
    then false
    else if ltb addr user_virt_base
    then false
    else if ltb (user_virt_base + user_region_size) end
    then false
    else true

-- For every 32-bit address and length the check accepts exactly the ranges that lie in the user
-- window when computed without wrap-around.
pub valid_user_ptr_iff :
    (addr len : ℕ)
    → addr < u32_mod
    → len < u32_mod
    → (valid_user_ptr addr len ≡ true)
      ↔ ((user_virt_base ≤ addr) × (addr + len ≤ user_virt_base + user_region_size))
unfolding valid_user_ptr
valid_user_ptr_iff addr len ha hl = ground arith
