-- ===== src/Drive/Header.antt =====
-- drive/ib.h, drive/sib.c: the 32-bit immediate data that goes with each message.
use maruswap.Base.{ℕ, ◌*◌, ◌/◌, ◌^◌, bit_and, bit_or}

abbrev pub page_shift : ℕ
page_shift = 12

abbrev pub page_size : ℕ
page_size = 2 ^ 12

abbrev pub max_memblock : ℕ
max_memblock = 128

abbrev pub config_batch : ℕ
config_batch = 2 ^ 10

abbrev pub opcode_open : ℕ
opcode_open = 0x1

abbrev pub opcode_commit : ℕ
opcode_commit = 0x3

abbrev pub opcode_qcommit : ℕ
opcode_qcommit = 0x7

abbrev pub multicast_opcode_flow : ℕ
multicast_opcode_flow = 0x1

-- the page number of a byte offset
pub get_offset : ℕ → ℕ
get_offset roffset = bit_and (roffset / 2 ^ 12) 0xfffffff

-- `opcode << 28` does not overflow an `int` for the opcodes in use, all below 8.
pub set_header : ℕ → ℕ → ℕ
set_header opcode offset = bit_and (bit_or (opcode * 2 ^ 28) (bit_and offset 0xfffffff)) 0xffffffff

-- the memory block of a page number
unfoldable pub get_num_memblock : ℕ → ℕ
get_num_memblock offset = bit_and (offset / 2 ^ 18) 0x3ff

-- `header` in `maruswap_multicast_write`
unfoldable pub flow_header : ℕ → ℕ
flow_header offset = bit_or (multicast_opcode_flow * 2 ^ 28) (bit_and offset 0xfffffff)

-- `opcode` in `ib_rpc_open_unlocked`
unfoldable pub open_opcode : ℕ → ℕ
open_opcode offset = bit_or (opcode_open * 2 ^ 28) offset

-- `opcode` in `ib_rpc_commit_unlocked`
unfoldable pub commit_opcode : ℕ
commit_opcode = opcode_commit * 2 ^ 28

-- `opcode` in `ib_rpc_qcommit_unlocked`; `count << 8` wraps in 32 bits, which the mask hides.
unfoldable pub qcommit_opcode : ℕ → ℕ
qcommit_opcode count = bit_or (opcode_qcommit * 2 ^ 28) (bit_and (count * 2 ^ 8) 0xfffff00)

-- `.ex.imm_data` in `__ib_rpc`
unfoldable pub rpc_imm : ℕ → ℕ → ℕ
rpc_imm opcode binder = bit_or opcode binder

-- `bi` in `__ib_rpc`: the slot that an answer is filed under
unfoldable pub answer_slot : ℕ → ℕ
answer_slot imm_data = bit_and imm_data 0xff

-- `send_offset << PAGE_SHIFT` in `maruswap_rdma_read`: the byte offset inside the block
unfoldable pub read_offset : ℕ → ℕ
read_offset offset = bit_and offset 0x3ffff * 2 ^ 12
