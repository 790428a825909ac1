-- ===== src/Server/Header.antt =====
-- lib/rpc.c, include/rpc.h: how the server builds and reads the immediate data.
use maruswap.Base.{ℕ, ◌*◌, ◌/◌, ◌^◌, bit_and, bit_or, Option, none, some, leb, if◌then◌else◌}

abbrev pub page_size : ℕ
page_size = 2 ^ 12

abbrev pub offset_bit : ℕ
offset_bit = 28

abbrev pub config_batch : ℕ
config_batch = 2 ^ 9

abbrev pub rdma_opcode_open : ℕ
rdma_opcode_open = 0x1

abbrev pub rdma_opcode_close : ℕ
rdma_opcode_close = 0x2

abbrev pub rdma_opcode_commit : ℕ
rdma_opcode_commit = 0x3

abbrev pub rdma_opcode_transition : ℕ
rdma_opcode_transition = 0x4

abbrev pub rdma_opcode_check : ℕ
rdma_opcode_check = 0x5

abbrev pub rdma_opcode_get : ℕ
rdma_opcode_get = 0x6

abbrev pub rdma_opcode_qcommit : ℕ
rdma_opcode_qcommit = 0x7

abbrev pub multicast_opcode_flow : ℕ
multicast_opcode_flow = 0x1

abbrev pub multicast_opcode_check : ℕ
multicast_opcode_check = 0x2

abbrev pub multicast_opcode_commit : ℕ
multicast_opcode_commit = 0x3

abbrev pub multicast_opcode_none : ℕ
multicast_opcode_none = 0xf

-- what `interpret_header` writes through its pointers
pub record Fields : Type 0 where
  pub opcode : ℕ
  pub nr_buffer : ℕ
  pub offset : ℕ

-- The offset is in bytes here, and the shift by 12 makes it a page number.
unfoldable pub set_header : ℕ → ℕ → ℕ
set_header opcode offset = bit_or (opcode * 2 ^ 28) (bit_and (offset / 2 ^ 12) 0xfffffff)

-- `none` is the return of false. The opcode is a `uint32_t` shifted by 28, so never negative.
unfoldable pub interpret_header : ℕ → Option Fields
interpret_header header =
    let opcode = header / 2 ^ 28 in
    let off = bit_and header 0xfffffff in
    if leb 32 opcode
    then none
    else some (record {
      opcode = opcode;
      nr_buffer = bit_and (off / 2 ^ 18) 0xfff;
      offset = bit_and off 0x3ffff;
    })

unfoldable pub ib_get_opcode : ℕ → ℕ
ib_get_opcode imm_data = bit_and imm_data 0xf0000000 / 2 ^ 28

-- `count` in `__process_rdma_rpc_commit`
unfoldable pub commit_count : ℕ → ℕ
commit_count imm_data = bit_and (imm_data / 2 ^ 8) 0xfffff

-- the byte offset of a conveyed page in its block, `offset << 12`
unfoldable pub convey_offset : ℕ → ℕ
convey_offset offset = offset * 2 ^ 12
