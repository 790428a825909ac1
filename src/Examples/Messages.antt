-- ===== src/Examples/Messages.antt =====
-- Headers and places, at page number 0x40003 and others.
use maruswap.Base.{◌+◌, ◌/◌, ◌%◌, ◌^◌, ◌≤◌, ◌<◌, ◌≡◌, ◌≢◌, ◌↔◌, some, bit_or, arith}
use maruswap.Drive.Header.{
  get_num_memblock, flow_header, open_opcode, rpc_imm, answer_slot, read_offset, max_memblock,
  page_size,
}
use maruswap.Server.Header.{Fields, interpret_header, ib_get_opcode, convey_offset}
use maruswap.Server.Memblock.{memblock_size}
use maruswap.Server.Alloc.{rpc_buffer_size, multicast_buffer_size, rpc_work, multicast_work}
use maruswap.Server.Alloc.Buffers.{works_in_bounds}
use maruswap.Protocol.RoundTrip.{answer_slot-open_opcode}
use maruswap.Protocol.Place.{convey-read, get_num_memblock-in_bounds}

convey-read_example :
    (f : Fields) × (interpret_header (flow_header 0x40003) ≡ some f)
    × (f.nr_buffer ≡ get_num_memblock 0x40003)
    × (convey_offset f.offset ≡ read_offset 0x40003)
    × (convey_offset f.offset + page_size ≤ memblock_size)
convey-read_example = convey-read 0x40003

answer_slot-open_opcode_example :
    (answer_slot (rpc_imm (open_opcode 0x40003) 1) ≡ bit_or (0x40003 % 2 ^ 8) 1)
    × (0x40003 % 2 ^ 8 ≡ 0 → answer_slot (rpc_imm (open_opcode 0x40003) 1) ≡ 1)
    × (1 < 0x40003 % 2 ^ 8 → answer_slot (rpc_imm (open_opcode 0x40003) 1) ≢ 1)
    × (ib_get_opcode (rpc_imm (open_opcode 0x40003) 1) ≡ 0x1)
    × (rpc_imm (open_opcode 0x40003) 1 / 2 ^ 18 % 2 ^ 10 ≡ get_num_memblock 0x40003)
answer_slot-open_opcode_example = answer_slot-open_opcode 0x40003 1 (omega arith) (omega arith)

get_num_memblock-in_bounds_example :
    (get_num_memblock 0x2000000 < max_memblock) ↔ (0x2000000 % 2 ^ 28 < 2 ^ 25)
get_num_memblock-in_bounds_example = get_num_memblock-in_bounds 0x2000000

works_in_bounds_example :
    ((rpc_work 4096 1100).buffer + (rpc_work 4096 1100).size ≤ 4096 + rpc_buffer_size ↔ 1100 < 1088)
    × ((multicast_work 4096 1100).buffer + (multicast_work 4096 1100).size
        ≤ 4096 + multicast_buffer_size)
works_in_bounds_example = works_in_bounds 4096 1100 (omega arith)
