-- ===== src/Protocol/RoundTrip.antt =====
-- Headers that the driver (drive/sib.c) builds, read by the server (lib/rpc.c, lib/handler.c).
use maruswap.Base.{
  ℕ, ◌+◌, ◌*◌, ◌/◌, ◌%◌, ◌^◌, ◌<◌, ◌≡◌, ◌≢◌, bit_and, bit_or, some, arith, bit_or-low, bit_or-field,
  bit_and-ones, bit_and-shifted, bit_or-lt, le-bit_or, zero-bit_or,
}
use maruswap.Drive.Header.{
  get_num_memblock, flow_header, open_opcode, commit_opcode, qcommit_opcode, rpc_imm, answer_slot,
}
use maruswap.Server.Header.{Fields, interpret_header, ib_get_opcode, commit_count, set_header}

-- The masks of the two programs, as remainders.
mask28 : (x : ℕ) → bit_and x 0xfffffff ≡ x % 2 ^ 28
mask28 x = bit_and-ones 28 x

pub mask18 : (x : ℕ) → bit_and x 0x3ffff ≡ x % 2 ^ 18
mask18 x = bit_and-ones 18 x

pub mask10 : (x : ℕ) → bit_and x 0x3ff ≡ x % 2 ^ 10
mask10 x = bit_and-ones 10 x

mask8 : (x : ℕ) → bit_and x 0xff ≡ x % 2 ^ 8
mask8 x = bit_and-ones 8 x

mask12 : (x : ℕ) → bit_and x 0xfff ≡ x % 2 ^ 12
mask12 x = bit_and-ones 12 x

mask20 : (x : ℕ) → bit_and x 0xfffff ≡ x % 2 ^ 20
mask20 x = bit_and-ones 20 x

mask_top : (x : ℕ) → bit_and x 0xf0000000 ≡ x / 2 ^ 28 % 16 * 2 ^ 28
mask_top x = omega (arith, bit_and-shifted 28 x 0xf, bit_and-ones 4 (x / 2 ^ 28))

mask_count : (x : ℕ) → bit_and x 0xfffff00 ≡ x / 2 ^ 8 % 2 ^ 20 * 2 ^ 8
mask_count x = omega (arith, bit_and-shifted 8 x 0xfffff, bit_and-ones 20 (x / 2 ^ 8))

-- The server refuses no 32-bit header, and its three fields are the header again.
interpret-total :
    (header : ℕ)
    → header < 2 ^ 32
    → (f : Fields) × (interpret_header header ≡ some f)
      × (f.opcode * 2 ^ 28 + f.nr_buffer * 2 ^ 18 + f.offset ≡ header)
      × (f.nr_buffer < 2 ^ 10)
      × (f.offset < 2 ^ 18)
unfolding interpret_header
interpret-total header h = (
  record {
    opcode = header / 2 ^ 28;
    nr_buffer = bit_and (bit_and header 0xfffffff / 2 ^ 18) 0xfff;
    offset = bit_and (bit_and header 0xfffffff) 0x3ffff;
  },
  ground arith,
  omega (arith, mask28, mask12, mask18),
  omega (arith, mask28, mask12, mask18),
  omega (arith, mask28, mask12, mask18),
)

-- What the server reads off a header that is an opcode and a page number.
interpret-fields :
    (op x : ℕ)
    → op < 16
    → x < 2 ^ 28
    → interpret_header (op * 2 ^ 28 + x)
      ≡ some (record { opcode = op; nr_buffer = x / 2 ^ 18; offset = x % 2 ^ 18 })
unfolding interpret_header
interpret-fields op x ho hx = ground (
  arith,
  mask28 (op * 2 ^ 28 + x),
  mask12 (bit_and (op * 2 ^ 28 + x) 0xfffffff / 2 ^ 18),
  mask18 (bit_and (op * 2 ^ 28 + x) 0xfffffff),
)

get_num_memblock-eq : (offset : ℕ) → get_num_memblock offset ≡ offset / 2 ^ 18 % 2 ^ 10
unfolding get_num_memblock
get_num_memblock-eq offset = mask10 (offset / 2 ^ 18)

flow_header-eq : (offset : ℕ) → flow_header offset ≡ 1 * 2 ^ 28 + offset % 2 ^ 28
unfolding flow_header
flow_header-eq offset =
    omega
      (arith, mask28 offset, bit_or-field 28 1 (bit_and offset 0xfffffff) (omega (arith, mask28)))

-- A page that the driver multicasts reaches the server as FLOW, and the server takes the block
-- number and the page in the block that the driver itself uses, whatever the page number.
pub interpret-flow_header :
    (offset : ℕ)
    → (interpret_header (flow_header offset)
        ≡ some (record {
          opcode = 0x1;
          nr_buffer = get_num_memblock offset;
          offset = bit_and offset 0x3ffff;
        }))
      × (ib_get_opcode (flow_header offset) ≡ 0x1)
unfolding ib_get_opcode
interpret-flow_header offset = (
  ground (
    arith,
    flow_header-eq offset,
    interpret-fields 1 (offset % 2 ^ 28) (omega arith) (omega arith),
    get_num_memblock-eq offset,
    mask18 offset,
  ),
  omega (arith, flow_header-eq offset, mask_top (flow_header offset)),
)

-- A page number that the server itself puts in a header is read back by it.
interpret-set_header :
    (opcode offset : ℕ)
    → opcode < 16
    → (interpret_header (set_header opcode offset)
        ≡ some (record {
          opcode = opcode;
          nr_buffer = offset / 2 ^ 30 % 2 ^ 10;
          offset = offset / 2 ^ 12 % 2 ^ 18;
        }))
      × (ib_get_opcode (set_header opcode offset) ≡ opcode)
unfolding ib_get_opcode set_header
interpret-set_header opcode offset h =
    let page = bit_and (offset / 2 ^ 12) 0xfffffff in
    let small : page < 2 ^ 28 = omega (arith, mask28) in
    (
      ground (
        arith,
        bit_or-field 28 opcode page small,
        mask28 (offset / 2 ^ 12),
        interpret-fields opcode page h small,
      ),
      omega (arith, bit_or-field 28 opcode page small, mask_top (bit_or (opcode * 2 ^ 28) page)),
    )

qcommit_opcode-eq : (count : ℕ) → qcommit_opcode count ≡ 7 * 2 ^ 28 + count % 2 ^ 20 * 2 ^ 8
unfolding qcommit_opcode
qcommit_opcode-eq count = omega (
  arith,
  mask_count (count * 2 ^ 8),
  bit_or-field 28 7 (bit_and (count * 2 ^ 8) 0xfffff00) (omega (arith, mask_count)),
)

-- What a request with an empty low byte carries: the opcode, the count and the binder.
rpc_imm-fields :
    (op n binder : ℕ)
    → op < 16
    → n < 2 ^ 20
    → binder < 2 ^ 8
    → let imm = rpc_imm (op * 2 ^ 28 + n * 2 ^ 8) binder in
      (ib_get_opcode imm ≡ op) × (commit_count imm ≡ n) × (answer_slot imm ≡ binder)
unfolding rpc_imm ib_get_opcode commit_count answer_slot
rpc_imm-fields op n binder ho hn hb =
    let imm = bit_or (op * 2 ^ 28 + n * 2 ^ 8) binder in
    let e : imm ≡ op * 2 ^ 28 + n * 2 ^ 8 + binder =
      ground (arith, bit_or-field 8 (op * 2 ^ 20 + n) binder hb) in
    (omega (arith, mask_top imm), omega (arith, mask20 (imm / 2 ^ 8)), omega (arith, mask8 imm))

-- A commit of `count` pages: the server reads the opcode and the count modulo 2 ^ 20, and an
-- answer that echoes the header is filed under the binder that sent the request.
commit_count-qcommit_opcode :
    (count binder : ℕ)
    → binder < 2 ^ 8
    → let imm = rpc_imm (qcommit_opcode count) binder in
      (ib_get_opcode imm ≡ 0x7) × (commit_count imm ≡ count % 2 ^ 20) × (answer_slot imm ≡ binder)
commit_count-qcommit_opcode count binder h =
    rw (qcommit_opcode-eq count)
      (rpc_imm-fields 7 (count % 2 ^ 20) binder (omega arith) (omega arith) h)

answer_slot-commit_opcode :
    (binder : ℕ)
    → binder < 2 ^ 8
    → let imm = rpc_imm commit_opcode binder in
      (ib_get_opcode imm ≡ 0x3) × (commit_count imm ≡ 0) × (answer_slot imm ≡ binder)
unfolding commit_opcode
answer_slot-commit_opcode binder h = rpc_imm-fields 3 0 binder (omega arith) (omega arith) h

-- The answer to an open request, which echoes the request's header, is filed under the binder `|`
-- the low byte of the page number: under the binder itself if that byte is 0, and under another
-- slot whenever the byte exceeds the binder. The block and the opcode survive in either case.
pub answer_slot-open_opcode :
    (offset binder : ℕ)
    → offset < 2 ^ 28
    → binder < 2 ^ 8
    → let imm = rpc_imm (open_opcode offset) binder in
      (answer_slot imm ≡ bit_or (offset % 2 ^ 8) binder)
      × (offset % 2 ^ 8 ≡ 0 → answer_slot imm ≡ binder)
      × (binder < offset % 2 ^ 8 → answer_slot imm ≢ binder)
      × (ib_get_opcode imm ≡ 0x1)
      × (imm / 2 ^ 18 % 2 ^ 10 ≡ get_num_memblock offset)
unfolding rpc_imm open_opcode ib_get_opcode answer_slot
answer_slot-open_opcode offset binder h hb =
    let whole = bit_or (1 * 2 ^ 28) offset in
    let low = bit_or (offset % 2 ^ 8) binder in
    let e : whole ≡ 2 ^ 28 + offset = omega (arith, bit_or-field 28 1 offset h) in
    let small : low < 2 ^ 8 = bit_or-lt 8 (offset % 2 ^ 8) binder (omega arith) hb in
    let imm = bit_or whole binder in
    let split : imm ≡ (2 ^ 20 + offset / 2 ^ 8) * 2 ^ 8 + low =
      ground
        (arith, bit_or-low 8 (2 ^ 20 + offset / 2 ^ 8) (offset % 2 ^ 8) binder (omega arith) hb) in
    let slot : bit_and imm 0xff ≡ low = omega (arith, mask8 imm) in
    (
      slot,
      λ z. ground (arith, zero-bit_or binder),
      λ lt. omega (arith, le-bit_or (offset % 2 ^ 8) binder),
      omega (arith, mask_top imm),
      omega (arith, get_num_memblock-eq offset),
    )
