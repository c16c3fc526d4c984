-- ===== src/Trace/Buffer.antt =====
-- `etr_pending`, `etr_direct_read` and `fetch_trace` of src/common.c, in the direct mode that the
-- Stalker decoder uses. Pointers into `trace_buf` are offsets: `mmap` aligns it to a page, so aligning
-- an address to 8 aligns its offset. The wrap of the size that is doubled is left out: it takes a
-- length that is no `int`.
use coresight_trace.Base.{
  ℕ, zero, suc, ◌+◌, ◌-◌, ◌*◌, ◌/◌, ◌%◌, ◌^◌, min, Bool, true, false, ◌||◌, ◌&&◌, not, List, [],
  ◌++◌, length, take, drop, replicate, ltb, leb, if◌then◌else◌,
}

-- The ring that the hardware writes to memory: its address, its bytes, and the registers.
pub record Etr : Type 0 where
  pub etr_ram_addr : ℕ
  pub ram : List ℕ
  pub rwp : ℕ
  pub rrp : ℕ
  pub wrapped : Bool

abbrev pub etr_ram_size : Etr → ℕ
etr_ram_size e = length e.ram

abbrev pub outside : Etr → ℕ → Bool
outside e p = ltb p e.etr_ram_addr || leb (e.etr_ram_addr + etr_ram_size e) p

-- The bytes that are held, and their offset in the ring; none if a register points outside.
unfoldable pub etr_pending : Etr → ℕ × ℕ
etr_pending e =
    if outside e e.rwp
    then (0, 0)
    else if e.wrapped
    then (etr_ram_size e, e.rwp - e.etr_ram_addr)
    else if outside e e.rrp
    then (0, 0)
    else (
      (if leb e.rrp e.rwp then e.rwp - e.rrp else etr_ram_size e - (e.rrp - e.rwp)),
      e.rrp - e.etr_ram_addr,
    )

-- The bytes that are copied: up to the end of the ring, and the rest from its start.
unfoldable pub etr_direct_read : Etr → ℕ → ℕ → List ℕ
etr_direct_read e len start =
    let first = min len (etr_ram_size e - start) in
    take first (drop start e.ram) ++ take (len - first) e.ram

pub record TraceBuf : Type 0 where
  pub trace_buf : List ℕ
  pub trace_buf_ptr : ℕ
  pub decoded_trace_buf : ℕ

abbrev pub trace_buf_size : TraceBuf → ℕ
trace_buf_size b = length b.trace_buf

abbrev pub align_up : ℕ → ℕ
align_up n = (n + 7) / 8 * 8

-- `while (new_trace_buf_size - buf_used < len) new_trace_buf_size *= 2`, on fuel.
unfoldable pub doubled : ℕ → ℕ → ℕ → ℕ → ℕ
doubled zero size used len = size
doubled (suc fuel) size used len =
    let more = doubled fuel (size * 2) used len in if ltb (size - used) len then more else size

-- The buffer after the growth, if there is no room for `len` bytes; new pages read as 0.
unfoldable pub grow : ℕ → TraceBuf → TraceBuf
unfolding doubled
grow len b =
    let size = trace_buf_size b in
    let used = b.trace_buf_ptr in
    if ltb (size - used) len
    then record b {
      trace_buf = b.trace_buf ++ replicate (doubled len (size * 2) used len - size) 0;
    }
    else b

-- `memcpy` to an offset.
abbrev pub write_at : List ℕ → ℕ → List ℕ → List ℕ
write_at buf offset bytes = take offset buf ++ (bytes ++ drop (offset + length bytes) buf)

-- What is copied if it fits, and the pointer behind it.
unfoldable pub append_pending : Etr → ℕ → ℕ → TraceBuf → TraceBuf
append_pending e len start b =
    if leb len (trace_buf_size b - b.trace_buf_ptr)
    then record b {
      trace_buf = write_at b.trace_buf b.trace_buf_ptr (etr_direct_read e len start);
      trace_buf_ptr = b.trace_buf_ptr + len;
    }
    else b

-- `(size_t)(int)n`: from 2 ^ 31 on the int is negative, and as a size of 64 bits out of reach.
abbrev pub size_of_int : ℕ → ℕ
size_of_int n = let low = n % 2 ^ 32 in if ltb low (2 ^ 31) then low else low + (2 ^ 64 - 2 ^ 32)

-- The part after the length is known; `mremap_ok` is whether `mremap` can grow the buffer.
abbrev pub fetch_len : Bool → Etr → ℕ → ℕ → TraceBuf → Bool × TraceBuf
fetch_len mremap_ok e len start b =
    let aligned = record b { trace_buf_ptr = align_up b.trace_buf_ptr } in
    if ltb (trace_buf_size aligned - aligned.trace_buf_ptr) len && not mremap_ok
    then (false, aligned)
    else (true, append_pending e len start (grow len aligned))

-- The return value is 0 if `ok`; `map_ok` is whether the ring is mapped, or `etr_map_open` maps it.
unfoldable pub fetch_trace : (map_ok mremap_ok : Bool) → Etr → TraceBuf → Bool × TraceBuf
fetch_trace map_ok mremap_ok e b =
    if not map_ok
    then (false, b)
    else fetch_len mremap_ok e (size_of_int (etr_pending e).0) (etr_pending e).1 b

abbrev pub default_trace_size : ℕ
default_trace_size = 0x800000

-- Before the first allocation; a null `trace_buf` has no bytes.
abbrev pub unallocated : TraceBuf
unallocated = record { trace_buf = []; trace_buf_ptr = 0; decoded_trace_buf = 0 }

-- Pages that are there are used again; `mmap_ok` is whether new ones can be had.
unfoldable pub alloc_trace_buf : Bool → ℕ → TraceBuf → Bool × TraceBuf
alloc_trace_buf mmap_ok ram_size b =
    if ltb 0 (trace_buf_size b)
    then (true, record b { trace_buf_ptr = 0; decoded_trace_buf = 0 })
    else if not mmap_ok
    then (false, record b { trace_buf = [] })
    else (
      true,
      record {
        trace_buf =
            replicate (if ltb default_trace_size ram_size then ram_size else default_trace_size) 0;
        trace_buf_ptr = 0;
        decoded_trace_buf = 0;
      },
    )

-- The bytes that `decode_trace` hands to the decoder.
abbrev pub undecoded : TraceBuf → List ℕ
undecoded b = take (b.trace_buf_ptr - b.decoded_trace_buf) (drop b.decoded_trace_buf b.trace_buf)

-- `run_decoder` is the decoder's: whether it takes the bytes.
unfoldable pub decode_trace : (List ℕ → Bool) → TraceBuf → Bool × TraceBuf
decode_trace run_decoder b =
    if run_decoder (undecoded b)
    then (true, record b { decoded_trace_buf = b.trace_buf_ptr })
    else (false, b)
