-- ===== src/Trace/Fetch.antt =====
-- What `fetch_trace` leaves in the trace buffer.
use coresight_trace.Base.{
  ℕ, ◌+◌, ◌-◌, ◌^◌, ◌≤◌, ◌<◌, ◌≡◌, refl, Bool, true, false, length-replicate, ltb, if◌then◌else◌,
  arith,
}
use coresight_trace.Trace.Buffer.{
  Etr, etr_ram_size, etr_pending, TraceBuf, trace_buf_size, align_up, size_of_int, fetch_len,
  fetch_trace, default_trace_size, unallocated, alloc_trace_buf,
}
use coresight_trace.Trace.Ring.{etr_pending-span}

size_of_int-small : (n : ℕ) → n < 2 ^ 31 → size_of_int n ≡ n
size_of_int-small n h = ground arith

fetch_first :
    (e : Etr) (b : TraceBuf) (len start : ℕ)
    → len ≤ trace_buf_size b - align_up b.trace_buf_ptr
    → (fetch_len false e len start b).0 ≡ true
fetch_first e b len start fits =
    let enough : ltb (trace_buf_size b - align_up b.trace_buf_ptr) len ≡ false = ground arith in
    rw enough refl

-- A buffer that has just been allocated has room for a whole ring below 2 GiB: if the registers are
-- inside the ring, the first fetch returns 0 even where `mremap` cannot grow the buffer, unless
-- `etr_map_open` fails, where it returns -1 and leaves the buffer as it is.
pub alloc_trace_buf-fetch_trace :
    (map_ok : Bool) (e : Etr)
    → etr_ram_size e < 2 ^ 31
    → e.etr_ram_addr ≤ e.rwp
    → e.rwp < e.etr_ram_addr + etr_ram_size e
    → e.etr_ram_addr ≤ e.rrp
    → e.rrp < e.etr_ram_addr + etr_ram_size e
    → let (_, b) = alloc_trace_buf true (etr_ram_size e) unallocated in
      ((fetch_trace map_ok false e b).0 ≡ map_ok) × ((fetch_trace false false e b).1 ≡ b)
unfolding alloc_trace_buf fetch_trace
alloc_trace_buf-fetch_trace false e small p q r t = (refl, refl)
alloc_trace_buf-fetch_trace true e small p q r t =
    let size =
      if ltb default_trace_size (etr_ram_size e) then etr_ram_size e else default_trace_size in
    let (len, start) = etr_pending e in
    let (len_in, _, _) = etr_pending-span e p q r t in
    let big : etr_ram_size e ≤ size = ground arith in
    let same = length-replicate {A = ℕ} size 0 in
    let whole : size_of_int len ≡ len = size_of_int-small len (omega arith) in
    (
      fetch_first e (alloc_trace_buf true (etr_ram_size e) unallocated).1 (size_of_int len) start
          (omega arith),
      refl,
    )
