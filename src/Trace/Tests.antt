-- ===== src/Trace/Tests.antt =====
-- A ring of eight bytes that has been written past its end, at address 4096.
use coresight_trace.Base.{◌≤◌, ◌<◌, ◌≡◌, refl, true, false, [], ◌∷◌, replicate, arith}
use coresight_trace.Trace.Buffer.{
  Etr, etr_pending, etr_direct_read, TraceBuf, unallocated, alloc_trace_buf, fetch_trace,
}
use coresight_trace.Trace.Ring.{ring_index, etr_pending-span}
use coresight_trace.Trace.Fetch.{alloc_trace_buf-fetch_trace}

abbrev ring : Etr
ring = record {
  etr_ram_addr = 4096;
  ram = 10 ∷ 11 ∷ 12 ∷ 13 ∷ 14 ∷ 15 ∷ 16 ∷ 17 ∷ [];
  rwp = 4098;
  rrp = 4102;
  wrapped = false;
}

abbrev partly_filled : TraceBuf
partly_filled = record {
  trace_buf = 1 ∷ 2 ∷ 3 ∷ replicate 13 0;
  trace_buf_ptr = 3;
  decoded_trace_buf = 3;
}

pending_of_ring : etr_pending ring ≡ (4, 6)
unfolding etr_pending
pending_of_ring = refl

read_of_ring : etr_direct_read ring 4 6 ≡ 16 ∷ 17 ∷ 10 ∷ 11 ∷ []
unfolding etr_direct_read
read_of_ring = refl

etr_pending-span_example :
    let (len, start) = etr_pending ring in (len ≤ 8) × (start < 8) × (ring_index ring start len ≡ 2)
etr_pending-span_example =
    etr_pending-span ring (omega arith) (omega arith) (omega arith) (omega arith)

alloc_trace_buf-fetch_trace_example :
    let (_, b) = alloc_trace_buf true 8 unallocated in
    ((fetch_trace true false ring b).0 ≡ true) × ((fetch_trace false false ring b).1 ≡ b)
alloc_trace_buf-fetch_trace_example =
    alloc_trace_buf-fetch_trace true ring (omega arith) (omega arith) (omega arith) (omega arith)
      (omega arith)
