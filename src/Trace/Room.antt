-- ===== src/Trace/Room.antt =====
-- Growing the trace buffer, and copying bytes to a place in it.
use coresight_trace.Base.{
  ℕ, zero, suc, ◌+◌, ◌-◌, ◌*◌, ◌%◌, ◌≤◌, ◌<◌, ◌≡◌, refl, ◌∙◌, List, ◌++◌, length, length-take,
  length-drop, length-append, length-replicate, get_or, get_or-append_left, take, drop, replicate,
  ltb, Bool-cases, inl, inr, arith,
}
use coresight_trace.Trace.Buffer.{TraceBuf, trace_buf_size, doubled, grow, write_at}
use coresight_trace.Trace.Ring.{same_index, get_or-take, get_or-append_right}

-- The pointers are in the buffer, whose size is a positive multiple of 8.
pub record IsValid (b : TraceBuf) : Type 0 where
  pub ptr_in : b.trace_buf_ptr ≤ trace_buf_size b
  pub decoded_in : b.decoded_trace_buf ≤ b.trace_buf_ptr
  pub aligned : trace_buf_size b % 8 ≡ 0
  pub positive : 0 < trace_buf_size b

-- A size that leaves some room is doubled until `len` bytes fit; `len` rounds are enough.
doubled-room :
    (fuel size used len : ℕ)
    → used < size
    → len ≤ fuel + (size - used)
    → (len ≤ doubled fuel size used len - used)
      × (size ≤ doubled fuel size used len)
      × (size % 8 ≡ 0 → doubled fuel size used len % 8 ≡ 0)
unfolding doubled
doubled-room zero size used len h k = (omega arith, omega arith, λ e. e)
doubled-room (suc fuel) size used len h k =
    let (fits, grown, eights) = doubled-room fuel (size * 2) used len (omega arith) (omega arith) in
    elim (Bool-cases (ltb (size - used) len)) [
      | inl short ↦ rw short (fits, omega arith, λ e. eights (omega arith))
      | inr fits ↦ rw fits (ground arith, omega arith, λ e. e)
    ]

pub length-write_at :
    (buf bytes : List ℕ) (offset : ℕ)
    → offset + length bytes ≤ length buf
    → length (write_at buf offset bytes) ≡ length buf
length-write_at buf bytes offset h = omega (
  arith,
  length-append (take offset buf) (bytes ++ drop (offset + length bytes) buf),
  length-append bytes (drop (offset + length bytes) buf),
  length-take offset buf,
  length-drop (offset + length bytes) buf,
)

-- Before the offset nothing changes, and from it on stand the bytes.
pub write_at-before :
    (buf bytes : List ℕ) (offset i : ℕ)
    → offset ≤ length buf
    → i < offset
    → get_or (write_at buf offset bytes) i 0 ≡ get_or buf i 0
write_at-before buf bytes offset i h lt =
    get_or-append_left (take offset buf) (bytes ++ drop (offset + length bytes) buf) i 0
      (omega (arith, length-take offset buf))
    ∙ get_or-take offset i buf lt

pub write_at-bytes :
    (buf bytes : List ℕ) (offset i : ℕ)
    → offset ≤ length buf
    → i < length bytes
    → get_or (write_at buf offset bytes) (offset + i) 0 ≡ get_or bytes i 0
write_at-bytes buf bytes offset i h lt =
    let low = take offset buf in
    let rest = drop (offset + length bytes) buf in
    same_index (low ++ (bytes ++ rest)) (offset + i) (length low + i)
      (omega (arith, length-take offset buf))
    ∙ get_or-append_right low (bytes ++ rest) i
    ∙ get_or-append_left bytes rest i 0 lt

-- The growth keeps what is there, makes room, and keeps the buffer in shape.
pub record Grown (len : ℕ) (b g : TraceBuf) : Type 0 where
  pub valid : IsValid g
  pub ptr : g.trace_buf_ptr ≡ b.trace_buf_ptr
  pub decoded : g.decoded_trace_buf ≡ b.decoded_trace_buf
  pub room : b.trace_buf_ptr + len ≤ trace_buf_size g
  pub kept : (i : ℕ) → i < trace_buf_size b → get_or g.trace_buf i 0 ≡ get_or b.trace_buf i 0

pub grow-Grown : (len : ℕ) (b : TraceBuf) → IsValid b → Grown len b (grow len b)
unfolding grow
grow-Grown len b v =
    let size = trace_buf_size b in
    let used = b.trace_buf_ptr in
    let target = doubled len (size * 2) used len in
    let ptr_in = v.ptr_in in
    let positive = v.positive in
    let decoded = v.decoded_in in
    let eight = v.aligned in
    let (fits, larger, eights) = doubled-room len (size * 2) used len (omega arith) (omega arith) in
    let total : length (b.trace_buf ++ replicate (target - size) 0) ≡ target = omega (
      arith,
      length-append b.trace_buf (replicate (target - size) 0),
      length-replicate {A = ℕ} (target - size) 0,
    ) in
    elim (Bool-cases (ltb (size - used) len)) [
      | inl short ↦ rw short (record {
        valid = record {
          ptr_in = omega arith;
          decoded_in = decoded;
          aligned = rw total (eights (omega arith));
          positive = omega arith;
        };
        ptr = refl;
        decoded = refl;
        room = omega arith;
        kept = λ i lt. get_or-append_left b.trace_buf (replicate (target - size) 0) i 0 lt;
      })
      | inr enough ↦ rw enough (record {
        valid = v;
        ptr = refl;
        decoded = refl;
        room = ground arith;
        kept = λ i lt. refl;
      })
    ]
