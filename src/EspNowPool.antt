-- ===== src/EspNowPool.antt =====
-- lib/esp_now_pool.rs: the receive callback of ESP-NOW and the queue of frames behind it. A pointer
-- is an `Option` of what it points to, and the payload's length is that of the bytes.
pub mod Receive
mod Tests
use esp_csi_rs_core.Common.{
  ℕ, ◌+◌, ◌-◌, min, Bool, true, false, List, [], ◌∷◌, ◌++◌, Option, none, some, ◌==◌, if◌then◌else◌,
  length, take, replicate,
}
use esp_csi_rs_core.Common.Mac.{Mac, mac}
use esp_csi_rs_core.Containers.{BoundedQueue}

abbrev pub esp_now_max_data_len : ℕ
esp_now_max_data_len = 250

-- `PoolFrame`, with the field of its `PoolInfo`.
pub record PoolFrame : Type 0 where
  pub src_address : Mac
  pub data_buf : List ℕ
  pub data_len : ℕ

-- `PoolFrame::data`
unfoldable pub data_of : PoolFrame → List ℕ
data_of f = take f.data_len f.data_buf

-- What the driver hands to the callback: `data` with `data_len`, which is not positive for the
-- empty list.
pub record Received : Type 0 where
  pub info : Option (Option Mac)
  pub payload : Option (List ℕ)

-- The statics; a function pointer is the number of the function.
pub record Pool (Q : Type 0) : Type 0 where
  pub raw_drop : Bool
  pub raw_recv_callback : Option ℕ
  pub queue : Q

unfoldable pub set_raw_drop : {Q : Type 0} → Bool → Pool Q → Pool Q
set_raw_drop enabled p = record p { raw_drop = enabled }

unfoldable pub set_raw_recv_callback : {Q : Type 0} → ℕ → Pool Q → Pool Q
set_raw_recv_callback cb p = record p { raw_recv_callback = some cb }

pub data Event : Type 0 where
  raw_recv : ℕ → List ℕ → Event
  wake : Event

-- The frame that the callback builds: the buffer is zero behind the bytes that it copies.
unfoldable pub build_frame : Option Mac → List ℕ → PoolFrame
build_frame src bytes =
    let len = min (length bytes) esp_now_max_data_len in
    record {
      src_address = elim src [ some m ↦ m | none ↦ mac 0 0 0 0 0 0 ];
      data_buf = take len bytes ++ replicate (esp_now_max_data_len - len) 0;
      data_len = len;
    }

-- The raw path hands the bytes over, cut to the most that a frame carries.
unfoldable pub raw_events : Option ℕ → Option (List ℕ) → List Event
raw_events (some cb) (some (b ∷ bs)) = raw_recv cb (take esp_now_max_data_len (b ∷ bs)) ∷ []
raw_events cb payload = []

module _ {Q : Type 0} (frames : BoundedQueue PoolFrame Q) where
  open frames use {enqueue, dequeue}

  unfoldable pub accept_frame : PoolFrame → Pool Q → Pool Q × List Event
  accept_frame f p = elim (enqueue f p.queue) [
    | some q ↦ (record p { queue = q }, wake ∷ [])
    | none ↦ (p, wake ∷ [])
  ]

  -- The frame that the guards let through.
  unfoldable pub guarded : Received → Option PoolFrame
  unfolding build_frame
  guarded r = elim r.info [
    | none ↦ none
    | some src ↦ elim r.payload [
      | none ↦ none
      | some bytes ↦ if length bytes == 0 then none else some (build_frame src bytes)
    ]
  ]

  unfoldable pub pool_rcv_cb : Received → Pool Q → Pool Q × List Event
  unfolding accept_frame guarded raw_events
  pool_rcv_cb r p =
      if p.raw_drop
      then (p, raw_events p.raw_recv_callback r.payload)
      else elim (guarded r) [ some f ↦ accept_frame f p | none ↦ (p, []) ]

  unfoldable pub receive : Pool Q → Option (PoolFrame × Pool Q)
  receive p = elim (dequeue p.queue) [
    | some (f, q) ↦ some (f, record p { queue = q })
    | none ↦ none
  ]
