-- ===== src/EspNowPool/Tests.antt =====
-- A burst of three frames into a queue of two.
use esp_csi_rs_core.Common.{◌≡◌, refl, false, List, [], ◌∷◌, ◌++◌, none, some, arith, take}
use esp_csi_rs_core.Common.Mac.{mac}
use esp_csi_rs_core.Containers.{BoundedQueue}
use esp_csi_rs_core.Containers.Samples.{list_queue}
use esp_csi_rs_core.EspNowPool.{PoolFrame, Received, Pool}
use esp_csi_rs_core.EspNowPool.Receive.{arrivals, receive_all, receive_all_lem}

abbrev two_slots : BoundedQueue PoolFrame (List PoolFrame)
two_slots = list_queue 2

abbrev pool : Pool (List PoolFrame)
pool = record { raw_drop = false; raw_recv_callback = none; queue = [] }

abbrev burst : List Received
burst =
    record { info = some (some (mac 1 2 3 4 5 6)); payload = some (1 ∷ []) }
    ∷ record { info = none; payload = some (2 ∷ []) }
    ∷ record { info = some none; payload = some (3 ∷ []) }
    ∷ record { info = some none; payload = some (4 ∷ []) }
    ∷ []

receive_all_lem_example :
    (let q = receive_all two_slots burst pool in q.queue ≡ take 2 ([] ++ arrivals two_slots burst))
receive_all_lem_example = receive_all_lem two_slots burst pool refl (omega arith)
