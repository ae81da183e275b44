-- ===== src/Station/Tests.antt =====
-- The station's connection at small inputs.
use esp_csi_rs_core.Common.{◌≡◌, refl, true, false, [], ◌∷◌}
use esp_csi_rs_core.Station.{
  connected, error, timeout, connect, set_csi, disconnect, pause, serve, associated, connect_loop,
  recover, run_sta_connect,
}
use esp_csi_rs_core.Station.Connect.{arms, connect_loop-arms}

joined : run_sta_connect true true false (error false ∷ connected ∷ []) ≡ (
  pause ∷ connect ∷ disconnect ∷ set_csi ∷ pause ∷ pause ∷ connect ∷ set_csi ∷ serve true ∷ [],
  associated,
)
unfolding run_sta_connect recover
joined = refl

connect_loop-arms_example :
    let (calls, ended) = connect_loop false 0 (error false ∷ timeout false ∷ connected ∷ []) in
    arms calls ≡ 2
connect_loop-arms_example = connect_loop-arms false 0 (error false ∷ timeout false ∷ connected ∷ [])
