-- ===== src/Csi/Tests.antt =====
-- The packet builder at one frame, and the classification at one row of the table.
use esp_csi_rs_core.Common.{◌≡◌, ◌≢◌, ◌↔◌, some, arith}
use esp_csi_rs_core.Csi.{RxCsiFmt, fmt_from_params}
use esp_csi_rs_core.Csi.Format.{IsPlausible, columns, fmt_from_params_iff}

ht40-IsPlausible : IsPlausible 2 1 1 1
ht40-IsPlausible = record {
  alone_is_20 = λ h. omega arith;
  legacy_is_20 = λ h. omega arith;
  legacy_is_plain = λ h. omega arith;
}

not_undefined : RxCsiFmt.secb_ht_bw40_stbc ≢ RxCsiFmt.undefined
not_undefined h = cc

fmt_from_params_iff_example :
    (fmt_from_params 2 1 1 1 ≡ RxCsiFmt.secb_ht_bw40_stbc)
    ↔ (columns RxCsiFmt.secb_ht_bw40_stbc ≡ some (2, 1, 1, 1))
fmt_from_params_iff_example =
    fmt_from_params_iff 2 1 1 1 RxCsiFmt.secb_ht_bw40_stbc ht40-IsPlausible not_undefined
