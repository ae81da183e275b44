-- ===== src/Csi/Format.antt =====
-- `csi_fmt_from_params` against the table of formats in the documentation of `RxCSIFmt`, and the
-- packets that `from_wifi_csi_info` builds.
use esp_csi_rs_core.Common.{
  ℕ, ◌≡◌, ◌≢◌, ◌↔◌, sym, ap, ◌∙◌, ◌⊎◌, inl, inr, Option, none, some, arith,
}
use esp_csi_rs_core.Csi.{
  RxCsiFmt, bw20, ht_bw20, ht_bw20_stbc, secb_bw20, secb_ht_bw20, secb_ht_bw20_stbc, secb_ht_bw40,
  secb_ht_bw40_stbc, seca_bw20, seca_ht_bw20, seca_ht_bw20_stbc, seca_ht_bw40, seca_ht_bw40_stbc,
  vht_bw20, undefined, fmt_from_params,
}

-- The columns of the table: secondary channel (0 none, 1 above, 2 below), signal mode (0 non-HT,
-- 1 HT), bandwidth (0 for 20 MHz, 1 for 40 MHz), STBC.
abbrev pub columns : RxCsiFmt → Option (ℕ × ℕ × ℕ × ℕ)
columns bw20 = some (0, 0, 0, 0)
columns ht_bw20 = some (0, 1, 0, 0)
columns ht_bw20_stbc = some (0, 1, 0, 1)
columns secb_bw20 = some (2, 0, 0, 0)
columns secb_ht_bw20 = some (2, 1, 0, 0)
columns secb_ht_bw20_stbc = some (2, 1, 0, 1)
columns secb_ht_bw40 = some (2, 1, 1, 0)
columns secb_ht_bw40_stbc = some (2, 1, 1, 1)
columns seca_bw20 = some (1, 0, 0, 0)
columns seca_ht_bw20 = some (1, 1, 0, 0)
columns seca_ht_bw20_stbc = some (1, 1, 0, 1)
columns seca_ht_bw40 = some (1, 1, 1, 0)
columns seca_ht_bw40_stbc = some (1, 1, 1, 1)
columns vht_bw20 = none
columns undefined = none

fmt_complete :
    (s m b t : ℕ) (f : RxCsiFmt) → columns f ≡ some (s, m, b, t) → fmt_from_params s m b t ≡ f
unfolding fmt_from_params
fmt_complete s m b t bw20 h = ground arith
fmt_complete s m b t f h = ground arith

-- A frame is plausible where the parameters that the code does not look at are as the table says:
-- 20 MHz with no secondary channel, and neither 40 MHz nor STBC outside HT.
pub record IsPlausible (s m b t : ℕ) : Type 0 where
  pub alone_is_20 : s ≡ 0 → b ≡ 0
  pub legacy_is_20 : m ≡ 0 → b ≡ 0
  pub legacy_is_plain : m ≡ 0 → t ≡ 0

fmt_sound :
    (s m b t : ℕ)
    → IsPlausible s m b t
    → (fmt_from_params s m b t ≡ undefined)
      ⊎ (columns (fmt_from_params s m b t) ≡ some (s, m, b, t))
unfolding fmt_from_params
fmt_sound s m b t p = ground arith

-- A plausible frame is given a format other than `undefined` exactly when its parameters are the
-- row of that format in the table.
pub fmt_from_params_iff :
    (s m b t : ℕ) (f : RxCsiFmt)
    → IsPlausible s m b t
    → f ≢ undefined
    → (fmt_from_params s m b t ≡ f) ↔ (columns f ≡ some (s, m, b, t))
fmt_from_params_iff s m b t f p ne = (forth, fmt_complete s m b t f)
  where
    forth : fmt_from_params s m b t ≡ f → columns f ≡ some (s, m, b, t)
    forth e = elim (fmt_sound s m b t p) [
      | inl u ↦ absurd (ne (sym e ∙ u))
      | inr c ↦ sym (ap columns e) ∙ c
    ]
