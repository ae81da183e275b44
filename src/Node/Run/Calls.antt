-- ===== src/Node/Run/Calls.antt =====
-- What the calls of a run arm, and which of them set up the radio.
use esp_csi_rs_core.Common.{
  ℕ, ◌≡◌, refl, sym, subst, ap₂, Bool, true, false, ◌&&◌, not, List, [], ◌∷◌, ◌++◌, Option, none,
  some, if◌then◌else◌, if_cases, option_cases, All, All-append,
}
use esp_csi_rs_core.Radio.{RadioCall, apply_ht40_channel}
use esp_csi_rs_core.Config.{RadioCsiConfig}
use esp_csi_rs_core.Ap.{WifiApConfig}
use esp_csi_rs_core.Node.{
  sniffer, station, access_point, NodeRole, emitter, collector_role, central, peripheral, CsiNode,
}
use esp_csi_rs_core.Node.Run.{
  MainTask, Task, Action, join, set_csi, set_protocols, apply_bandwidth, apply_protocols_post,
  apply_sniffer_radio, set_config_station, set_config_access_point, radio, set_channel, Call, plain,
  checked, expects, begin_run, apply_protocol, start_station, start_access_point, set_up,
  drive_main, sta_init, ap_init, ht40, is_emitter, receive_dispatch, on_radio,
}

module _ {R : Type 0} where
  -- The acquisition that a call arms.
  abbrev pub csi_of : Call R → List RadioCsiConfig
  csi_of (checked (set_csi csi)) = csi ∷ []
  csi_of call = []

  -- The acquisitions that the calls arm, in order.
  abbrev pub armed : List (Call R) → List RadioCsiConfig
  armed [] = []
  armed (c ∷ cs) = csi_of c ++ armed cs

  -- Calls that set up the radio: its protocols, interface, band, channel or width.
  abbrev pub configures : Action R → Bool
  configures (radio call) = true
  configures (set_protocols protocols) = true
  configures apply_bandwidth = true
  configures apply_protocols_post = true
  configures apply_sniffer_radio = true
  configures (set_config_station config) = true
  configures (set_config_access_point config) = true
  configures (set_channel channel side) = true
  configures action = false

  abbrev pub Calm : Call R → Type 0
  Calm (plain a) = configures a ≡ false
  Calm (checked a) = configures a ≡ false
  Calm (expects b) = Unit {0}

  abbrev pub After : List RadioCsiConfig → List (Call R) → Type 0
  After [] cs = Unit {0}
  After (csi ∷ more) cs = All Calm cs

  -- No call sets up the radio once CSI is armed.
  abbrev pub Settled : List (Call R) → Type 0
  Settled [] = Unit {0}
  Settled (c ∷ cs) = After (csi_of c) cs × Settled cs

  abbrev pub Silent : Call R → Type 0
  Silent c = csi_of c ≡ []

  pub armed-append : (xs ys : List (Call R)) → All Silent xs → armed (xs ++ ys) ≡ armed ys
  armed-append [] ys h = refl
  armed-append (x ∷ xs) ys (e, h) = ap₂ (λ a b. a ++ b) e (armed-append xs ys h)

  pub Settled-append : (xs ys : List (Call R)) → All Silent xs → Settled ys → Settled (xs ++ ys)
  Settled-append [] ys h s = s
  Settled-append (x ∷ xs) ys (e, h) s =
      (subst (λ l. After l (xs ++ ys)) (sym e) tt, Settled-append xs ys h s)

  pub After-Calm : (l : List RadioCsiConfig) (cs : List (Call R)) → All Calm cs → After l cs
  After-Calm [] cs h = tt
  After-Calm (csi ∷ more) cs h = h

  pub Settled-Calm : (xs : List (Call R)) → All Calm xs → Settled xs
  Settled-Calm [] h = tt
  Settled-Calm (x ∷ xs) (e, h) = (After-Calm (csi_of x) xs h, Settled-Calm xs h)

module _ {R : Type 0} where
  -- The tasks that an action joins.
  abbrev pub joined : Action R → List (Task R)
  joined (join tasks) = tasks
  joined action = []

  -- A call that neither arms CSI nor unwraps an `Option` nor joins tasks.
  abbrev pub Plain : Call R → Type 0
  Plain (plain a) = joined a ≡ []
  Plain (checked a) = csi_of (checked a) ≡ []
  Plain (expects b) = ⊥

  Plain-Silent : (c : Call R) → Plain c → csi_of c ≡ []
  Plain-Silent (plain a) h = refl
  Plain-Silent (checked a) h = h
  Plain-Silent (expects b) h = refl

  pub All-Plain-Silent : (cs : List (Call R)) → All Plain cs → All Silent cs
  All-Plain-Silent [] h = tt
  All-Plain-Silent (c ∷ cs) (p, h) = (Plain-Silent c p, All-Plain-Silent cs h)

  -- A call that is made or left out.
  pub optional_All :
      (P : Call R → Type 0) (b : Bool) (x : Call R) → P x → All P (if b then x ∷ [] else [])
  optional_All P true x e = (e, tt)
  optional_All P false x e = tt

radio-Plain : (R : Type 0) (l : List RadioCall) → All (Plain {R = R}) (on_radio l)
unfolding on_radio
radio-Plain R [] = tt
radio-Plain R (x ∷ l) = (refl, radio-Plain R l)

ht40-Plain :
    (R : Type 0) (readable : Bool) (config : WifiApConfig)
    → All (Plain {R = R}) (ht40 readable config)
unfolding ht40
ht40-Plain R readable config =
    option_cases (All (Plain {R = R})) config.secondary_channel _ _
      (λ side. radio-Plain R (apply_ht40_channel readable config.channel side)) tt

module _ {R : Type 0} where
  pub begin-Plain : (c : CsiNode R) → All Plain (begin_run c)
  unfolding begin_run
  begin-Plain c = (refl, (refl, (refl, radio-Plain R (receive_dispatch c.role))))

  protocol-Plain : (c : CsiNode R) → All Plain (apply_protocol c)
  unfolding apply_protocol
  protocol-Plain c =
      option_cases (All Plain) c.protocol _ _
        (λ p. if_cases (All Plain) (is_emitter c.role) _ _ tt (refl, tt)) tt

  station-Plain : (bringup : Bool) (role : NodeRole R) → All Plain (start_station bringup role)
  unfolding start_station sta_init
  station-Plain bringup (emitter config) = tt
  station-Plain bringup (central mode) = tt
  station-Plain bringup (peripheral mode) = tt
  station-Plain bringup (collector_role (sniffer config)) = tt
  station-Plain bringup (collector_role (access_point config)) = tt
  station-Plain true (collector_role (station config)) = (refl, (refl, (refl, tt)))
  station-Plain false (collector_role (station config)) = (refl, tt)

  ap-Plain :
      (readable bringup : Bool) (role : NodeRole R)
      → All Plain (start_access_point readable bringup role)
  unfolding start_access_point ap_init
  ap-Plain readable bringup (emitter config) = tt
  ap-Plain readable bringup (central mode) = tt
  ap-Plain readable bringup (peripheral mode) = tt
  ap-Plain readable bringup (collector_role (sniffer config)) = tt
  ap-Plain readable bringup (collector_role (station config)) = tt
  ap-Plain readable true (collector_role (access_point config)) =
      All-append Plain _ _ (ht40-Plain R readable config) (refl, (refl, (refl, tt)))
  ap-Plain readable false (collector_role (access_point config)) =
      All-append Plain _ _ (ht40-Plain R readable config) (refl, tt)

  pub set_up-Plain :
      (c : CsiNode R) (readable bringup : Bool) → All Plain (set_up c readable bringup)
  unfolding set_up
  set_up-Plain c readable bringup =
      let width =
        optional_All Plain (bringup && not (is_emitter c.role)) (plain apply_bandwidth) refl in
      let interfaces =
        All-append Plain _ _ (station-Plain bringup c.role) (ap-Plain readable bringup c.role) in
      All-append Plain _ _ (protocol-Plain c) (All-append Plain _ _ width interfaces)

  pub drive-Silent :
      (main : MainTask R) (rx : Bool) (duration : Option ℕ) (client : Bool)
      → All Silent (drive_main main rx duration client)
  unfolding drive_main
  drive-Silent main true (some d) client = (refl, (refl, tt))
  drive-Silent main false (some d) client = (refl, tt)
  drive-Silent main true none client = (refl, tt)
  drive-Silent main false none client = (refl, tt)

  pub drive-Calm :
      (main : MainTask R) (rx : Bool) (duration : Option ℕ) (client : Bool)
      → All Calm (drive_main main rx duration client)
  unfolding drive_main
  drive-Calm main true (some d) client = (tt, (refl, tt))
  drive-Calm main false (some d) client = (refl, tt)
  drive-Calm main true none client = (refl, tt)
  drive-Calm main false none client = (refl, tt)
