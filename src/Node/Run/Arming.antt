-- ===== src/Node/Run/Arming.antt =====
-- Which runs arm the CSI callback, how often, and when.
use esp_csi_rs_core.Common.{
  ℕ, ◌≡◌, refl, sym, subst, ap, ◌∙◌, Bool, true, false, ◌&&◌, not, List, [], ◌∷◌, ◌++◌, append-nil,
  append_assoc, Option, none, some, arith, if◌then◌else◌, All, All-append,
}
use esp_csi_rs_core.Radio.{no_secondary}
use esp_csi_rs_core.Config.{RadioCsiConfig}
use esp_csi_rs_core.Node.{
  WifiSnifferConfig, sniffer, station, access_point, CentralOpMode, PeripheralOpMode, NodeRole,
  emitter, collector_role, central, peripheral, CsiNode,
}
use esp_csi_rs_core.Node.Run.{
  MainTask, set_csi, apply_sniffer_radio, set_channel, Call, plain, checked, Surroundings,
  begin_run, set_up, acquisition, rx_of, run_role, run_inner, drive_main, drive_sniffer,
  run_sniffer, is_emitter, is_sniffer, is_ap, stop_signal_reset, reset_globals,
  store_csi_output_enabled, set_seq_drop_detection, run_emitter, run_ap, run_sta_connect,
  run_esp_now_central, run_esp_now_fast_collector, run_esp_now_peripheral, run_esp_now_fast_source,
  log_unsupported, set_promiscuous_mode,
}
use esp_csi_rs_core.Node.Run.Calls.{
  csi_of, armed, Calm, After, Settled, Silent, armed-append, Settled-append, Settled-Calm,
  All-Plain-Silent, begin-Plain, set_up-Plain, drive-Silent, drive-Calm, optional_All,
}
use esp_csi_rs_core.Node.Run.Handed.{Handed, run_inner-Handed}

abbrev pub asked : Bool → RadioCsiConfig → List RadioCsiConfig
asked b csi = if b then csi ∷ [] else []

module _ {R : Type 0} where
  -- The arm of a role other than the sniffer arms nothing and leaves the radio as it is.
  record Inert (cs : List (Call R)) : Type 0 where
    silent : All Silent cs
    calm : All Calm cs

  Inert-append : (xs ys : List (Call R)) → Inert xs → Inert ys → Inert (xs ++ ys)
  Inert-append xs ys h k = record {
    silent = All-append Silent xs ys h.silent k.silent;
    calm = All-append Calm xs ys h.calm k.calm;
  }

  drive-Inert :
      (main : MainTask R) (rx : Bool) (duration : Option ℕ) (client : Bool)
      → Inert (drive_main main rx duration client)
  drive-Inert main rx duration client = record {
    silent = drive-Silent main rx duration client;
    calm = drive-Calm main rx duration client;
  }

  refused-Inert : Inert (plain log_unsupported ∷ [])
  refused-Inert = record { silent = (refl, tt); calm = (refl, tt) }

  promiscuous-Inert : (on : Bool) → Inert (checked (set_promiscuous_mode on) ∷ [])
  promiscuous-Inert on = record { silent = (refl, tt); calm = (refl, tt) }

  closing-Inert : Inert (plain stop_signal_reset ∷ plain reset_globals ∷ [])
  closing-Inert = record { silent = (refl, (refl, tt)); calm = (refl, (refl, tt)) }

  role-Inert :
      (c : CsiNode R) (s : Surroundings) (bringup : Bool) (duration : Option ℕ) (role : NodeRole R)
      → is_sniffer role ≡ false
      → Inert (run_role c s bringup duration role)
  unfolding run_role is_sniffer
  role-Inert c s bringup duration (emitter config) h =
      drive-Inert (run_emitter config) false duration s.has_client
  role-Inert c s bringup duration (collector_role (sniffer config)) h = cc
  role-Inert c s bringup duration (collector_role (access_point config)) h =
      Inert-append _ _
        (drive-Inert (run_ap config (acquisition c) c.io_tasks c.traffic_freq_hz) (rx_of c) duration
          s.has_client)
        (promiscuous-Inert false)
  role-Inert c s bringup duration (collector_role (station config)) h =
      Inert-append _ _
        (drive-Inert (run_sta_connect c.traffic_freq_hz (acquisition c) c.io_tasks) (rx_of c)
          duration s.has_client)
        (promiscuous-Inert false)
  role-Inert c s bringup duration (central (CentralOpMode.esp_now config)) h =
      drive-Inert (run_esp_now_central config c.traffic_freq_hz s.is_collector c.io_tasks) (rx_of c)
        duration s.has_client
  role-Inert c s bringup duration (central (CentralOpMode.esp_now_fast_collector config)) h =
      drive-Inert (run_esp_now_fast_collector config c.io_tasks) (rx_of c) duration s.has_client
  role-Inert c s bringup duration (central (CentralOpMode.wifi_station config)) h = refused-Inert
  role-Inert c s bringup duration (central (CentralOpMode.wifi_access_point config)) h =
      refused-Inert
  role-Inert c s bringup duration (peripheral (PeripheralOpMode.esp_now config)) h =
      drive-Inert (run_esp_now_peripheral config c.traffic_freq_hz c.io_tasks) (rx_of c) duration
        s.has_client
  role-Inert c s bringup duration (peripheral (PeripheralOpMode.esp_now_fast_source config)) h =
      drive-Inert (run_esp_now_fast_source config c.traffic_freq_hz c.io_tasks) false duration
        s.has_client
  role-Inert c s bringup duration (peripheral (PeripheralOpMode.wifi_sniffer config)) h =
      refused-Inert

  -- What is armed by a list of calls, which is to leave the radio as it is from then on.
  pub record Arms (expected : List RadioCsiConfig) (cs : List (Call R)) : Type 0 where
    pub armed_lem : armed cs ≡ expected
    pub settled : Settled cs

  Inert-Arms : (cs : List (Call R)) → Inert cs → Arms [] cs
  Inert-Arms cs h = record {
    armed_lem = ap armed (sym (append-nil cs)) ∙ armed-append cs [] h.silent;
    settled = Settled-Calm cs h.calm;
  }

  append-Arms :
      (expected : List RadioCsiConfig) (xs ys : List (Call R))
      → All Silent xs
      → Arms expected ys
      → Arms expected (xs ++ ys)
  append-Arms expected xs ys h k = record {
    armed_lem = armed-append xs ys h ∙ k.armed_lem;
    settled = Settled-append xs ys h k.settled;
  }

  set_csi-Arms :
      (csi : RadioCsiConfig) (cs : List (Call R))
      → Inert cs
      → Arms (csi ∷ []) (checked (set_csi csi) ∷ cs)
  set_csi-Arms csi cs h = record {
    armed_lem = let a = Inert-Arms cs h in ap (λ l. csi ∷ l) a.armed_lem;
    settled = (h.calm, Settled-Calm cs h.calm);
  }

  After-append :
      (l : List RadioCsiConfig) (xs ys : List (Call R))
      → After l xs
      → All Calm ys
      → After l (xs ++ ys)
  After-append [] xs ys a h = tt
  After-append (csi ∷ more) xs ys a h = All-append Calm xs ys a h

  Calm-Settled-append : (xs ys : List (Call R)) → Settled xs → All Calm ys → Settled (xs ++ ys)
  Calm-Settled-append [] ys s h = Settled-Calm ys h
  Calm-Settled-append (x ∷ xs) ys (a, s) h =
      (After-append (csi_of x) xs ys a h, Calm-Settled-append xs ys s h)

  armed-append_Inert : (xs ys : List (Call R)) → Inert ys → armed (xs ++ ys) ≡ armed xs
  armed-append_Inert [] ys h = let a = Inert-Arms ys h in a.armed_lem
  armed-append_Inert (x ∷ xs) ys h = ap (λ l. csi_of x ++ l) (armed-append_Inert xs ys h)

  Arms-Inert :
      (expected : List RadioCsiConfig) (xs ys : List (Call R))
      → Arms expected xs
      → Inert ys
      → Arms expected (xs ++ ys)
  Arms-Inert expected xs ys h k = record {
    armed_lem = armed-append_Inert xs ys k ∙ h.armed_lem;
    settled = Calm-Settled-append xs ys h.settled k.calm;
  }

  guarded-Arms :
      (b : Bool) (csi : RadioCsiConfig) (cs : List (Call R))
      → Inert cs
      → Arms (asked b csi) ((if b then checked (set_csi csi) ∷ [] else []) ++ cs)
  guarded-Arms true csi cs h = set_csi-Arms csi cs h
  guarded-Arms false csi cs h = Inert-Arms cs h

  sniffer_driver-Inert :
      (rx : Bool) (duration : Option ℕ) (client : Bool) → Inert (drive_sniffer rx duration client)
  unfolding drive_sniffer
  sniffer_driver-Inert true (some d) client = record {
    silent = (refl, (refl, (refl, tt)));
    calm = (tt, (refl, (refl, tt)));
  }
  sniffer_driver-Inert false (some d) client = record { silent = (refl, tt); calm = (refl, tt) }
  sniffer_driver-Inert true none client = record { silent = (refl, tt); calm = (refl, tt) }
  sniffer_driver-Inert false none client = record { silent = (refl, tt); calm = (refl, tt) }

  sniffer-Arms :
      (config : WifiSnifferConfig) (bringup rx : Bool) (duration : Option ℕ) (client : Bool)
      (csi : RadioCsiConfig)
      → Arms (asked rx csi) (run_sniffer config bringup rx duration client csi)
  unfolding run_sniffer
  sniffer-Arms config bringup rx duration client csi =
      append-Arms (asked rx csi)
        (checked (set_promiscuous_mode true)
          ∷ checked (set_channel config.channel no_secondary)
          ∷ (if bringup then plain apply_sniffer_radio ∷ [] else []))
        _ (refl, (refl, optional_All Silent bringup (plain apply_sniffer_radio) refl))
        (guarded-Arms rx csi _ (
          Inert-append (drive_sniffer rx duration client) _
            (sniffer_driver-Inert rx duration client) (promiscuous-Inert false)))

  -- The roles for which `run_inner` itself arms CSI.
  abbrev pub captures : NodeRole R → Bool
  captures (emitter config) = false
  captures (collector_role (access_point config)) = false
  captures role = true

  gate :
      (rx io : Bool) (role : NodeRole R)
      → rx ≡ (io && not (is_emitter role))
      → is_sniffer role ≡ false
      → (rx && not (is_sniffer role) && not (is_ap role)) ≡ (io && captures role)
  unfolding is_emitter is_sniffer is_ap
  gate rx io (emitter config) e h = ground arith
  gate rx io (collector_role (sniffer config)) e h = cc
  gate rx io (collector_role (access_point config)) e h = ground arith
  gate rx io (collector_role (station config)) e h = ground arith
  gate rx io (central mode) e h = ground arith
  gate rx io (peripheral mode) e h = ground arith

  -- The CSI call of `arm` and the arm of the role, for a role that is not the sniffer.
  other-Arms :
      (c : CsiNode R) (s : Surroundings) (bringup : Bool) (duration : Option ℕ) (role : NodeRole R)
      → rx_of c ≡ (c.io_tasks.rx_enabled && not (is_emitter role))
      → is_sniffer role ≡ false
      → Arms (asked (c.io_tasks.rx_enabled && captures role) (acquisition c)) (
          (if rx_of c && not (is_sniffer role) && not (is_ap role)
            then checked (set_csi (acquisition c)) ∷ []
            else [])
          ++ run_role c s bringup duration role)
  other-Arms c s bringup duration role e h =
      let calls =
        (if rx_of c && not (is_sniffer role) && not (is_ap role)
          then checked (set_csi (acquisition c)) ∷ []
          else [])
        ++ run_role c s bringup duration role in
      subst (λ b. Arms (asked b (acquisition c)) calls)
        (gate (rx_of c) c.io_tasks.rx_enabled role e h)
        (guarded-Arms (rx_of c && not (is_sniffer role) && not (is_ap role)) (acquisition c)
          (run_role c s bringup duration role) (role-Inert c s bringup duration role h))

  unasked-Arms :
      (x y : Bool) (csi : RadioCsiConfig) (expected : List RadioCsiConfig) (cs : List (Call R))
      → Arms expected cs
      → Arms expected ((if x && false && y then checked (set_csi csi) ∷ [] else []) ++ cs)
  unasked-Arms true y csi expected cs h = h
  unasked-Arms false y csi expected cs h = h

  role-Arms :
      (c : CsiNode R) (s : Surroundings) (bringup : Bool) (duration : Option ℕ) (role : NodeRole R)
      → rx_of c ≡ (c.io_tasks.rx_enabled && not (is_emitter role))
      → Arms (asked (c.io_tasks.rx_enabled && captures role) (acquisition c)) (
          (if rx_of c && not (is_sniffer role) && not (is_ap role)
            then checked (set_csi (acquisition c)) ∷ []
            else [])
          ++ run_role c s bringup duration role)
  unfolding is_sniffer is_emitter run_role
  role-Arms c s bringup duration (emitter config) e =
      other-Arms c s bringup duration (emitter config) e refl
  role-Arms c s bringup duration (central mode) e =
      other-Arms c s bringup duration (central mode) e refl
  role-Arms c s bringup duration (peripheral mode) e =
      other-Arms c s bringup duration (peripheral mode) e refl
  role-Arms c s bringup duration (collector_role (station config)) e =
      other-Arms c s bringup duration (collector_role (station config)) e refl
  role-Arms c s bringup duration (collector_role (access_point config)) e =
      other-Arms c s bringup duration (collector_role (access_point config)) e refl
  role-Arms c s bringup duration (collector_role (sniffer config)) e =
      let csi = acquisition c in
      let calls = run_role c s bringup duration (collector_role (sniffer config)) in
      let own : Arms (asked (rx_of c) csi) calls =
        sniffer-Arms config bringup (rx_of c) duration s.has_client csi in
      unasked-Arms (rx_of c) (not (is_ap (collector_role (sniffer config)))) csi
        (asked (c.io_tasks.rx_enabled && true) csi) calls
        (subst (λ b. Arms (asked b csi) calls) e own)

  -- The calls that a run makes itself.
  run-Arms :
      (duration : Option ℕ) (s : Surroundings) (c : CsiNode R)
      → Arms
          (asked (c.io_tasks.rx_enabled && captures c.role) (acquisition c))
          (run_inner duration s c)
  unfolding run_inner rx_of
  run-Arms duration s c =
      let bringup = c.profile.wants_bringup c.role c.protocol in
      let expected = asked (c.io_tasks.rx_enabled && captures c.role) (acquisition c) in
      let closing : List (Call R) = plain stop_signal_reset ∷ plain reset_globals ∷ [] in
      let asks = rx_of c && not (is_sniffer c.role) && not (is_ap c.role) in
      let call : List (Call R) = if asks then checked (set_csi (acquisition c)) ∷ [] else [] in
      let own = run_role c s bringup duration c.role in
      let last : Arms expected (call ++ (own ++ closing)) =
        subst (Arms expected) (append_assoc call own closing) (
          Arms-Inert expected (call ++ own) closing (role-Arms c s bringup duration c.role refl)
            closing-Inert) in
      append-Arms expected (begin_run c) _ (All-Plain-Silent (begin_run c) (begin-Plain c)) (
        append-Arms expected (set_up c s.bandwidths_readable bringup) _
          (All-Plain-Silent (set_up c s.bandwidths_readable bringup)
            (set_up-Plain c s.bandwidths_readable bringup))
          (append-Arms expected
            (plain (store_csi_output_enabled c.csi_output_enabled)
              ∷ plain (set_seq_drop_detection (not (is_emitter c.role)))
              ∷ [])
            (call ++ (own ++ closing)) (refl, (refl, tt)) last))

  -- Of the calls that run_inner makes itself, outside the tasks that it joins: it arms the CSI
  -- callback exactly once where RX is enabled and the role is neither an emitter nor an access
  -- point, with the acquisition that the configuration and the profile give, and otherwise never;
  -- and once it has armed CSI it does not set up the radio any more. The tasks that it joins and
  -- that arm CSI on their own, the station's and the access point's, are handed the same acquisition
  -- and the node's task switches. Nothing is said of the calls of the joined tasks.
  pub run_inner-Arms :
      (duration : Option ℕ) (s : Surroundings) (c : CsiNode R)
      → Arms
          (asked (c.io_tasks.rx_enabled && captures c.role) (acquisition c))
          (run_inner duration s c)
        × All (Handed c) (run_inner duration s c)
  run_inner-Arms duration s c = (run-Arms duration s c, run_inner-Handed c duration s)
