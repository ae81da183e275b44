-- ===== src/Delivery/Stores.antt =====
-- The setters of the gates as the sequences of atomic stores they are: the Wi-Fi task may run
-- the callback between any two of them.
use mathlib.Core.Option.{some-ne-none}
use esp_csi_rs_core.Common.{
  ℕ, ◌≡◌, ◌≢◌, refl, subst, Bool, true, false, List, [], ◌∷◌, ◌++◌, Option, none, some, arith, All,
  All-append,
}
use esp_csi_rs_core.Delivery.{
  Gates, CsiDeliveryMode, off, callback, async, mode_u8, set_csi_logging_enabled,
  set_csi_delivery_mode, set_csi_callback, clear_csi_callback, set_csi_raw_callback,
  set_csi_output_enabled, set_runtime_collection_mode, set_csi_peer_filter, set_csi_min_sig_mode,
  pack_mac, refresh_filter_active, reset,
}
use esp_csi_rs_core.Delivery.Calls.{Call, step}

pub data Store : Type 0 where
  inline_log publish output collector : Bool → Store
  mode min_mode peer raw_callback : ℕ → Store
  user_callback : Option ℕ → Store
  output_changed collection_changed filter_active : Store

unfoldable pub store : Store → Gates → Gates
unfolding refresh_filter_active
store (inline_log b) g = record g { csi_inline_log_enabled = b }
store (publish b) g = record g { csi_publish_enabled = b }
store (output b) g = record g { csi_output_enabled = b }
store (collector b) g = record g { is_collector = b }
store (mode n) g = record g { csi_delivery_mode = n }
store (min_mode n) g = record g { csi_min_sig_mode = n }
store (peer n) g = record g { csi_peer_filter = n }
store (raw_callback n) g = record g { csi_raw_callback = some n }
store (user_callback o) g = record g { csi_callback = o }
store output_changed g = record g { csi_output_changed = true }
store collection_changed g = record g { collection_mode_changed = true }
store filter_active g = refresh_filter_active g

-- The stores of a call, in the order of the source.
unfoldable pub stores : Call → List Store
stores (Call.logging enabled) = inline_log enabled ∷ publish enabled ∷ []
stores (Call.delivery_mode m) = mode (mode_u8 m) ∷ []
stores (Call.callback cb) = user_callback (some cb) ∷ mode 1 ∷ publish true ∷ []
stores Call.clear = mode 0 ∷ user_callback none ∷ []
stores (Call.raw cb) = raw_callback cb ∷ publish true ∷ []
stores (Call.output enabled) = output enabled ∷ output_changed ∷ []
stores (Call.collection on) = collector on ∷ collection_changed ∷ []
stores (Call.peer_filter m) = peer (pack_mac m) ∷ filter_active ∷ []
stores (Call.min_sig_mode min) = min_mode min ∷ filter_active ∷ []
stores Call.run_end = inline_log false ∷ publish false ∷ mode 0 ∷ user_callback none ∷ []

-- The states that the stores pass through, the first and the last included.
unfoldable pub seen : List Store → Gates → List Gates
seen [] g = g ∷ []
seen (s ∷ ss) g = g ∷ seen ss (store s g)

unfoldable pub store_all : List Store → Gates → Gates
store_all [] g = g
store_all (s ∷ ss) g = store_all ss (store s g)

-- The stores of a call, one after the other, are the call.
pub store_all-stores : (c : Call) (g : Gates) → store_all (stores c) g ≡ step c g
unfolding store_all stores store step set_csi_peer_filter set_csi_min_sig_mode
    set_csi_logging_enabled set_csi_delivery_mode set_csi_callback clear_csi_callback
    set_csi_raw_callback set_csi_output_enabled set_runtime_collection_mode reset
store_all-stores (Call.logging e) g = refl
store_all-stores (Call.delivery_mode m) g = refl
store_all-stores (Call.callback cb) g = refl
store_all-stores Call.clear g = refl
store_all-stores (Call.raw cb) g = refl
store_all-stores (Call.output e) g = refl
store_all-stores (Call.collection on) g = refl
store_all-stores (Call.peer_filter m) g = refl
store_all-stores (Call.min_sig_mode min) g = refl
store_all-stores Call.run_end g = refl

unfoldable pub history : List Call → Gates → List Gates
unfolding seen stores
history [] g = g ∷ []
history (c ∷ cs) g = seen (stores c) g ++ history cs (step c g)

-- The Wi-Fi task that sees the mode `Callback` finds a function.
abbrev pub Ready : Gates → Type 0
Ready g = g.csi_delivery_mode ≡ 1 → g.csi_callback ≢ none

-- The mode is not forced to `Callback` by hand.
abbrev pub NotForced : Call → Type 0
NotForced (Call.delivery_mode m) = m ≢ callback
NotForced _ = Unit {0}

mode_not_one : (m : CsiDeliveryMode) → m ≢ callback → mode_u8 m ≢ 1
mode_not_one off h = omega arith
mode_not_one callback h = absurd (h refl)
mode_not_one async h = omega arith

absurd_mode : (n : ℕ) (o : Option ℕ) → n ≢ 1 → n ≡ 1 → o ≢ none
absurd_mode n o h e = absurd (h e)

some_found : (cb : ℕ) → some cb ≢ none
some_found cb h = some-ne-none cb h

seen-Ready : (c : Call) (g : Gates) → NotForced c → Ready g → All Ready (seen (stores c) g)
unfolding seen stores store
seen-Ready (Call.logging e) g n r = (r, (r, (r, tt)))
seen-Ready (Call.delivery_mode m) g n r = (r, (absurd_mode _ _ (mode_not_one m n), tt))
seen-Ready (Call.callback cb) g n r =
    (r, ((λ _. some_found cb), ((λ _. some_found cb), ((λ _. some_found cb), tt))))
seen-Ready Call.clear g n r =
    (r, (absurd_mode 0 _ (omega arith), (absurd_mode 0 _ (omega arith), tt)))
seen-Ready (Call.raw cb) g n r = (r, (r, (r, tt)))
seen-Ready (Call.output e) g n r = (r, (r, (r, tt)))
seen-Ready (Call.collection on) g n r = (r, (r, (r, tt)))
seen-Ready (Call.peer_filter m) g n r = (r, (r, (r, tt)))
seen-Ready (Call.min_sig_mode min) g n r = (r, (r, (r, tt)))
seen-Ready Call.run_end g n r =
    (r, (r, (r, (absurd_mode 0 _ (omega arith), (absurd_mode 0 _ (omega arith), tt)))))

last_seen-Ready : (ss : List Store) (g : Gates) → All Ready (seen ss g) → Ready (store_all ss g)
unfolding seen store_all
last_seen-Ready [] g (r, _) = r
last_seen-Ready (s ∷ ss) g (_, rs) = last_seen-Ready ss (store s g) rs

step-Ready : (c : Call) (g : Gates) → NotForced c → Ready g → Ready (step c g)
step-Ready c g n r =
    subst Ready (store_all-stores c g) (last_seen-Ready (stores c) g (seen-Ready c g n r))

-- In whatever state the Wi-Fi task looks at the gates while a sequence of calls runs, between two
-- stores or between two calls, the mode `Callback` comes with a function,
-- unless the mode is forced to `Callback` by `set_csi_delivery_mode`.
pub history-Ready :
    (cs : List Call) (g : Gates) → All NotForced cs → Ready g → All Ready (history cs g)
unfolding history seen stores store
history-Ready [] g n r = (r, tt)
history-Ready (c ∷ cs) g (n, ns) r =
    All-append Ready (seen (stores c) g) (history cs (step c g)) (seen-Ready c g n r)
      (history-Ready cs (step c g) ns (step-Ready c g n r))
