-- ===== src/Witness/Home.antt =====
-- Tests of the Home Assistant integration.
use Prim.Native.String.{String}
use rose_esp.Prelude.{
  ◌%◌, ◌≡◌, refl, arith, true, false, some, none, List, [], ◌∷◌, All, length, take, drop,
}
use rose_esp.Prelude.Int.{ℤ, pos, ltb_ℤ}
use rose_esp.Prelude.Dict.{get, put}
use rose_esp.Struct.{IsByte}
use rose_esp.Integration.Tcl.{
  Floats, TclState, on, cool, low, sum, encode_tcl_frame, encode_tcl_ir_signal,
}
use rose_esp.Integration.Tcl.Frames.{IsFloats}
use rose_esp.Integration.Tcl.Signals.{read_signal, encode_tcl_ir_signal_lem}
use rose_esp.Integration.Climate.{active, Climate, Extended, new, tcl_state}
use rose_esp.Integration.Climate.Coherence.{
  mode, extended, IsCoherent, run, run_all, run-IsCoherent,
}
use rose_esp.Integration.Presence.{
  ble_device_in_range, ble_device_out_of_range, ble_rssi, RoseCoordinator, home_in,
  handle_ble_event, set_one, set_ble_state, normalize_mac, normalized, update_data,
  merge_ble_devices, merge_loop,
}
use rose_esp.Integration.Presence.Told.{
  told, Activity, message, refresh, refreshed, act, act_all, AreQuiet, act_all-told,
}

-- Temperatures that are whole numbers.
abbrev whole : Floats ℤ
whole = record { less = ltb_ℤ; sixteen = pos 16; thirty_one = pos 31; round = λ t. t }

whole-IsFloats : IsFloats whole
whole-IsFloats = record {
  bounds_ordered = refl;
  round_sixteen = refl;
  round_thirty_one = refl;
  round_monotone = λ a b h. ground arith;
}

abbrev cooling : TclState ℤ
cooling = record {
  power = on;
  mode = cool;
  temperature_c = pos 24;
  fan = low;
  swing_vertical = true;
  swing_horizontal = false;
  econo = false;
  health = false;
  turbo = true;
  light = true;
  timer_minutes = pos 0;
  aux_heat = false;
}

encode_tcl_ir_signal_lem_example :
    (read_signal (encode_tcl_ir_signal whole cooling) ≡ encode_tcl_frame whole cooling)
    × All IsByte (encode_tcl_frame whole cooling)
    × (length (encode_tcl_frame whole cooling) ≡ 14)
    × (drop 13 (encode_tcl_frame whole cooling)
        ≡ (sum (take 13 (encode_tcl_frame whole cooling)) % 256) ∷ [])
    × (take 1 (drop 7 (encode_tcl_frame whole cooling)) ≡ 7 ∷ [])
encode_tcl_ir_signal_lem_example = encode_tcl_ir_signal_lem whole cooling whole-IsFloats

-- A service call that turns on economy and turbo at once.
abbrev both : Extended
both = record {
  econo = some true;
  health = none;
  turbo = some true;
  light = none;
  timer_minutes = none;
  aux_heat = some true;
}

abbrev cooled : Climate ℤ
cooled = run_all whole (mode (active cool) ∷ []) (new (pos 26))

run-IsCoherent_example :
    IsCoherent (run whole (extended both) cooled).hvac_mode (run whole (extended both) cooled).extra
    × ((run whole (extended both) cooled).sent
        ≡ encode_tcl_ir_signal whole (tcl_state whole (run whole (extended both) cooled))
          ∷ cooled.sent)
run-IsCoherent_example = run-IsCoherent whole (pos 26) (mode (active cool) ∷ []) (extended both)

abbrev same : String → String
same s = s

abbrev coordinator : RoseCoordinator
coordinator = record {
  current = record { connected = true; ble = [] };
  received_ble_snapshot = true;
  fired = [];
  refreshes = 0;
  delays = [];
}

-- A device comes, is measured and goes; a refresh finds no device, and another one comes.
abbrev visit : List (Activity same same same)
visit =
    message (ble_device_in_range "aa" (some (pos 40)))
    ∷ message (ble_rssi "aa" (some (pos 50)))
    ∷ message (ble_device_out_of_range "aa" none)
    ∷ refresh (some true) (some []) (some [])
    ∷ message (ble_device_in_range "bb" none)
    ∷ []

act_all-told_example :
    told false (act_all same same same visit coordinator).fired "bb"
    ≡ home_in (act_all same same same visit coordinator).current.ble "bb"
unfolding get put AreQuiet act refreshed handle_ble_event set_one set_ble_state normalize_mac
    normalized update_data merge_ble_devices merge_loop
act_all-told_example =
    act_all-told same same same visit "bb" coordinator refl refl (tt, (tt, (tt, (refl, (tt, tt)))))
